-- ===== src/Persist/Lru/Coherence.antt =====
-- The map and the list of a `Residency` agree: each resident entity has one element in the list,
-- which points to the entity's own entry.
use imps.Base.{
  ℕ, ◌<◌, String, ◌==◌, eq_iff, true, Option, none, some, eqb, if◌then◌else◌, ◌≡◌, refl, arith,
  lookup, lookup-insert, lookup-erase, Bool-cases, Option-cases, inl, inr, ◌⊎◌,
}
use imps.Persist.Lru.{Entry, Residency, member, find, touch, write, drop, push_front}
use imps.Persist.Lru.Addresses.{Once, member-remove, member-move, Once-remove, Once-move}

module _ {T : Type 0} where
  -- The entity of the entry at an address.
  abbrev pub owner : Residency T → ℕ → Option String
  owner r a = elim (r.entries a) [ none ↦ none | some x ↦ some x.entity ]

  -- The state that a resident entity is seen to have.
  abbrev pub state_of : Residency T → String → Option T
  state_of r e = elim (find r e) [ none ↦ none | some (a, x) ↦ some x.state ]

  pub record Coherent (r : Residency T) : Type 0 where
    pub once : Once r.lru
    pub below : (a : ℕ) → member a r.lru ≡ true → a < r.next
    pub listed :
        (a : ℕ)
        → member a r.lru ≡ true
        → (e : String) × (owner r a ≡ some e) × (lookup e r.resident ≡ some a)
    pub linked :
        (e : String) (a : ℕ)
        → lookup e r.resident ≡ some a
        → (member a r.lru ≡ true) × (owner r a ≡ some e)

  pub find-linked :
      (r : Residency T) (e : String)
      → Coherent r
      → (lookup e r.resident ≡ none)
        ⊎ ((a : ℕ) × (x : Entry T) × (lookup e r.resident ≡ some a)
            × (r.entries a ≡ some x)
            × (x.entity ≡ e))
  find-linked r e h = elim (Option-cases (lookup e r.resident)) [
    | inl away ↦ inl away
    | inr (a, is) ↦ elim (Option-cases (r.entries a)) [
      | inl gone ↦ absurd (ground (arith, h.linked e a is))
      | inr (x, at) ↦ inr (a, x, is, at, ground (arith, h.linked e a is))
    ]
  ]

  module _ (r : Residency T) (h : Coherent r) where
    open h use {once, below, listed, linked}

    pub touch-Coherent : (a : ℕ) → Coherent (touch r a)
    unfolding touch
    touch-Coherent a = record {
      once = Once-move a r.lru once;
      below = λ b q. below b (rw (member-move b a r.lru) at q);
      listed = λ b q. listed b (rw (member-move b a r.lru) at q);
      linked = λ e b q. ground (arith, linked e b q, member-move b a r.lru);
    }

    pub write-Coherent : (a : ℕ) (v : T) → Coherent (write r a v)
    unfolding write
    write-Coherent a v = elim (Option-cases (r.entries a)) [
      | inl gone ↦ rw (gone, write) h
      | inr (x, at) ↦
          rw (at, write)
            (record {
              once = once;
              below = below;
              listed = λ b q. let (e, o, l) = listed b q in (e, ground arith, l);
              linked = λ e b q. ground (arith, linked e b q);
            })
    ]

    pub drop-Coherent : (a : ℕ) (e : String) → lookup e r.resident ≡ some a → Coherent (drop r a e)
    unfolding drop
    drop-Coherent a e is = record {
      once = Once-remove a r.lru once;
      below = λ b q. ground (arith, below b, member-remove b a r.lru);
      listed = λ b q.
          let (f, o, l) = listed b (ground (arith, member-remove b a r.lru)) in
          (f, o, ground (arith, lookup-erase e f r.resident, eq_iff e f, member-remove b a r.lru));
      linked = λ f b q. ground (
        arith,
        lookup-erase e f r.resident,
        eq_iff e f,
        linked f b,
        linked e a is,
        member-remove b a r.lru,
      );
    }

    pub push_front-Coherent :
        (e : String) (v : T) → lookup e r.resident ≡ none → Coherent (push_front r e v)
    unfolding push_front member
    push_front-Coherent e v new = record {
      once = (ground (arith, below r.next), once);
      below = λ b q. ground (arith, below b);
      listed = λ b q. elim (Bool-cases (eqb r.next b)) [
        | inl here ↦
            (e, ground arith, ground (arith, lookup-insert e e r.next r.resident, eq_iff e e))
        | inr old ↦
            let (f, o, l) = listed b (ground arith) in
            (f, ground arith, ground (arith, lookup-insert e f r.next r.resident, eq_iff e f))
      ];
      linked = λ f b q.
          ground (arith, lookup-insert e f r.next r.resident, eq_iff e f, linked f b, below b);
    }

  -- What each step on the residency does to the states that are seen.
  pub state_of-touch :
      (r : Residency T) (a : ℕ) (f : String) → state_of (touch r a) f ≡ state_of r f
  unfolding touch find
  state_of-touch r a f = refl

  pub state_of-write :
      (r : Residency T) (h : Coherent r) (e f : String) (a : ℕ) (v : T)
      → lookup e r.resident ≡ some a
      → state_of (write r a v) f ≡ (if e == f then some v else state_of r f)
  unfolding write find
  state_of-write r h e f a v is =
      ground (arith, eq_iff e f, h.linked e a is, h.linked f a, Option-cases (lookup f r.resident))

  pub state_of-drop :
      (r : Residency T) (e f : String) (a : ℕ)
      → state_of (drop r a e) f ≡ (if e == f then none else state_of r f)
  unfolding drop find
  state_of-drop r e f a = ground (arith, lookup-erase e f r.resident)

  pub state_of-push_front :
      (r : Residency T) (h : Coherent r) (e f : String) (v : T)
      → state_of (push_front r e v) f ≡ (if e == f then some v else state_of r f)
  unfolding push_front find
  state_of-push_front r h e f v = elim (Option-cases (lookup f r.resident)) [
    | inl away ↦ ground (arith, lookup-insert e f r.next r.resident)
    | inr (b, is) ↦ ground (arith, lookup-insert e f r.next r.resident, h.below b, h.linked f b is)
  ]
