-- ===== src/Registry/Calls.antt =====
-- What a call of `ref` does to the slots, the counter and the memory, one call at a time.
use imps.Base.{
  ℕ, suc, ◌<◌, String, eq_iff, pos, ◌+ℤ◌, ◌≤ℤ◌, leb_ℤ, ltb_ℤ, none, some, lookup, insert, ◌≡◌, ◌≢◌,
  length, arith, Option-cases, Bool-cases, inl, inr, lookup-insert, length-insert_absent, true,
  false,
}
use imps.Errors.{cap_exceeded}
use imps.Registry.{Shape, Memory, Ref, ref_to, refused, ref_in, alloc}

-- Between calls: the counter is the number of slots, within the cap, every slot is allocated, and
-- no two entities share one.
pub record ShapeOk {Any : Type 0} (m : Memory Any) (sh : Shape Any) : Type 0 where
  pub counted : sh.count ≡ pos (length sh.slots)
  pub capped : sh.count ≤ℤ sh.cap
  pub held : (e : String) (a : ℕ) → lookup e sh.slots ≡ some a → (a < m.next) × (m.cell a ≢ none)
  pub apart :
      (d e : String) (a : ℕ) → lookup d sh.slots ≡ some a → lookup e sh.slots ≡ some a → d ≡ e

module _ {Any : Type 0} (sh : Shape Any) (e : String) where
  -- The shape after a new slot at `a`.
  abbrev pub grown : ℕ → Shape Any
  grown a = record sh { count = sh.count +ℤ pos 1; slots = insert e a sh.slots }

  module _ (m : Memory Any) (v : Any) (h : ShapeOk m sh) (new : lookup e sh.slots ≡ none) where
    open h use {counted, capped, held, apart}

    grown-ShapeOk : ltb_ℤ sh.count sh.cap ≡ true → ShapeOk (alloc m v).0 (grown m.next)
    unfolding ◌+ℤ◌
    grown-ShapeOk room = record {
      counted = ground (arith, length-insert_absent e m.next sh.slots new);
      capped = ground arith;
      held = λ d a p. ground (arith, lookup-insert e d m.next sh.slots, held d a);
      apart = λ d f a p q. ground (
        arith,
        lookup-insert e d m.next sh.slots,
        lookup-insert e f m.next sh.slots,
        eq_iff e d,
        eq_iff e f,
        apart d f a,
        held d a,
        held f a,
      );
    }

  module _ (E : Type 0) (m : Memory Any) where
    ref_in_old : {a : ℕ} → lookup e sh.slots ≡ some a → ref_in {E = E} sh m e ≡ (sh, m, ref_to a)
    unfolding ref_in
    ref_in_old old = ground arith

    ref_in_full :
        lookup e sh.slots ≡ none
        → leb_ℤ sh.cap sh.count ≡ true
        → ref_in {E = E} sh m e ≡ (sh, m, refused (cap_exceeded sh.name sh.cap))
    unfolding ref_in
    ref_in_full new full = ground arith

    ref_in_new :
        {make : Unit {0} → Any}
        → lookup e sh.slots ≡ none
        → leb_ℤ sh.cap sh.count ≡ false
        → sh.factory ≡ some make
        → ref_in {E = E} sh m e ≡ (grown m.next, (alloc m (make tt)).0, ref_to m.next)
    unfolding ref_in
    ref_in_new new room made = ground arith

    -- On a well-formed shape with a factory, a call of ref keeps the counter equal to the number
    -- of slots and within the cap, and never lets two entities share a slot.
    pub ref_in-ShapeOk :
        ShapeOk m sh
        → sh.factory ≢ none
        → ShapeOk (ref_in {E = E} sh m e).1 (ref_in {E = E} sh m e).0
    ref_in-ShapeOk h made = elim (Option-cases (lookup e sh.slots)) [
      | inr (a, old) ↦ rw (ref_in_old old) h
      | inl new ↦ elim (Bool-cases (leb_ℤ sh.cap sh.count)) [
        | inl full ↦ rw (ref_in_full new full) h
        | inr room ↦ elim (Option-cases sh.factory) [
          | inl nil ↦ absurd (made nil)
          | inr (make, is) ↦
              rw (ref_in_new new room is) (grown-ShapeOk m (make tt) h new (ground arith))
        ]
      ]
    ]

    -- The three ways in which a call of `ref` can end, by the slots before it.
    pub data Outcome (r : Shape Any × Memory Any × Ref E) : Type 0 where
      existing : (a : ℕ) → lookup e sh.slots ≡ some a → r ≡ (sh, m, ref_to a) → Outcome r
      full :
          lookup e sh.slots ≡ none
          → sh.cap ≤ℤ pos (length sh.slots)
          → r ≡ (sh, m, refused (cap_exceeded sh.name sh.cap))
          → Outcome r
      fresh :
          (v : Any)
          → lookup e sh.slots ≡ none
          → pos (suc (length sh.slots)) ≤ℤ sh.cap
          → r ≡ (grown m.next, (alloc m v).0, ref_to m.next)
          → Outcome r

    -- On a well-formed shape with a factory, an entity with a slot always gets it, whatever the
    -- cap; a new entity is refused, with nothing changed, exactly when the slots have reached the
    -- cap, and gets a slot of its own otherwise.
    pub ref_in-Outcome : ShapeOk m sh → sh.factory ≢ none → Outcome (ref_in {E = E} sh m e)
    ref_in-Outcome h made = elim (Option-cases (lookup e sh.slots)) [
      | inr (a, old) ↦ existing a old (ref_in_old old)
      | inl new ↦ elim (Bool-cases (leb_ℤ sh.cap sh.count)) [
        | inl at_cap ↦ full new (ground (arith, h.counted)) (ref_in_full new at_cap)
        | inr room ↦ elim (Option-cases sh.factory) [
          | inl nil ↦ absurd (made nil)
          | inr (make, is) ↦
              fresh (make tt) new (ground (arith, h.counted)) (ref_in_new new room is)
        ]
      ]
    ]
