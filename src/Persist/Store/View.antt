-- ===== src/Persist/Store/View.antt =====
-- The store against the backend alone: what `Get` returns is what the backend's envelope says,
-- resident or not.
use imps.Base.{
  ℕ, pos, ℤ, String, ◌==◌, eq_iff, Option, none, some, ◌≡◌, refl, sym, ◌∙◌, arith, lookup, inl, inr,
  Option-cases, Bool-cases,
}
use imps.Errors.{ImpError}
use imps.Persist.Lru.{Entry, Residency, find, touch, insert}
use imps.Persist.Lru.Coherence.{state_of, state_of-touch, find-linked}
use imps.Persist.Lru.Insert.{ResidencyOk, touch-ResidencyOk, Inserted, insert_lem}
use imps.Persist.Store.{World, Store, key, decode, rehydrate, get}

abbrev pub with_residency : {T : Type 0} → Store T → Residency T → Store T
with_residency s r = record s { residency = r }

-- `find` by the entity's place in the map.
module _ {T : Type 0} (r : Residency T) (e : String) where
  pub find_hit :
      {a : ℕ} {x : Entry T}
      → lookup e r.resident ≡ some a
      → r.entries a ≡ some x
      → find r e ≡ some (a, x)
  unfolding find
  find_hit is at = ground arith

  pub find_miss : lookup e r.resident ≡ none → find r e ≡ none
  unfolding find
  find_miss away = ground arith

module _ {T B E : Type 0} (w : World T B E) where
  -- Every resident state is what a fresh read of the backend would give.
  pub record StoreOk (s : Store T) (b : B) : Type 0 where
    pub residency_ok : ResidencyOk s.residency
    pub no_wake : s.wake ≡ none
    pub durable :
        (e : String) (v : T)
        → state_of s.residency e ≡ some v
        → rehydrate w (pos 0) s b e ≡ (v, none)

  -- Without a wake hook the clock does not matter.
  pub rehydrate_now :
      (now : ℤ) (s : Store T) (b : B) (e : String)
      → s.wake ≡ none
      → rehydrate w now s b e ≡ rehydrate w (pos 0) s b e
  unfolding rehydrate decode
  rehydrate_now now s b e h = ground arith

  -- `rehydrate` reads the name and the wake hook of the store, and nothing of its residency.
  pub rehydrate_residency :
      (now : ℤ) (s : Store T) (r : Residency T) (b : B) (e : String)
      → rehydrate w now (with_residency s r) b e ≡ rehydrate w now s b e
  unfolding rehydrate decode key
  rehydrate_residency now s r b e = refl

  module _ (now : ℤ) (s : Store T) (b : B) (e : String) (h : StoreOk s b) where
    abbrev read : T × Option (ImpError E)
    read = rehydrate w (pos 0) s b e

    get_hit :
        {a : ℕ} {x : Entry T}
        → lookup e s.residency.resident ≡ some a
        → s.residency.entries a ≡ some x
        → get w now s b e ≡ some (with_residency s (touch s.residency a), read.0, read.1)
    unfolding get
    get_hit {a} {x} is at = ground (
      arith,
      find_hit s.residency e is at,
      h.durable e x.state (ground (arith, find_hit s.residency e is at)),
    )

    get_failed :
        {err : ImpError E}
        → lookup e s.residency.resident ≡ none
        → read.1 ≡ some err
        → get w now s b e ≡ some (s, read.0, read.1)
    unfolding get
    get_failed away bad =
        ground (arith, find_miss s.residency e away, rehydrate_now now s b e h.no_wake)

    get_miss :
        {r : Residency T}
        → lookup e s.residency.resident ≡ none
        → read.1 ≡ none
        → insert s.residency e read.0 ≡ some r
        → get w now s b e ≡ some (with_residency s r, read.0, read.1)
    unfolding get
    get_miss away fine kept =
        ground (arith, find_miss s.residency e away, rehydrate_now now s b e h.no_wake)

    touched-StoreOk : (a : ℕ) → StoreOk (with_residency s (touch s.residency a)) b
    touched-StoreOk a = record {
      residency_ok = touch-ResidencyOk s.residency a h.residency_ok;
      no_wake = h.no_wake;
      durable = λ f v q.
          rehydrate_residency (pos 0) s (touch s.residency a) b f
          ∙ h.durable f v (sym (state_of-touch s.residency a f) ∙ q);
    }

    filled-StoreOk :
        {r : Residency T}
        → read.1 ≡ none
        → Inserted s.residency r e read.0
        → StoreOk (with_residency s r) b
    filled-StoreOk {r} fine i = record {
      residency_ok = i.ok;
      no_wake = h.no_wake;
      durable = λ f v q. elim (Bool-cases (e == f)) [
        | inl same ↦
            ground (arith, rehydrate_residency (pos 0) s r b f, i.stored, (eq_iff e f).0 same)
        | inr other ↦
            ground
              (arith, rehydrate_residency (pos 0) s r b f, i.others f, eq_iff e f, h.durable f v)
      ];
    }

  -- For a store without a wake hook whose residency agrees with the backend: Get never panics,
  -- returns the state or the error that rehydration from the backend gives, whether the entity is
  -- resident or not, and keeps the agreement.
  pub get_lem :
      (now : ℤ) (s : Store T) (b : B) (e : String)
      → StoreOk s b
      → (r : Residency T) × (get w now s b e
          ≡ some (with_residency s r, (rehydrate w (pos 0) s b e).0, (rehydrate w (pos 0) s b e).1))
        × StoreOk (with_residency s r) b
  get_lem now s b e h = elim (find-linked s.residency e h.residency_ok.coherent) [
    | inr (a, x, is, at, own) ↦
        (touch s.residency a, get_hit now s b e h is at, touched-StoreOk now s b e h a)
    | inl away ↦ elim (Option-cases (rehydrate w (pos 0) s b e).1) [
      | inr (err, bad) ↦ (s.residency, get_failed now s b e h away bad, h)
      | inl fine ↦
          let (r, kept, i) =
            insert_lem s.residency e (rehydrate w (pos 0) s b e).0 h.residency_ok away in
          (r, get_miss now s b e h away fine kept, filled-StoreOk now s b e h fine i)
    ]
  ]
