-- ===== src/Persist/Lru/Insert.antt =====
-- The residency between two operations of the store, and what `insert` does to it.
use imps.Base.{
  ℕ, suc, ◌≤ℤ◌, pos, String, eq_iff, none, some, List, ◌∷◌, ◌++◌, length, ◌≡◌, refl, arith, ◌≢◌,
  ◌⊎◌, lookup,
}
use imps.Persist.Lru.{Residency, touch, write, drop, push_front, insert}
use imps.Persist.Lru.Addresses.{length-move, length-remove}
use imps.Persist.Lru.Coherence.{
  state_of, Coherent, touch-Coherent, write-Coherent, drop-Coherent, push_front-Coherent,
  state_of-push_front,
}
use imps.Persist.Lru.Evict.{evict_lem}

module _ {T : Type 0} where
  pub record ResidencyOk (r : Residency T) : Type 0 where
    pub coherent : Coherent r
    pub positive : pos 1 ≤ℤ r.bound
    pub bounded : pos (length r.lru) ≤ℤ r.bound

  pub touch-ResidencyOk : (r : Residency T) (a : ℕ) → ResidencyOk r → ResidencyOk (touch r a)
  unfolding touch
  touch-ResidencyOk r a h = record {
    coherent = touch-Coherent r h.coherent a;
    positive = h.positive;
    bounded = omega (arith, h.bounded, length-move a r.lru h.coherent.once);
  }

  pub write-ResidencyOk :
      (r : Residency T) (a : ℕ) (v : T) → ResidencyOk r → ResidencyOk (write r a v)
  unfolding write
  write-ResidencyOk r a v h = record {
    coherent = write-Coherent r h.coherent a v;
    positive = ground arith;
    bounded = ground (arith, h.bounded);
  }

  pub write-bound : (r : Residency T) (a : ℕ) (v : T) → (write r a v).bound ≡ r.bound
  unfolding write
  write-bound r a v = ground arith

  pub drop-ResidencyOk :
      (r : Residency T) (a : ℕ) (e : String)
      → ResidencyOk r
      → lookup e r.resident ≡ some a
      → ResidencyOk (drop r a e)
  unfolding drop
  drop-ResidencyOk r a e h is = record {
    coherent = drop-Coherent r h.coherent a e is;
    positive = h.positive;
    bounded =
        omega
          (arith, h.bounded, length-remove a r.lru h.coherent.once (h.coherent.linked e a is).0);
  }

  -- The result of inserting a new entity.
  pub record Inserted (r r' : Residency T) (e : String) (v : T) : Type 0 where
    pub ok : ResidencyOk r'
    pub same_bound : r'.bound ≡ r.bound
    pub stored : state_of r' e ≡ some v
    pub others : (f : String) → e ≢ f → (state_of r' f ≡ state_of r f) ⊎ (state_of r' f ≡ none)
    -- the new entry is the hottest, and only the coldest are gone
    pub order :
        (hot cold : List ℕ) × (r.lru ≡ hot ++ cold)
        × (r'.lru ≡ r.next ∷ hot)
        × ((r'.lru ≡ r.next ∷ r.lru) ⊎ (pos (length r'.lru) ≡ r.bound))

  -- On a well-formed residency, inserting an entity that is not resident never fails, evicts only
  -- when the bound is reached and then exactly the coldest entries, and changes no other state.
  pub insert_lem :
      (r : Residency T) (e : String) (v : T)
      → ResidencyOk r
      → lookup e r.resident ≡ none
      → (r' : Residency T) × (insert r e v ≡ some r') × Inserted r r' e v
  unfolding insert push_front
  insert_lem r e v h away =
      let (s, ends, room, tight, fewer) =
        evict_lem (suc (length r.lru)) r h.coherent h.positive h.bounded (omega arith) in
      let (cold, split) = fewer.cold in
      (
        push_front s e v,
        rw (ends, insert) refl,
        record {
          ok = record {
            coherent = push_front-Coherent s fewer.coherent e v (fewer.no_new e away);
            positive = rw fewer.same_bound h.positive;
            bounded = rw fewer.same_bound room;
          };
          same_bound = rw fewer.same_bound refl;
          stored = ground (arith, state_of-push_front s fewer.coherent e e v, eq_iff e e);
          others = λ f n.
              ground (arith, state_of-push_front s fewer.coherent e f v, eq_iff e f, fewer.kept f);
          order = (s.lru, cold, split, rw fewer.same_next refl, ground (arith, fewer.same_next));
        },
      )
