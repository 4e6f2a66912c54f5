-- ===== src/Persist/Store/Delete.antt =====
-- `NewStore` and `Delete` against the map that the backend holds.
use imps.Base.{
  ◌≤ℤ◌, pos, ℤ, String, ◌==◌, eq_iff, Option, none, some, [], ◌∷◌, if◌then◌else◌, ◌≡◌, refl, arith,
  ◌≢◌, ◌⊎◌, lookup, inl, inr, Option-cases,
}
use imps.Errors.{ImpError, passed}
use imps.Persist.Lru.{Residency, find, drop, member}
use imps.Persist.Lru.Coherence.{state_of, state_of-drop, find-linked}
use imps.Persist.Lru.Insert.{ResidencyOk, drop-ResidencyOk}
use imps.Persist.Store.{
  World, Store, Codec, Config, key, rehydrate, delete, new_store, with_bound, with_codec,
}
use imps.Persist.Store.Writes.{Faithful, key-ne, view, view_same}
use imps.Persist.Store.Refine.{unchanged_StoreOk}
use imps.Persist.Store.View.{StoreOk, with_residency, rehydrate_residency, find_hit, find_miss}

module _ {T : Type 0} where
  -- The store of `NewStore` with `WithBound(n)` and no wake hook.
  unfoldable pub empty_store : String → ℤ → Store T
  empty_store name n = record {
    name = name;
    wake = none;
    residency = record { bound = n; next = 0; entries = λ _. none; resident = []; lru = [] };
  }

  empty-ResidencyOk :
      (name : String) (n : ℤ) → pos 1 ≤ℤ n → ResidencyOk (empty_store name n).residency
  unfolding empty_store member lookup
  empty-ResidencyOk name n positive = record {
    coherent = record { once = tt; below = λ a q. cc; listed = λ a q. cc; linked = λ e a q. cc };
    positive = positive;
    bounded = omega arith;
  }

module _ {T B E : Type 0} (w : World T B E) where
  -- `WithBound` accepts the positive bounds, and `NewStore` every name but the empty one; the codec of
  -- `WithCodec` takes the place of the default one.
  pub new_store_lem :
      (name : String) (n : ℤ) (codec : Codec T E)
      → name ≢ ""
      → pos 1 ≤ℤ n
      → (bounded : Config T E → Config T E) × (with_bound n ≡ some bounded)
        × (new_store w name (bounded ∷ with_codec codec ∷ [])
            ≡ some (record w { codec = codec }, empty_store name n))
  unfolding with_bound with_codec new_store empty_store
  new_store_lem name n codec named positive =
      (λ c. record c { bound = n }, ground arith, ground (arith, eq_iff name ""))

  -- A new store is correct over any backend, so it starts on what an earlier run left there.
  pub empty-StoreOk :
      (name : String) (n : ℤ) (b : B) → pos 1 ≤ℤ n → StoreOk w (empty_store name n) b
  unfolding empty_store find lookup
  empty-StoreOk name n b positive = record {
    residency_ok = empty-ResidencyOk name n positive;
    no_wake = refl;
    durable = λ e v q. cc;
  }

  module _ (law : Faithful w) (s : Store T) (b : B) (e : String) (h : StoreOk w s b) where
    abbrev b' : B
    b' = (w.backend.delete b (key s e)).0

    gone : (w.backend.delete b (key s e)).1 ≡ none → view w s b' e ≡ (w.zero, none)
    unfolding rehydrate
    gone fine = let (x, absent, is) = law.get_delete b (key s e) fine in ground arith

    others : (f : String) → e ≢ f → view w s b' f ≡ view w s b f
    others f n = view_same w s b b' f (law.get_delete_ne b (key s e) (key s f) (key-ne s e f n))

    deleted-StoreOk :
        (w.backend.delete b (key s e)).1 ≡ none
        → (r : Residency T) → ResidencyOk r
        → ((f : String) → state_of r f ≡ (if e == f then none else state_of s.residency f))
        → StoreOk w (with_residency s r) b'
    deleted-StoreOk fine r ok states = record {
      residency_ok = ok;
      no_wake = h.no_wake;
      durable = λ f v q. ground (
        arith,
        states f,
        eq_iff e f,
        others f,
        h.durable f v,
        rehydrate_residency w (pos 0) s r b' f,
      );
    }

    -- On a faithful codec and backend, for a store without a wake hook whose residency agrees with
    -- the backend: Delete resets the entity to the zero value and touches no other entity, or
    -- reports an error and changes no entity. The agreement is kept.
    pub delete_lem :
        (r : Residency T) × (err : Option (ImpError E)) × (delete w s b e
          ≡ ((with_residency s r, b'), err))
        × StoreOk w (with_residency s r) b'
        × (((err ≡ none)
              × (view w s b' e ≡ (w.zero, none))
              × ((f : String) → e ≢ f → view w s b' f ≡ view w s b f))
            ⊎ ((err ≢ none) × ((f : String) → view w s b' f ≡ view w s b f)))
    unfolding delete
    delete_lem = elim (Option-cases (w.backend.delete b (key s e)).1) [
      | inr (x, bad) ↦
          let same = λ (f : String).
            view_same w s b b' f (law.get_delete_failed b (key s e) (key s f) x bad) in
          (
            s.residency,
            some (passed x),
            ground arith,
            unchanged_StoreOk w law s b b' h same,
            inr (ground arith, same),
          )
      | inl fine ↦ elim (find-linked s.residency e h.residency_ok.coherent) [
        | inl away ↦ (
          s.residency,
          none,
          ground (arith, find_miss s.residency e away),
          deleted-StoreOk fine s.residency h.residency_ok
              (λ f. ground (arith, find_miss s.residency e away, eq_iff e f)),
          inl (refl, gone fine, others),
        )
        | inr (a, x, is, at, own) ↦ (
          drop s.residency a e,
          none,
          ground (arith, find_hit s.residency e is at),
          deleted-StoreOk fine (drop s.residency a e)
              (drop-ResidencyOk s.residency a e h.residency_ok is)
              (λ f. state_of-drop s.residency e f a),
          inl (refl, gone fine, others),
        )
      ]
    ]
