-- ===== src/Persist/Store/Refine.antt =====
-- The store as a plain map from entities to states, kept by the backend: with no wake hook, what
-- callers see does not depend on the bound, on evictions or on who is resident.
use imps.Base.{
  pos, ℤ, String, ◌==◌, eq_iff, Option, none, some, ◌≡◌, refl, sym, ◌∙◌, arith, ◌≢◌, ◌⊎◌, inl, inr,
  Option-cases, Bool-cases,
}
use imps.Errors.{ImpError}
use imps.Persist.Lru.{Residency, touch, write}
use imps.Persist.Lru.Coherence.{state_of, state_of-touch, state_of-write, find-linked}
use imps.Persist.Lru.Insert.{
  ResidencyOk, touch-ResidencyOk, write-ResidencyOk, write-bound, insert_lem,
}
use imps.Persist.Store.{World, Store, update, write_through, reflect}
use imps.Persist.Store.Writes.{Faithful, view, written, written_ne, not_written}
use imps.Persist.Store.View.{
  StoreOk, with_residency, rehydrate_residency, get_lem, find_hit, find_miss,
}

-- After `Update`'s write to the residency the entity has the new state, and others keep theirs or
-- are evicted.
pub record Reflected {T : Type 0} (r r' : Residency T) (e : String) (v : T) : Type 0 where
  pub ok : ResidencyOk r'
  pub same_bound : r'.bound ≡ r.bound
  pub stored : state_of r' e ≡ some v
  pub others : (f : String) → e ≢ f → (state_of r' f ≡ state_of r f) ⊎ (state_of r' f ≡ none)

module _ {T B E : Type 0} (w : World T B E) where
  pub reflect_lem :
      (r : Residency T) (e : String) (v : T)
      → ResidencyOk r
      → (r' : Residency T) × (reflect w r e v ≡ some r') × Reflected r r' e v
  unfolding reflect
  reflect_lem r e v h = elim (find-linked r e h.coherent) [
    | inl away ↦
        let (r', kept, i) = insert_lem r e v h away in
        (
          r',
          ground (arith, find_miss r e away),
          record { ok = i.ok; same_bound = i.same_bound; stored = i.stored; others = i.others },
        )
    | inr (a, x, is, at, own) ↦
        let q = write r a v in
        (
          touch q a,
          ground (arith, find_hit r e is at),
          record {
            ok = touch-ResidencyOk q a (write-ResidencyOk r a v h);
            same_bound = unfold touch in write-bound r a v;
            stored =
                state_of-touch q a e
                ∙ ground (arith, state_of-write r h.coherent e e a v is, eq_iff e e);
            others = λ f n. inl (
                state_of-touch q a f
                ∙ ground (arith, state_of-write r h.coherent e f a v is, eq_iff e f));
          },
        )
  ]

module _ {T B E : Type 0} (w : World T B E) (law : Faithful w) where
  -- How the map changes with a call of `Update` that returns `value` and `err`.
  pub data Updated (s : Store T) (b b' : B) (e : String) (fn : T → T) (value : T)
      (err : Option (ImpError E)) : Type 0 where
    committed :
        err ≡ none
        → (view w s b e).1 ≡ none
        → value ≡ fn (view w s b e).0
        → view w s b' e ≡ (value, none)
        → ((f : String) → e ≢ f → view w s b' f ≡ view w s b f)
        → Updated s b b' e fn value err
    aborted :
        err ≢ none → ((f : String) → view w s b' f ≡ view w s b f) → Updated s b b' e fn value err

  pub durable_after :
      (s : Store T) (b b' : B) (r r' : Residency T) (e : String) (v : T)
      → StoreOk w (with_residency s r) b
      → Reflected r r' e v
      → view w s b' e ≡ (v, none)
      → ((f : String) → e ≢ f → view w s b' f ≡ view w s b f)
      → StoreOk w (with_residency s r') b'
  durable_after s b b' r r' e v h i now others = record {
    residency_ok = i.ok;
    no_wake = h.no_wake;
    durable = λ f u q. elim (Bool-cases (e == f)) [
      | inl same ↦
          ground (arith, rehydrate_residency w (pos 0) s r' b' f, i.stored, (eq_iff e f).0 same)
      | inr other ↦ ground (
        arith,
        rehydrate_residency w (pos 0) s r' b' f,
        rehydrate_residency w (pos 0) s r b f,
        i.others f,
        eq_iff e f,
        others f,
        h.durable f u,
      )
    ];
  }

  pub unchanged_StoreOk :
      (s : Store T) (b b' : B)
      → StoreOk w s b
      → ((f : String) → view w s b' f ≡ view w s b f)
      → StoreOk w s b'
  unchanged_StoreOk s b b' h same = record {
    residency_ok = h.residency_ok;
    no_wake = h.no_wake;
    durable = λ f v q. same f ∙ h.durable f v q;
  }

  -- The two ways in which `Update` goes on after a read that found the state `v`.
  module _ (now' : ℤ) (s : Store T) (r : Residency T) (b : B) (e : String) (v : T) where
    abbrev reread : Store T
    reread = with_residency s r

    abbrev b' : B
    b' = (write_through w now' reread b e v).0

    view-reread : (c : B) (f : String) → view w reread c f ≡ view w s c f
    view-reread c f = rehydrate_residency w (pos 0) s r c f

    refused_same :
        {bad : ImpError E}
        → (write_through w now' reread b e v).1 ≡ some bad
        → (f : String) → view w s b' f ≡ view w s b f
    refused_same is f =
        sym (view-reread b' f) ∙ not_written w law now' reread b e v f is ∙ view-reread b f

    accepted_here :
        s.wake ≡ none → (write_through w now' reread b e v).1 ≡ none → view w s b' e ≡ (v, none)
    accepted_here plain is = sym (view-reread b' e) ∙ written w law now' reread b e v plain is

    accepted_same : (f : String) → e ≢ f → view w s b' f ≡ view w s b f
    accepted_same f n =
        sym (view-reread b' f) ∙ written_ne w law now' reread b e v f n ∙ view-reread b f

  -- On a faithful codec and backend, for a store without a wake hook whose residency agrees with
  -- the backend: `Update` never panics; it either commits the function of the old state to the map
  -- that the backend holds, and to no other entity, or reports an error and leaves that map as it
  -- was. The agreement is kept in both cases.
  pub update_lem :
      (now now' : ℤ) (s : Store T) (b : B) (e : String) (fn : T → T)
      → StoreOk w s b
      → (r : Residency T) × (b' : B) × (value : T) × (err : Option (ImpError E)) × (update w now
            now' s b e fn
          ≡ some ((with_residency s r, b'), value, err))
        × StoreOk w (with_residency s r) b'
        × Updated s b b' e fn value err
  unfolding update
  update_lem now now' s b e fn h =
      let (r, got, h') = get_lem w now s b e h in
      let v = (view w s b e).0 in
      elim (Option-cases (view w s b e).1) [
        | inr (bad, is) ↦
            (r, b, v, some bad, ground (arith, got), h', aborted (ground arith) (λ f. refl))
        | inl fine ↦
            let s' = with_residency s r in
            let c = (write_through w now' s' b e (fn v)).0 in
            elim (Option-cases (write_through w now' s' b e (fn v)).1) [
              | inr (bad, is) ↦
                  let same = refused_same now' s r b e (fn v) is in
                  (
                    r,
                    c,
                    fn v,
                    some bad,
                    ground (arith, got),
                    unchanged_StoreOk s' b c h' (λ f. not_written w law now' s' b e (fn v) f is),
                    aborted (ground arith) same,
                  )
              | inl written' ↦
                  let here = accepted_here now' s r b e (fn v) h.no_wake written' in
                  let others = accepted_same now' s r b e (fn v) in
                  let (r', kept, i) = reflect_lem w r e (fn v) h'.residency_ok in
                  (
                    r',
                    c,
                    fn v,
                    none,
                    ground (arith, got),
                    durable_after s b c r r' e (fn v) h' i here others,
                    committed refl fine refl here others,
                  )
            ]
      ]
