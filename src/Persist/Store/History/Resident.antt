-- ===== src/Persist/Store/History/Resident.antt =====
-- What calls on a store leave in memory, with any codec, backend and wake hook.
use imps.Base.{
  ℤ, String, pos, ◌≤ℤ◌, Option, none, some, List, [], ◌∷◌, ◌≡◌, refl, ◌∙◌, arith, inl, inr,
  Option-cases,
}
use imps.Errors.{ImpError, passed}
use imps.Persist.Lru.{Residency, touch, drop}
use imps.Persist.Lru.Coherence.{find-linked}
use imps.Persist.Lru.Insert.{ResidencyOk, touch-ResidencyOk, drop-ResidencyOk, insert_lem}
use imps.Persist.Store.{
  World, Store, key, rehydrate, get, write_through, update, delete, resident_count,
}
use imps.Persist.Store.View.{with_residency, find_hit, find_miss}
use imps.Persist.Store.Refine.{reflect_lem}
use imps.Persist.Store.History.{Call, reads, updates, deletes, Answer, serve, serve_all}

module _ {T : Type 0} where
  -- A well-formed residency with the bound of another.
  record Kept (r r' : Residency T) : Type 0 where
    ok : ResidencyOk r'
    same : r'.bound ≡ r.bound

  Kept-refl : (r : Residency T) → ResidencyOk r → Kept r r
  Kept-refl r h = record { ok = h; same = refl }

  Kept-trans : {r r' r'' : Residency T} → Kept r r' → Kept r' r'' → Kept r r''
  Kept-trans h k = record { ok = k.ok; same = k.same ∙ h.same }

module _ {T B E : Type 0} (w : World T B E) where
  get-Kept :
      (now : ℤ) (s : Store T) (b : B) (e : String)
      → ResidencyOk s.residency
      → (r : Residency T) × (v : T) × (err : Option (ImpError E)) × (get w now s b e
          ≡ some (with_residency s r, v, err))
        × Kept s.residency r
  unfolding get touch
  get-Kept now s b e h = elim (find-linked s.residency e h.coherent) [
    | inr (a, x, is, at, own) ↦ (
      touch s.residency a,
      x.state,
      none,
      ground (arith, find_hit s.residency e is at),
      record { ok = touch-ResidencyOk s.residency a h; same = refl },
    )
    | inl away ↦ elim (Option-cases (rehydrate w now s b e).1) [
      | inr (err, bad) ↦ (
        s.residency,
        (rehydrate w now s b e).0,
        some err,
        ground (arith, find_miss s.residency e away),
        Kept-refl s.residency h,
      )
      | inl fine ↦
          let (r, kept, i) = insert_lem s.residency e (rehydrate w now s b e).0 h away in
          (
            r,
            (rehydrate w now s b e).0,
            none,
            ground (arith, find_miss s.residency e away),
            record { ok = i.ok; same = i.same_bound },
          )
    ]
  ]

  update-Kept :
      (now now' : ℤ) (s : Store T) (b : B) (e : String) (fn : T → T)
      → ResidencyOk s.residency
      → (r : Residency T) × (b' : B) × (v : T) × (err : Option (ImpError E)) × (update w now now' s
            b e fn
          ≡ some ((with_residency s r, b'), v, err))
        × Kept s.residency r
  unfolding update
  update-Kept now now' s b e fn h =
      let (r, v, err, is, k) = get-Kept now s b e h in
      let wt = write_through w now' (with_residency s r) b e (fn v) in
      elim (Option-cases err) [
        | inr (x, q) ↦ (r, b, v, some x, ground (arith, is, q), k)
        | inl q ↦ elim (Option-cases wt.1) [
          | inr (x, p) ↦ (r, wt.0, fn v, some x, ground (arith, is, q, p), k)
          | inl p ↦
              let (r', kept, f) = reflect_lem w r e (fn v) k.ok in
              (
                r',
                wt.0,
                fn v,
                none,
                ground (arith, is, q, p, kept),
                Kept-trans k (record { ok = f.ok; same = f.same_bound }),
              )
        ]
      ]

  delete-Kept :
      (s : Store T) (b : B) (e : String)
      → ResidencyOk s.residency
      → (r : Residency T) × (b' : B) × (err : Option (ImpError E)) × (delete w s b e
          ≡ ((with_residency s r, b'), err))
        × Kept s.residency r
  unfolding delete drop
  delete-Kept s b e h =
      let b' = (w.backend.delete b (key s e)).0 in
      elim (Option-cases (w.backend.delete b (key s e)).1) [
        | inr (x, q) ↦ (s.residency, b', some (passed x), ground arith, Kept-refl s.residency h)
        | inl q ↦ elim (find-linked s.residency e h.coherent) [
          | inl away ↦ (
            s.residency,
            b',
            none,
            ground (arith, find_miss s.residency e away),
            Kept-refl s.residency h,
          )
          | inr (a, x, is, at, own) ↦ (
            drop s.residency a e,
            b',
            none,
            ground (arith, find_hit s.residency e is at),
            record { ok = drop-ResidencyOk s.residency a e h is; same = refl },
          )
        ]
      ]

  serve_all-Kept :
      (s : Store T) (b : B) (cs : List (Call T))
      → ResidencyOk s.residency
      → (r : Residency T) × (b' : B) × (got : List (Answer T E)) × (serve_all w s b cs
          ≡ some ((with_residency s r, b'), got))
        × Kept s.residency r
  unfolding serve_all serve
  serve_all-Kept s b [] h = (s.residency, b, [], refl, Kept-refl s.residency h)
  serve_all-Kept s b (reads now e ∷ cs) h =
      let (r, v, err, is, k) = get-Kept now s b e h in
      let (r', b', got, ends, k') = serve_all-Kept (with_residency s r) b cs k.ok in
      (r', b', (v, err) ∷ got, ground (arith, is, ends), Kept-trans k k')
  serve_all-Kept s b (updates now now' e fn ∷ cs) h =
      let (r, b1, v, err, is, k) = update-Kept now now' s b e fn h in
      let (r', b', got, ends, k') = serve_all-Kept (with_residency s r) b1 cs k.ok in
      (r', b', (v, err) ∷ got, ground (arith, is, ends), Kept-trans k k')
  serve_all-Kept s b (deletes e ∷ cs) h =
      let (r, b1, err, is, k) = delete-Kept s b e h in
      let (r', b', got, ends, k') = serve_all-Kept (with_residency s r) b1 cs k.ok in
      (r', b', (w.zero, err) ∷ got, ground (arith, is, ends), Kept-trans k k')

  -- On a well-formed residency, with any codec, backend and wake hook, whether they fail or not: any
  -- calls of Get, Update and Delete, one after the other, run without a panic, and leave a
  -- well-formed residency with at most as many entities as the bound that the store had at the start.
  pub serve_all-resident :
      (s : Store T) (b : B) (cs : List (Call T))
      → ResidencyOk s.residency
      → (s' : Store T) × (b' : B) × (got : List (Answer T E)) × (serve_all w s b cs
          ≡ some ((s', b'), got))
        × ResidencyOk s'.residency
        × (pos (resident_count s') ≤ℤ s.residency.bound)
  unfolding resident_count
  serve_all-resident s b cs h =
      let (r, b', got, ends, k) = serve_all-Kept s b cs h in
      (with_residency s r, b', got, ends, k.ok, ground (arith, k.ok.bounded, k.same))
