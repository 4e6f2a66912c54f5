-- ===== src/Persist/Store/History/Maps.antt =====
-- Every run of calls on a store answers as the map does that the backend holds.
use mathlib.Core.Path.{subst}
use imps.Base.{
  String, ℤ, pos, Option, none, some, List, [], ◌∷◌, ◌≡◌, refl, sym, ap, ◌∙◌, ◌≢◌, arith, ◌⊎◌, inl,
  inr, Option-cases,
}
use imps.Errors.{ImpError}
use imps.Persist.Lru.{Residency}
use imps.Persist.Store.{World, Store, key, update, delete}
use imps.Persist.Store.Writes.{Faithful, view}
use imps.Persist.Store.View.{StoreOk, with_residency, rehydrate_residency, get_lem}
use imps.Persist.Store.Refine.{update_lem, Updated, committed, aborted}
use imps.Persist.Store.Delete.{delete_lem}
use imps.Persist.Store.History.{
  Call, reads, updates, deletes, Answer, serve, serve_all, Book, put_in-path, Follows, done, read,
  stored, refused, reset, kept,
}

module _ {T B E : Type 0} (w : World T B E) where
  pub serve_all-cons :
      (s s1 : Store T) (b b1 : B) (c : Call T) (cs : List (Call T)) (a : Answer T E)
      (end : Store T × B) (rest : List (Answer T E))
      → serve w s b c ≡ some ((s1, b1), a)
      → serve_all w s1 b1 cs ≡ some (end, rest)
      → serve_all w s b (c ∷ cs) ≡ some (end, a ∷ rest)
  unfolding serve_all
  serve_all-cons s s1 b b1 c cs a end rest now later = ground (arith, now, later)

  -- The view does not depend on the residency.
  pub view-residency :
      (s : Store T) (r : Residency T) (b : B) → view w (with_residency s r) b ≡ view w s b
  view-residency s r b = λ i e. rehydrate_residency w (pos 0) s r b e i

  -- Calls on the store, without a panic, that answer as the map does that the backend holds.
  abbrev pub Run : Store T → B → List (Call T) → Type 0
  Run s b cs =
      (r : Residency T) × (b' : B) × (got : List (Answer T E)) × (serve_all w s b cs
        ≡ some ((with_residency s r, b'), got))
      × StoreOk w (with_residency s r) b'
      × Follows w.zero (view w s b) cs got (view w s b')

  Run-cons :
      (s : Store T) (r : Residency T) (b b1 : B) (c : Call T) (cs : List (Call T)) (a : Answer T E)
      → serve w s b c ≡ some ((with_residency s r, b1), a)
      → ((got : List (Answer T E)) (m : Book T E)
          → Follows w.zero (view w s b1) cs got m
          → Follows w.zero (view w s b) (c ∷ cs) (a ∷ got) m)
      → Run (with_residency s r) b1 cs
      → Run s b (c ∷ cs)
  Run-cons s r b b1 c cs a now rule (r2, b2, got, later, ok, run) = (
    r2,
    b2,
    a ∷ got,
    serve_all-cons s (with_residency s r) b b1 c cs a (with_residency s r2, b2) got now later,
    ok,
    rule got (view w s b2) (
        subst (λ m. Follows w.zero m cs got (view w s b2)) (view-residency s r b1)
          (subst (λ m. Follows w.zero (view w (with_residency s r) b1) cs got m)
            (view-residency s r b2) run)),
  )

module _ {T B E : Type 0} (w : World T B E) (law : Faithful w) where
  module _ (s : Store T) (r : Residency T) (b b1 : B) (cs : List (Call T)) where
    Run-updates :
        (now now' : ℤ) (e : String) (fn : T → T) (v : T) (err : Option (ImpError E))
        → update w now now' s b e fn ≡ some ((with_residency s r, b1), v, err)
        → Updated w law s b b1 e fn v err
        → Run w (with_residency s r) b1 cs
        → Run w s b (updates now now' e fn ∷ cs)
    unfolding serve
    Run-updates now now' e fn v err is (committed fine there same here others) run =
        let next = fn (view w s b e).0 in
        Run-cons w s r b b1 (updates now now' e fn) cs (next, none) (ground (arith, is))
          (λ got m f. stored now now' e fn there (
            subst (λ x. Follows w.zero x cs got m)
              (sym (put_in-path (view w s b) (view w s b1) e next (ground (arith, here)) others))
              f))
          run
    Run-updates now now' e fn v err is (aborted bad same) run = elim (Option-cases err) [
      | inl fine ↦ absurd (bad fine)
      | inr (x, q) ↦
          Run-cons w s r b b1 (updates now now' e fn) cs (v, some x) (ground (arith, is))
            (λ got m f.
              refused now now' e fn v x
                (subst (λ y. Follows w.zero y cs got m) (λ i g. same g i) f))
            run
    ]

    Run-deletes :
        (e : String) (err : Option (ImpError E))
        → delete w s b e ≡ ((with_residency s r, b1), err)
        → ((err ≡ none)
            × (view w s b1 e ≡ (w.zero, none))
            × ((f : String) → e ≢ f → view w s b1 f ≡ view w s b f))
          ⊎ ((err ≢ none) × ((f : String) → view w s b1 f ≡ view w s b f))
        → Run w (with_residency s r) b1 cs
        → Run w s b (deletes e ∷ cs)
    unfolding serve
    Run-deletes e err is (inl (fine, here, others)) run =
        Run-cons w s r b b1 (deletes e) cs (w.zero, none)
          (ap (λ d. some (d.0, (w.zero, d.1))) (is ∙ ap (λ x. ((with_residency s r, b1), x)) fine))
          (λ got m f. reset e (
            subst (λ x. Follows w.zero x cs got m)
              (sym (put_in-path (view w s b) (view w s b1) e w.zero here others)) f))
          run
    Run-deletes e err is (inr (bad, same)) run = elim (Option-cases err) [
      | inl fine ↦ absurd (bad fine)
      | inr (x, q) ↦
          Run-cons w s r b b1 (deletes e) cs (w.zero, some x)
            (ap (λ d. some (d.0, (w.zero, d.1))) (is ∙ ap (λ y. ((with_residency s r, b1), y)) q))
            (λ got m f. kept e x (subst (λ y. Follows w.zero y cs got m) (λ i g. same g i) f)) run
    ]

  -- On a faithful codec and backend, for a store without a wake hook whose residency agrees with the
  -- backend: any calls of Get, Update and Delete, one after the other, run without a panic and keep
  -- the agreement, and what they return is what a map from entities to states would: a read returns
  -- the state that the map has, an update that reports no error stores the function of the old
  -- state, a deletion that reports none stores the zero value, and an update or deletion that
  -- reports an error leaves the map as it was.
  pub history_lem : (s : Store T) (b : B) (cs : List (Call T)) → StoreOk w s b → Run w s b cs
  unfolding serve_all serve
  history_lem s b [] h = (s.residency, b, [], refl, h, done)
  history_lem s b (reads now e ∷ cs) h =
      let (r, is, h') = get_lem w now s b e h in
      Run-cons w s r b b (reads now e) cs (view w s b e) (ground (arith, is))
        (λ got m f. read now e f) (history_lem (with_residency s r) b cs h')
  history_lem s b (updates now now' e fn ∷ cs) h =
      let (r, b1, v, err, is, h', u) = update_lem w law now now' s b e fn h in
      Run-updates s r b b1 cs now now' e fn v err is u (history_lem (with_residency s r) b1 cs h')
  history_lem s b (deletes e ∷ cs) h =
      let (r, err, is, h', ends) = delete_lem w law s b e h in
      let b1 = (w.backend.delete b (key s e)).0 in
      Run-deletes s r b b1 cs e err is ends (history_lem (with_residency s r) b1 cs h')
