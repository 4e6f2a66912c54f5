-- ===== src/Persist/Store/History/Bound.antt =====
-- Runs of calls that report no error, and what they do not depend on.
use mathlib.Core.Path.{subst}
use imps.Base.{none, some, List, [], ◌∷◌, All, ◌≡◌, refl, sym, ap, ◌∙◌, arith}
use imps.Persist.Lru.{Residency}
use imps.Persist.Store.{World, Store}
use imps.Persist.Store.Writes.{Faithful, view}
use imps.Persist.Store.View.{StoreOk, with_residency}
use imps.Persist.Store.History.{
  Call, reads, updates, deletes, Answer, serve_all, Book, put_in, Follows, done, read, stored,
  refused, reset, kept,
}
use imps.Persist.Store.History.Maps.{history_lem, view-residency}

-- No call reported an error.
abbrev pub Fine : {T E : Type 0} → List (Answer T E) → Type 0
Fine got = All (λ a. a.1 ≡ none) got

module _ {T E : Type 0} (zero : T) where
  -- What calls return on the map alone.
  unfoldable pub plain : Book T E → List (Call T) → List (Answer T E)
  plain m [] = []
  plain m (reads now e ∷ cs) = m e ∷ plain m cs
  plain m (updates now now' e fn ∷ cs) = (fn (m e).0, none) ∷ plain (put_in m e (fn (m e).0)) cs
  plain m (deletes e ∷ cs) = (zero, none) ∷ plain (put_in m e zero) cs

  Follows-plain :
      {m m' : Book T E} {cs : List (Call T)} {got : List (Answer T E)}
      → Follows zero m cs got m'
      → Fine got
      → got ≡ plain m cs
  unfolding plain
  Follows-plain done fine = refl
  Follows-plain (read now e run) fine = cc (Follows-plain run fine.1)
  Follows-plain (stored now now' e fn there run) fine = cc (Follows-plain run fine.1)
  Follows-plain (refused now now' e fn v err run) fine = absurd (ground (arith, fine.0))
  Follows-plain (reset e run) fine = cc (Follows-plain run fine.1)
  Follows-plain (kept e err run) fine = absurd (ground (arith, fine.0))

module _ {T B E : Type 0} (w : World T B E) (law : Faithful w) where
  answers-plain :
      (s : Store T) (b : B) (cs : List (Call T)) (end : Store T × B) (got : List (Answer T E))
      → StoreOk w s b
      → serve_all w s b cs ≡ some (end, got)
      → Fine got
      → got ≡ plain w.zero (view w s b) cs
  answers-plain s b cs end got h is fine =
      let (r, b', got', end', ok, run) = history_lem w law s b cs h in
      let same : got' ≡ got = cc in
      Follows-plain w.zero (subst (λ l. Follows w.zero (view w s b) cs l (view w s b')) same run)
        fine

  -- On a faithful codec and backend, a store without a wake hook in two residencies that both agree
  -- with the backend, whatever their bounds and whoever is resident: the same calls return the same
  -- states, if none of them reports an error.
  pub serve_all-bound :
      (s : Store T) (q : Residency T) (b : B) (cs : List (Call T)) (end end' : Store T × B)
      (got got' : List (Answer T E))
      → StoreOk w s b
      → StoreOk w (with_residency s q) b
      → serve_all w s b cs ≡ some (end, got)
      → serve_all w (with_residency s q) b cs ≡ some (end', got')
      → Fine got
      → Fine got'
      → got ≡ got'
  serve_all-bound s q b cs end end' got got' h h' is is' fine fine' =
      answers-plain s b cs end got h is fine
      ∙ ap (λ m. plain w.zero m cs) (sym (view-residency w s q b))
      ∙ sym (answers-plain (with_residency s q) b cs end' got' h' is' fine')
