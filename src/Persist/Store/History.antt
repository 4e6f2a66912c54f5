-- ===== src/Persist/Store/History.antt =====
-- Any calls on a store, one after the other, and a map from entities to states that they can be held
-- against.
pub mod Maps
pub mod Bound
pub mod Resident
pub mod Elsewhere
pub mod Beside
use mathlib.Core.Path.{subst}
use imps.Base.{
  String, ◌==◌, eq_iff, ℤ, pos, Option, none, some, List, [], ◌∷◌, if◌then◌else◌, ◌≡◌, refl, sym,
  ap, ◌∙◌, ◌≢◌, arith, ◌⊎◌, inl, inr, Bool-cases, Option-cases, true, false,
}
use imps.Errors.{ImpError}
use imps.Persist.Lru.{Residency}
use imps.Persist.Store.{World, Store, get, update, delete}
use imps.Persist.Store.Writes.{Faithful, view}
use imps.Persist.Store.View.{StoreOk, with_residency, rehydrate_residency, get_lem}
use imps.Persist.Store.Refine.{update_lem, Updated, committed, aborted}
use imps.Persist.Store.Delete.{delete_lem}

-- The calls on a store, with what the clock reads in them.
pub data Call (T : Type 0) : Type 0 where
  reads : ℤ → String → Call T
  updates : ℤ → ℤ → String → (T → T) → Call T
  deletes : String → Call T

-- What a call returns: a state and an error, `Delete` with the zero value for a state.
abbrev pub Answer : Type 0 → Type 0 → Type 0
Answer T E = T × Option (ImpError E)

module _ {T B E : Type 0} (w : World T B E) where
  -- One call, and calls one after the other; `none` is a panic.
  unfoldable pub serve : Store T → B → Call T → Option ((Store T × B) × Answer T E)
  serve s b (reads now e) = elim (get w now s b e) [
    | none ↦ none
    | some (s', v, err) ↦ some ((s', b), (v, err))
  ]
  serve s b (updates now now' e fn) = elim (update w now now' s b e fn) [
    | none ↦ none
    | some (next, v, err) ↦ some (next, (v, err))
  ]
  serve s b (deletes e) = let (next, err) = delete w s b e in some (next, (w.zero, err))

  unfoldable pub serve_all :
      Store T → B → List (Call T) → Option ((Store T × B) × List (Answer T E))
  serve_all s b [] = some ((s, b), [])
  serve_all s b (c ∷ cs) = elim (serve s b c) [
    | none ↦ none
    | some ((s', b'), a) ↦ elim (serve_all s' b' cs) [
      | none ↦ none
      | some (end, rest) ↦ some (end, a ∷ rest)
    ]
  ]

-- The map: what a read of each entity gives.
abbrev pub Book : Type 0 → Type 0 → Type 0
Book T E = String → Answer T E

module _ {T E : Type 0} where
  unfoldable pub put_in : Book T E → String → T → Book T E
  put_in m e v f = if e == f then (v, none) else m f

  -- Calls that answer as the map does, from one map to another: a read answers what the map has; an
  -- update of an entity that can be read stores the function of its state; a deletion stores the
  -- zero value; and a call that reports an error changes nothing.
  pub data Follows (zero : T)
      : Book T E → List (Call T) → List (Answer T E) → Book T E → Type 0 where
    done : {m : Book T E} → Follows zero m [] [] m
    read :
        {m m' : Book T E} {cs : List (Call T)} {got : List (Answer T E)} (now : ℤ) (e : String)
        → Follows zero m cs got m'
        → Follows zero m (reads now e ∷ cs) (m e ∷ got) m'
    stored :
        {m m' : Book T E} {cs : List (Call T)} {got : List (Answer T E)} (now now' : ℤ) (e : String)
        (fn : T → T)
        → (m e).1 ≡ none
        → Follows zero (put_in m e (fn (m e).0)) cs got m'
        → Follows zero m (updates now now' e fn ∷ cs) ((fn (m e).0, none) ∷ got) m'
    refused :
        {m m' : Book T E} {cs : List (Call T)} {got : List (Answer T E)} (now now' : ℤ) (e : String)
        (fn : T → T) (v : T) (err : ImpError E)
        → Follows zero m cs got m'
        → Follows zero m (updates now now' e fn ∷ cs) ((v, some err) ∷ got) m'
    reset :
        {m m' : Book T E} {cs : List (Call T)} {got : List (Answer T E)} (e : String)
        → Follows zero (put_in m e zero) cs got m'
        → Follows zero m (deletes e ∷ cs) ((zero, none) ∷ got) m'
    kept :
        {m m' : Book T E} {cs : List (Call T)} {got : List (Answer T E)} (e : String)
        (err : ImpError E)
        → Follows zero m cs got m'
        → Follows zero m (deletes e ∷ cs) ((zero, some err) ∷ got) m'

  pub put_in-path :
      (m m' : Book T E) (e : String) (v : T)
      → m' e ≡ (v, none)
      → ((f : String) → e ≢ f → m' f ≡ m f)
      → put_in m e v ≡ m'
  unfolding put_in
  put_in-path m m' e v here there = λ i f. at f i
    where
      at : (f : String) → put_in m e v f ≡ m' f
      at f = elim (Bool-cases (e == f)) [
        | inl q ↦ ground (arith, ap m' ((eq_iff e f).0 q), here)
        | inr q ↦ ground (arith, there f, eq_iff e f)
      ]
