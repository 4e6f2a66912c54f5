-- ===== src/Base/Threads.antt =====
-- A list of goroutines in progress: one of them replaced or removed, and sums over all.
use Prim.Native.Nat.{ℕ, zero, suc, ◌+◌, ◌≤◌}
use mathlib.Core.Path.{◌≡◌, refl}
use mathlib.Core.Option.{Option, none, some}
use mathlib.Core.List.{List, [], ◌∷◌, ◌++◌}
use native.Mathlib.Omega.{arith}
use imps.Base.Tests.{eqb, if◌then◌else◌}
use imps.Base.Lists.{length, All}

module _ {A : Type 0} where
  unfoldable pub get_elem? : List A → ℕ → Option A
  get_elem? [] i = none
  get_elem? (x ∷ xs) zero = some x
  get_elem? (x ∷ xs) (suc i) = get_elem? xs i

  unfoldable pub set : List A → ℕ → A → List A
  set [] i v = []
  set (x ∷ xs) zero v = v ∷ xs
  set (x ∷ xs) (suc i) v = x ∷ set xs i v

  unfoldable pub remove : List A → ℕ → List A
  remove [] i = []
  remove (x ∷ xs) zero = xs
  remove (x ∷ xs) (suc i) = x ∷ remove xs i

  unfoldable pub total : (A → ℕ) → List A → ℕ
  total w [] = 0
  total w (x ∷ xs) = w x + total w xs

  pub get_elem?-set :
      (xs : List A) (i j : ℕ) {x : A} (v : A)
      → get_elem? xs i ≡ some x
      → get_elem? (set xs i v) j ≡ (if eqb i j then some v else get_elem? xs j)
  unfolding get_elem? set
  get_elem?-set [] i j v h = ground arith
  get_elem?-set (x ∷ xs) zero zero v h = refl
  get_elem?-set (x ∷ xs) zero (suc j) v h = ground arith
  get_elem?-set (x ∷ xs) (suc i) zero v h = ground arith
  get_elem?-set (x ∷ xs) (suc i) (suc j) v h = ground (arith, get_elem?-set xs i j v h)

  pub get_elem?-snoc :
      (xs : List A) (j : ℕ) (v : A)
      → get_elem? (xs ++ v ∷ []) j ≡ (if eqb j (length xs) then some v else get_elem? xs j)
  unfolding get_elem?
  get_elem?-snoc [] zero v = ground arith
  get_elem?-snoc [] (suc j) v = ground arith
  get_elem?-snoc (x ∷ xs) zero v = ground arith
  get_elem?-snoc (x ∷ xs) (suc j) v = ground (arith, get_elem?-snoc xs j v)

  pub total-set :
      (w : A → ℕ) (xs : List A) (i : ℕ) {x : A} (v : A)
      → get_elem? xs i ≡ some x
      → total w (set xs i v) + w x ≡ total w xs + w v
  unfolding get_elem? set total
  total-set w [] i v h = ground arith
  total-set w (x ∷ xs) zero v h = ground arith
  total-set w (x ∷ xs) (suc i) v h = ground (arith, total-set w xs i v h)

  pub total-snoc : (w : A → ℕ) (xs : List A) (v : A) → total w (xs ++ v ∷ []) ≡ total w xs + w v
  unfolding total
  total-snoc w [] v = ground arith
  total-snoc w (x ∷ xs) v = ground (arith, total-snoc w xs v)

  pub le-total :
      (w : A → ℕ) (xs : List A) (i : ℕ) {x : A} → get_elem? xs i ≡ some x → w x ≤ total w xs
  unfolding get_elem? total
  le-total w [] i h = ground arith
  le-total w (x ∷ xs) zero h = ground arith
  le-total w (x ∷ xs) (suc i) h = ground (arith, le-total w xs i h)

  pub total-remove :
      (w : A → ℕ) (xs : List A) (i : ℕ) {x : A}
      → get_elem? xs i ≡ some x
      → total w (remove xs i) + w x ≡ total w xs
  unfolding get_elem? remove total
  total-remove w [] i h = ground arith
  total-remove w (x ∷ xs) zero h = ground arith
  total-remove w (x ∷ xs) (suc i) h = ground (arith, total-remove w xs i h)

  pub length-set : (xs : List A) (i : ℕ) (v : A) → length (set xs i v) ≡ length xs
  unfolding set
  length-set [] i v = refl
  length-set (x ∷ xs) zero v = refl
  length-set (x ∷ xs) (suc i) v = ground (arith, length-set xs i v)

  pub length-remove :
      (xs : List A) (i : ℕ) {x : A} → get_elem? xs i ≡ some x → length (remove xs i) + 1 ≡ length xs
  unfolding get_elem? remove
  length-remove [] i h = ground arith
  length-remove (x ∷ xs) zero h = ground arith
  length-remove (x ∷ xs) (suc i) h = ground (arith, length-remove xs i h)

  pub total-append : (w : A → ℕ) (xs ys : List A) → total w (xs ++ ys) ≡ total w xs + total w ys
  unfolding total
  total-append w [] ys = ground arith
  total-append w (x ∷ xs) ys = ground (arith, total-append w xs ys)

-- Predicates of all that is in progress.
module _ {A : Type 0} (P : A → Type 0) where
  pub All-set : (xs : List A) (i : ℕ) {v : A} → All P xs → P v → All P (set xs i v)
  unfolding set
  All-set [] i h p = tt
  All-set (x ∷ xs) zero h p = (p, h.1)
  All-set (x ∷ xs) (suc i) h p = (h.0, All-set xs i h.1 p)

  pub All-snoc : (xs : List A) {v : A} → All P xs → P v → All P (xs ++ v ∷ [])
  All-snoc [] h p = (p, tt)
  All-snoc (x ∷ xs) h p = (h.0, All-snoc xs h.1 p)

  pub All-get_elem? : (xs : List A) (i : ℕ) {v : A} → All P xs → get_elem? xs i ≡ some v → P v
  unfolding get_elem?
  All-get_elem? [] i h q = ground arith
  All-get_elem? (x ∷ xs) zero {v} h q = let e : x ≡ v = cc in rw (← e) h.0
  All-get_elem? (x ∷ xs) (suc i) h q = All-get_elem? xs i h.1 q

pub All-weaken :
    {A : Type 0} (P Q : A → Type 0) → ((x : A) → P x → Q x) → (xs : List A) → All P xs → All Q xs
All-weaken P Q f [] h = tt
All-weaken P Q f (x ∷ xs) h = (f x h.0, All-weaken P Q f xs h.1)
