-- ===== src/Persist/Lru/Addresses.antt =====
-- Lists of element addresses, in which no address stands twice.
use imps.Base.{
  ℕ, suc, ◌<◌, true, false, some, List, [], ◌∷◌, eqb, length, if◌then◌else◌, ◌≡◌, refl, arith, ◌++◌,
  ap, Bool-cases, inl, inr,
}
use imps.Persist.Lru.{remove, member, move_to_front, back}

abbrev pub Once : List ℕ → Type 0
Once [] = Unit
Once (a ∷ l) = (member a l ≡ false) × Once l

pub member-remove :
    (a b : ℕ) (l : List ℕ) → member a (remove b l) ≡ (if eqb b a then false else member a l)
unfolding member remove
member-remove a b [] = ground arith
member-remove a b (c ∷ l) = ground (arith, member-remove a b l)

pub member-move : (a b : ℕ) (l : List ℕ) → member a (move_to_front b l) ≡ member a l
unfolding member move_to_front
member-move a b l = ground (arith, member-remove a b l)

pub Once-remove : (b : ℕ) (l : List ℕ) → Once l → Once (remove b l)
unfolding remove
Once-remove b [] h = tt
Once-remove b (a ∷ l) h = ground (arith, Once-remove b l h.1, member-remove a b l)

pub Once-move : (b : ℕ) (l : List ℕ) → Once l → Once (move_to_front b l)
unfolding move_to_front
Once-move b l h = elim (Bool-cases (member b l)) [
  | inl here ↦ ground (arith, Once-remove b l h, member-remove b b l)
  | inr away ↦ rw (away, move_to_front) h
]

pub remove_absent : (b : ℕ) (l : List ℕ) → member b l ≡ false → remove b l ≡ l
unfolding remove member
remove_absent b [] h = refl
remove_absent b (a ∷ l) h = ground (arith, remove_absent b l)

pub length-remove :
    (b : ℕ) (l : List ℕ) → Once l → member b l ≡ true → suc (length (remove b l)) ≡ length l
unfolding remove member
length-remove b [] h m = cc
length-remove b (a ∷ l) h m = ground (arith, length-remove b l h.1, remove_absent b l)

pub length-move : (b : ℕ) (l : List ℕ) → Once l → length (move_to_front b l) ≡ length l
unfolding move_to_front
length-move b l h = ground (arith, length-remove b l h)

member-back : (l : List ℕ) {a : ℕ} → back l ≡ some a → member a l ≡ true
unfolding back member
member-back [] h = cc
member-back (b ∷ []) h = ground arith
member-back (b ∷ c ∷ l) h = ground (arith, member-back (c ∷ l) h)

-- A list that is not empty has a last element, which is in it.
pub back_nonempty : (l : List ℕ) → 0 < length l → (a : ℕ) × (back l ≡ some a) × (member a l ≡ true)
unfolding back member
back_nonempty [] h = absurd (omega arith)
back_nonempty (a ∷ []) h = (a, refl, ground arith)
back_nonempty (a ∷ b ∷ l) h =
    let (c, is, here) = back_nonempty (b ∷ l) (omega arith) in (c, is, ground (arith, here))

-- Removing the last element leaves the ones before it.
pub remove-back : (l : List ℕ) {a : ℕ} → Once l → back l ≡ some a → l ≡ remove a l ++ a ∷ []
unfolding back remove member
remove-back [] h is = cc
remove-back (b ∷ []) h is = ground arith
remove-back (b ∷ c ∷ l) {a} h is = elim (Bool-cases (eqb a b)) [
  | inl same ↦ absurd (ground (arith, h.0, member-back (c ∷ l) is))
  | inr other ↦ rw (other, if◌then◌else◌) (ap (◌∷◌ b) (remove-back (c ∷ l) h.1 is))
]
