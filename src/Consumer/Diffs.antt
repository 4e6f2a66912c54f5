-- ===== src/Consumer/Diffs.antt =====
-- stream.go: the list of differences that `compatDiff` collects, and their join.
use Prim.Native.String.{count}
use mathlib.Core.Path.{subst}
use text.Mathlib.TextLemmas.{length-append}
use imps.Base.{
  ◌≤◌, String, ◌<>◌, ◌==◌, eq_iff, eq_refl, Bool, true, false, List, [], ◌∷◌, All, All-snoc, ◌≡◌,
  refl, ap, ◌∙◌, ◌⊎◌, ◌↔◌, inl, inr, arith, Bool-cases,
}
use imps.Consumer.{join, add_diff, format_diff, format_diff_int}

-- No diff is empty, so the joined diffs are empty only if there is none.
abbrev pub NonEmpty : String → Type 0
NonEmpty s = 1 ≤ count s

filled-append : (s t : String) → NonEmpty s → NonEmpty (s <> t)
filled-append s t h = ground (arith, length-append s t)

pub filled_diff :
    (field existing declared : String)
    → NonEmpty field
    → NonEmpty (format_diff field existing declared)
filled_diff field existing declared h =
    filled-append (field <> ": existing=\"") _ (filled-append field _ h)

pub filled_diff_int :
    (field existing declared : String)
    → NonEmpty field
    → NonEmpty (format_diff_int field existing declared)
filled_diff_int field existing declared h =
    filled-append (field <> ": existing=") _ (filled-append field _ h)

add_diff-NonEmpty :
    (b : Bool) (d : String) (l : List String)
    → NonEmpty d
    → All NonEmpty l
    → All NonEmpty (add_diff b d l)
add_diff-NonEmpty true d l f h = All-snoc NonEmpty l h f
add_diff-NonEmpty false d l f h = h

add_diff-nil :
    (b : Bool) (d : String) (l : List String) → (add_diff b d l ≡ []) ↔ ((b ≡ false) × (l ≡ []))
add_diff-nil true d [] = (λ q. cc, λ q. cc)
add_diff-nil true d (x ∷ l) = (λ q. cc, λ q. cc)
add_diff-nil false d l = (λ q. (refl, q), λ q. q.1)

filled_not_empty : (s : String) → NonEmpty s → (s == "") ≡ false
filled_not_empty s f = elim (Bool-cases (s == "")) [
  | inr q ↦ q
  | inl q ↦ let e : count s ≡ 0 = ap count ((eq_iff s "").0 q) in ground (arith, e)
]

filled-join : (l : List String) → All NonEmpty l → (l ≡ []) ⊎ NonEmpty (join "; " l)
unfolding join
filled-join [] h = inl refl
filled-join (x ∷ []) h = inr h.0
filled-join (x ∷ y ∷ l) h = inr (filled-append x _ h.0)

pub join-nil : (l : List String) → All NonEmpty l → ((join "; " l == "") ≡ true) ↔ (l ≡ [])
unfolding join
join-nil l h = (
  (λ q. elim (filled-join l h) [
    | inl e ↦ e
    | inr f ↦ let n = filled_not_empty (join "; " l) f in cc
  ]),
  (λ e. ap (λ l. join "; " l == "") e ∙ eq_refl ""),
)

-- The six tests of `compatDiff`.
module _ (b1 b2 b3 b4 b5 b6 : Bool) (d1 d2 d3 d4 d5 d6 : String) where
  abbrev pub six : List String
  six =
      add_diff b1 d1
        (add_diff b2 d2 (add_diff b3 d3 (add_diff b4 d4 (add_diff b5 d5 (add_diff b6 d6 [])))))

  pub six-NonEmpty :
      NonEmpty d1
      → NonEmpty d2
      → NonEmpty d3
      → NonEmpty d4
      → NonEmpty d5
      → NonEmpty d6
      → (l : List String) → six ≡ l
      → All NonEmpty l
  six-NonEmpty f1 f2 f3 f4 f5 f6 l q =
      let l6 = add_diff b6 d6 [] in
      let l5 = add_diff b5 d5 l6 in
      let l4 = add_diff b4 d4 l5 in
      let l3 = add_diff b3 d3 l4 in
      let l2 = add_diff b2 d2 l3 in
      subst (All NonEmpty) q (
        add_diff-NonEmpty b1 d1 l2 f1 (
          add_diff-NonEmpty b2 d2 l3 f2 (
            add_diff-NonEmpty b3 d3 l4 f3 (
              add_diff-NonEmpty b4 d4 l5 f4
                (add_diff-NonEmpty b5 d5 l6 f5 (add_diff-NonEmpty b6 d6 [] f6 tt))))))

  pub six-nil :
      (six ≡ [])
      ↔ ((b1 ≡ false) × (b2 ≡ false) × (b3 ≡ false) × (b4 ≡ false) × (b5 ≡ false) × (b6 ≡ false))
  six-nil =
      let l6 = add_diff b6 d6 [] in
      let l5 = add_diff b5 d5 l6 in
      let l4 = add_diff b4 d4 l5 in
      let l3 = add_diff b3 d3 l4 in
      let l2 = add_diff b2 d2 l3 in
      let n1 = add_diff-nil b1 d1 l2 in
      let n2 = add_diff-nil b2 d2 l3 in
      let n3 = add_diff-nil b3 d3 l4 in
      let n4 = add_diff-nil b4 d4 l5 in
      let n5 = add_diff-nil b5 d5 l6 in
      let n6 = add_diff-nil b6 d6 [] in
      (
        (λ q.
            let r2 = (n1.0 q).1 in
            let r3 = (n2.0 r2).1 in
            let r4 = (n3.0 r3).1 in
            let r5 = (n4.0 r4).1 in
            let r6 = (n5.0 r5).1 in
            ((n1.0 q).0, (n2.0 r2).0, (n3.0 r3).0, (n4.0 r4).0, (n5.0 r5).0, (n6.0 r6).0)),
        (λ h. n1.1 (h.0, n2.1 (h.1, n3.1 (h.2, n4.1 (h.3, n5.1 (h.4, n6.1 (h.5, refl))))))),
      )
