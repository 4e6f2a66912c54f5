-- ===== src/Consumer/Decimal.antt =====
-- stream.go: what `itoa` writes, read back digit by digit, and the places that it needs.
use Prim.Native.Char.{Char, code}
use Prim.Native.String.{count}
use native.Mathlib.Nat.{pow-succ'}
use text.Mathlib.TextLemmas.{cons-append, nil-append, length-nil, length-cons}
use mathlib.Core.Path.{subst⁻¹}
use imps.Base.{
  ℕ, zero, suc, ◌+◌, ◌-◌, ◌*◌, ◌/◌, ◌%◌, ◌^◌, ◌≤◌, ◌<◌, String, ◌<>◌, ℤ, pos, negsuc, eqb, ltb,
  if◌then◌else◌, ◌≡◌, refl, ap, ◌∙◌, ◌≢◌, ◌⊎◌, inl, inr, arith, Bool-cases,
}
use imps.Consumer.{digit, digits, itoa}

-- The number that digits spell behind `n`.
unfoldable pub value : ℕ → String → ℕ
value n String.[] = n
value n (String.◌∷◌ c s) = value (n * 10 + (code c - b'0')) s

abbrev negate : ℕ → ℤ
negate zero = pos 0
negate (suc n) = negsuc n

-- The integer that a text spells, with a minus sign or without one.
unfoldable pub read : String → ℤ
read String.[] = pos 0
read (String.◌∷◌ c s) =
    if eqb (code c) b'-' then negate (value 0 s) else pos (value (code c - b'0') s)

abbrev IsDigit : Char → Type 0
IsDigit c = (b'0' ≤ code c) × (code c ≤ b'9')

unfoldable pub AllDigits : String → Type 0
AllDigits String.[] = Unit
AllDigits (String.◌∷◌ c s) = IsDigit c × AllDigits s

digit_cases :
    (d : ℕ) → d < 10 → (c : Char) × (digit d ≡ String.◌∷◌ c String.[]) × (code c ≡ b'0' + d)
digit_cases zero h = (_, refl, refl)
digit_cases (suc zero) h = (_, refl, refl)
digit_cases (suc (suc zero)) h = (_, refl, refl)
digit_cases (suc (suc (suc zero))) h = (_, refl, refl)
digit_cases (suc (suc (suc (suc zero)))) h = (_, refl, refl)
digit_cases (suc (suc (suc (suc (suc zero))))) h = (_, refl, refl)
digit_cases (suc (suc (suc (suc (suc (suc zero)))))) h = (_, refl, refl)
digit_cases (suc (suc (suc (suc (suc (suc (suc zero))))))) h = (_, refl, refl)
digit_cases (suc (suc (suc (suc (suc (suc (suc (suc zero)))))))) h = (_, refl, refl)
digit_cases (suc (suc (suc (suc (suc (suc (suc (suc (suc zero))))))))) h = (_, refl, refl)
digit_cases (suc (suc (suc (suc (suc (suc (suc (suc (suc (suc d)))))))))) h = absurd (omega arith)

module _ (d : ℕ) (s : String) (h : d < 10) where
  digit-append : (c : Char) × (digit d <> s ≡ String.◌∷◌ c s) × (code c ≡ b'0' + d)
  digit-append =
      let (c, is, at) = digit_cases d h in
      (c, ap (λ t. t <> s) is ∙ cons-append c "" s ∙ ap (λ t. String.◌∷◌ c t) (nil-append s), at)

  value-digit : (n : ℕ) → value n (digit d <> s) ≡ value (n * 10 + d) s
  unfolding value
  value-digit n =
      let (c, is, at) = digit-append in ap (value n) is ∙ ap (λ m. value m s) (omega arith)

  count-digit : count (digit d <> s) ≡ suc (count s)
  count-digit = let (c, is, at) = digit-append in ap count is ∙ length-cons c s

  AllDigits-digit : AllDigits s → AllDigits (digit d <> s)
  unfolding AllDigits
  AllDigits-digit all =
      let (c, is, at) = digit-append in subst⁻¹ AllDigits is ((omega arith, omega arith), all)

tenth-lt : (n k : ℕ) → n < 10 ^ suc k → n / 10 < 10 ^ k
tenth-lt n k h = omega (arith, pow-succ' 10 k)

-- With places enough, the loop writes all digits of the number.
value-digits :
    (places n : ℕ) (s : String) → n < 10 ^ places → value 0 (digits places n s) ≡ value n s
unfolding digits
value-digits zero n s h = ap (λ m. value m s) (omega arith)
value-digits (suc places) n s h = elim (Bool-cases (eqb n 0)) [
  | inl q ↦ rw (digits, q) (ap (λ m. value m s) (ground arith))
  | inr q ↦
      let rest = digit (n % 10) <> s in
      rw (digits, q)
        (value-digits places (n / 10) rest (tenth-lt n places h)
          ∙ value-digit (n % 10) s (omega arith) (n / 10)
          ∙ ap (λ m. value m s) (omega arith))
]

-- It writes no more digits than the number has.
count-digits : (places k n : ℕ) (s : String) → n < 10 ^ k → count (digits places n s) ≤ k + count s
unfolding digits
count-digits zero k n s h = omega arith
count-digits (suc places) zero n s h = ground arith
count-digits (suc places) (suc k) n s h =
    let ih = count-digits places k (n / 10) (digit (n % 10) <> s) (tenth-lt n k h) in
    ground (arith, ih, count-digit (n % 10) s)

AllDigits-digits : (places n : ℕ) (s : String) → AllDigits s → AllDigits (digits places n s)
unfolding digits
AllDigits-digits zero n s all = all
AllDigits-digits (suc places) n s all = elim (Bool-cases (eqb n 0)) [
  | inl q ↦ rw (digits, q) all
  | inr q ↦
      rw (digits, q)
        (AllDigits-digits places (n / 10) (digit (n % 10) <> s)
          (AllDigits-digit (n % 10) s (omega arith) all))
]

read-digits : (s : String) → AllDigits s → read s ≡ pos (value 0 s)
unfolding read value AllDigits
read-digits String.[] all = refl
read-digits (String.◌∷◌ c s) all = ground (arith, all.0.0)

minus : (c : Char) × (◌≡◌ {A = String} "-" (String.◌∷◌ c String.[])) × (code c ≡ b'-')
minus = (_, refl, refl)

minus-append : (s : String) → "-" <> s ≡ String.◌∷◌ minus.0 s
minus-append s =
    ap (λ t. t <> s) minus.1
    ∙ cons-append minus.0 "" s
    ∙ ap (λ t. String.◌∷◌ minus.0 t) (nil-append s)

read-minus : (s : String) → read ("-" <> s) ≡ negate (value 0 s)
unfolding read minus
read-minus s = ap read (minus-append s)

-- The integers of Go's int, and the least one.
abbrev pub IsInt64 : ℤ → Type 0
IsInt64 (pos n) = n < 2 ^ 63
IsInt64 (negsuc n) = n < 2 ^ 63

abbrev pub least : ℤ
least = negsuc 9223372036854775807

module _ (n : ℕ) (h : n < 2 ^ 63) where
  abbrev written : String
  written = digits 20 n ""

  value-written : value 0 written ≡ n
  unfolding value
  value-written = value-digits 20 n "" (omega arith)

  count-written : count written ≤ 19
  count-written = omega (arith, count-digits 20 19 n "", length-nil)

  AllDigits-written : AllDigits written
  unfolding AllDigits
  AllDigits-written = AllDigits-digits 20 n "" tt

-- What itoa writes of a 64-bit integer reads as that integer, and fits into the 20 places of its
-- buffer; the least integer alone is written as a minus sign without digits.
pub itoa_lem :
    (i : ℤ)
    → IsInt64 i
    → ((i ≢ least) × (read (itoa i) ≡ i) × (count (itoa i) ≤ 20)) ⊎ ((i ≡ least) × (itoa i ≡ "-"))
unfolding itoa read value
itoa_lem (pos zero) h = inl (λ q. cc, refl, omega arith)
itoa_lem (pos (suc n)) h = inl (
  λ q. cc,
  read-digits (written (suc n) h) (AllDigits-written (suc n) h) ∙ ap pos (value-written (suc n) h),
  omega (arith, count-written (suc n) h),
)
itoa_lem (negsuc n) h = elim (Bool-cases (ltb (suc n) (2 ^ 63))) [
  | inl q ↦
      let fits : suc n < 2 ^ 63 = ground arith in
      let text = written (suc n) fits in
      inl (
        λ z. ground arith,
        rw (itoa, q) (read-minus text ∙ ap negate (value-written (suc n) fits)),
        rw (itoa, q)
            (omega (
              arith,
              ap count (minus-append text),
              length-cons minus.0 text,
              count-written (suc n) fits,
            )),
      )
  | inr q ↦ inr (ap negsuc (ground arith), rw (itoa, q) refl)
]
