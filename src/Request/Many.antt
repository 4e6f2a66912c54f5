-- ===== src/Request/Many.antt =====
-- request.go: what the loop of `requestMany` collects.
use imps.Base.{
  ℕ, zero, suc, ◌+◌, ℤ, pos, negsuc, pos_part, leb_ℤ, ltb_ℤ, leb, ◌&&◌, Bool, true, false, Option,
  none, some, List, [], ◌∷◌, ◌++◌, ◌≡◌, refl, ap, ◌∙◌, arith, Option-cases, inl, inr, if◌then◌else◌,
  length, length-append,
}
use mathlib.Core.List.{append_assoc, append-nil}
use imps.Request.{Arrival, reply, closed, window_over, context_done, collect}

module _ {E : Type 0} where
  -- The data of the replies before the collection ends.
  unfoldable pub heard : List (Arrival E) → List (List ℕ)
  heard [] = []
  heard (reply true body ∷ rest) = heard rest
  heard (reply false body ∷ rest) = body ∷ heard rest
  heard (closed ∷ rest) = []
  heard (window_over ∷ rest) = []
  heard (context_done e ∷ rest) = []

  -- What ends the collection, if anything does, and its error.
  unfoldable pub ends : List (Arrival E) → Option (Option E)
  ends [] = none
  ends (reply status body ∷ rest) = ends rest
  ends (closed ∷ rest) = some none
  ends (window_over ∷ rest) = some none
  ends (context_done e ∷ rest) = some (some e)

unfoldable pub take : {A : Type 0} → ℕ → List A → List A
take n [] = []
take zero (x ∷ xs) = []
take (suc n) (x ∷ xs) = x ∷ take n xs

-- The cap on replies, where 0 or less is none.
abbrev pub capped : ℤ → ℕ → Bool
capped max n = ltb_ℤ (pos 0) max && leb_ℤ max (pos n)

leb-none : (n : ℕ) → leb (suc n) 0 ≡ false
leb-none n = ground arith

leb-one : (n : ℕ) → leb 1 (suc n) ≡ true
leb-one n = ground arith

leb-more : (a b : ℕ) → leb (suc (suc a)) (suc b) ≡ leb (suc a) b
leb-more a b = ground arith

take-none : {A : Type 0} (xs : List A) → take 0 xs ≡ []
unfolding take
take-none [] = refl
take-none (x ∷ xs) = refl

grown-length :
    {A : Type 0} (xs : List A) (x : A) (n : ℕ)
    → length xs + suc (suc n) ≡ length (xs ++ x ∷ []) + suc n
grown-length xs x n = ground (arith, length-append xs (x ∷ []))

capped-pos : (n l : ℕ) → capped (pos (suc n)) l ≡ leb (suc n) l
capped-pos n l = ground arith

capped-neg : (n l : ℕ) → capped (negsuc n) l ≡ false
capped-neg n l = ground arith

capped-full :
    {A : Type 0} (m : ℕ) (xs : List A) (x : A)
    → m ≡ length xs + 1
    → capped (pos m) (length (xs ++ x ∷ [])) ≡ true
capped-full m xs x q = ground (arith, length-append xs (x ∷ []))

capped-open :
    {A : Type 0} (m n : ℕ) (xs : List A) (x : A)
    → m ≡ length xs + suc (suc n)
    → capped (pos m) (length (xs ++ x ∷ [])) ≡ false
capped-open m n xs x q = ground (arith, length-append xs (x ∷ []))

module _ {E : Type 0} where
  -- What is collected when nothing caps it.
  abbrev pub all_heard : List (Arrival E) → Option (List (List ℕ) × Option E)
  all_heard es = elim (ends es) [ none ↦ none | some e ↦ some (heard es, e) ]

  unfoldable pub prepend :
      List (List ℕ) → Option (List (List ℕ) × Option E) → Option (List (List ℕ) × Option E)
  prepend xs none = none
  prepend xs (some (ys, e)) = some (xs ++ ys, e)

  prepend-snoc :
      (xs : List (List ℕ)) (body : List ℕ) (es : List (Arrival E))
      → prepend (xs ++ body ∷ []) (all_heard es) ≡ prepend xs (all_heard (reply false body ∷ es))
  unfolding prepend heard ends
  prepend-snoc xs body es = elim (Option-cases (ends es)) [
    | inl q ↦ rw (prepend, q) refl
    | inr (e, q) ↦ rw (prepend, q) (ap (λ l. some (l, e)) (append_assoc xs (body ∷ []) (heard es)))
  ]

  -- The loop when `n` more replies after the next one are enough.
  collect-take :
      (m n : ℕ) (xs : List (List ℕ)) (es : List (Arrival E))
      → m ≡ length xs + suc n
      → collect (pos m) xs es ≡ (
          if leb (suc n) (length (heard es))
          then some (xs ++ take (suc n) (heard es), none)
          else prepend xs (all_heard es))
  unfolding collect heard ends take prepend
  collect-take m n xs [] q = rw (leb-none n) refl
  collect-take m n xs (reply true body ∷ es) q = collect-take m n xs es q
  collect-take m zero xs (reply false body ∷ es) q =
      rw (capped-full m xs body q, leb-one (length (heard es)), take-none (heard es)) refl
  collect-take m (suc n) xs (reply false body ∷ es) q =
      rw (capped-open m n xs body q, leb-more n (length (heard es)))
        (collect-take m n (xs ++ body ∷ []) es (q ∙ grown-length xs body n)
          ∙ ap
              (λ l.
                if leb (suc n) (length (heard es))
                then some (l, none)
                else prepend (xs ++ body ∷ []) (all_heard es))
              (append_assoc xs (body ∷ []) (take (suc n) (heard es)))
          ∙ ap
              (λ l.
                if leb (suc n) (length (heard es))
                then some (xs ++ body ∷ take (suc n) (heard es), none)
                else l)
              (prepend-snoc xs body es))
  collect-take m n xs (closed ∷ es) q = rw (leb-none n, append-nil xs) refl
  collect-take m n xs (window_over ∷ es) q = rw (leb-none n, append-nil xs) refl
  collect-take m n xs (context_done e ∷ es) q = rw (leb-none n, append-nil xs) refl

  collect-uncapped :
      (max : ℤ) (xs : List (List ℕ)) (es : List (Arrival E))
      → ltb_ℤ (pos 0) max ≡ false
      → collect max xs es ≡ prepend xs (all_heard es)
  unfolding collect heard ends prepend
  collect-uncapped max xs [] q = refl
  collect-uncapped max xs (reply true body ∷ es) q = collect-uncapped max xs es q
  collect-uncapped max xs (reply false body ∷ es) q =
      rw q (collect-uncapped max (xs ++ body ∷ []) es q ∙ prepend-snoc xs body es)
  collect-uncapped max xs (closed ∷ es) q = rw (append-nil xs) refl
  collect-uncapped max xs (window_over ∷ es) q = rw (append-nil xs) refl
  collect-uncapped max xs (context_done e ∷ es) q = rw (append-nil xs) refl

  prepend-nil : (o : Option (List (List ℕ) × Option E)) → prepend [] o ≡ o
  unfolding prepend
  prepend-nil none = refl
  prepend-nil (some (x, e)) = refl

  -- What the loop of requestMany returns on what arrives: with a positive cap that the replies
  -- reach, the first replies up to the cap and no error; otherwise all replies before the first
  -- end, with the error of that end, and nothing while there is no end. Replies with a status
  -- header are left out.
  pub collect_lem :
      (max : ℤ) (es : List (Arrival E))
      → collect max [] es ≡ (
          if capped max (length (heard es))
          then some (take (pos_part max) (heard es), none)
          else all_heard es)
  collect_lem (pos (suc n)) es =
      collect-take (suc n) n [] es (ground arith)
      ∙ rw (capped-pos n (length (heard es)), prepend-nil (all_heard es)) refl
  collect_lem (pos zero) es =
      collect-uncapped (pos 0) [] es (ground arith) ∙ prepend-nil (all_heard es)
  collect_lem (negsuc n) es =
      collect-uncapped (negsuc n) [] es (ground arith)
      ∙ prepend-nil (all_heard es)
      ∙ rw (capped-neg n (length (heard es))) refl

  seen_end :
      (es : List (Arrival E)) (e : Option E) → ends es ≡ some e → all_heard es ≡ some (heard es, e)
  seen_end es e q = rw (all_heard, q) refl
