-- ===== src/Persist/Store/Keys.antt =====
-- The keys of two stores in one bucket: `key` puts a dot between a store's name and the entity.
use Prim.Native.Char.{Char, nul}
use text.Mathlib.TextLemmas.{
  append_assoc, nil-append, cons-append, tail-eq_of_cons-eq, head-eq_of_cons-eq,
}
use imps.Base.{String, ◌<>◌, ◌≡◌, refl, sym, ap, ◌∙◌, ◌⊎◌, inl, inr, ◌↔◌, ◌≢◌}
use imps.Persist.Store.{Store, key}

-- Two texts cut at a character: the cuts are the same, or one is inside the other's left or right.
cut :
    (c : Char) (n m e f : String)
    → n <> String.◌∷◌ c e ≡ m <> String.◌∷◌ c f
    → ((n ≡ m) × (e ≡ f))
      ⊎ ((q : String) × (m ≡ n <> String.◌∷◌ c q) × (e ≡ q <> String.◌∷◌ c f))
      ⊎ ((q : String) × (n ≡ m <> String.◌∷◌ c q) × (f ≡ q <> String.◌∷◌ c e))
cut c String.[] String.[] e f h =
    inl (
      refl,
      tail-eq_of_cons-eq (sym (nil-append (String.◌∷◌ c e)) ∙ h ∙ nil-append (String.◌∷◌ c f)),
    )
cut c String.[] (String.◌∷◌ d m) e f h =
    let p = sym (nil-append (String.◌∷◌ c e)) ∙ h ∙ cons-append d m (String.◌∷◌ c f) in
    inr (
      inl (
        m,
        ap (λ x. String.◌∷◌ x m) (sym (head-eq_of_cons-eq p)) ∙ sym (nil-append (String.◌∷◌ c m)),
        tail-eq_of_cons-eq p,
      ))
cut c (String.◌∷◌ d n) String.[] e f h =
    let p = sym (nil-append (String.◌∷◌ c f)) ∙ sym h ∙ cons-append d n (String.◌∷◌ c e) in
    inr (
      inr (
        n,
        ap (λ x. String.◌∷◌ x n) (sym (head-eq_of_cons-eq p)) ∙ sym (nil-append (String.◌∷◌ c n)),
        tail-eq_of_cons-eq p,
      ))
cut c (String.◌∷◌ a n) (String.◌∷◌ d m) e f h =
    let p = sym (cons-append a n (String.◌∷◌ c e)) ∙ h ∙ cons-append d m (String.◌∷◌ c f) in
    let same = head-eq_of_cons-eq p in
    elim (cut c n m e f (tail-eq_of_cons-eq p)) [
      | inl (q, r) ↦ inl (cc, r)
      | inr (inl (q, r, t)) ↦ inr (inl (q, cc (cons-append a n (String.◌∷◌ c q)), t))
      | inr (inr (q, r, t)) ↦ inr (inr (q, cc (cons-append d m (String.◌∷◌ c q)), t))
    ]

-- The first character of a text that has one.
abbrev first : String → Char
first String.[] = nul
first (String.◌∷◌ c s) = c

dot : (x : String) → "." <> x ≡ String.◌∷◌ (first ".") x
dot x = cons-append (first ".") "" x ∙ ap (λ y. String.◌∷◌ (first ".") y) (nil-append x)

-- The names and the entities are the same, or one name is the other with a dot and a text after it,
-- which the other's entity begins with.
abbrev pub Meet : String → String → String → String → Type 0
Meet n m e f =
    ((n ≡ m) × (e ≡ f))
    ⊎ ((q : String) × (m ≡ (n <> ".") <> q) × (e ≡ (q <> ".") <> f))
    ⊎ ((q : String) × (n ≡ (m <> ".") <> q) × (f ≡ (q <> ".") <> e))

cut-Meet : (n m e f : String) → (n <> ".") <> e ≡ (m <> ".") <> f → Meet n m e f
cut-Meet n m e f h =
    let flat : ((x y : String) → (x <> ".") <> y ≡ x <> String.◌∷◌ (first ".") y) =
      λ x y. append_assoc x "." y ∙ ap (λ z. x <> z) (dot y) in
    elim (cut (first ".") n m e f (sym (flat n e) ∙ h ∙ flat m f)) [
      | inl same ↦ inl same
      | inr (inl (q, r, t)) ↦ inr (inl (q, r ∙ sym (flat n q), t ∙ sym (flat q f)))
      | inr (inr (q, r, t)) ↦ inr (inr (q, r ∙ sym (flat m q), t ∙ sym (flat q e)))
    ]

regroup : (n q x : String) → (n <> ".") <> ((q <> ".") <> x) ≡ (((n <> ".") <> q) <> ".") <> x
regroup n q x = simp append_assoc

Meet-cut : (n m e f : String) → Meet n m e f → (n <> ".") <> e ≡ (m <> ".") <> f
Meet-cut n m e f (inl (p, q)) = cc
Meet-cut n m e f (inr (inl (q, r, t))) =
    ap (λ x. (n <> ".") <> x) t ∙ regroup n q f ∙ ap (λ x. (x <> ".") <> f) (sym r)
Meet-cut n m e f (inr (inr (q, r, t))) =
    ap (λ x. (x <> ".") <> e) r ∙ sym (regroup m q e) ∙ ap (λ x. (m <> ".") <> x) (sym t)

-- The names differ, and neither is the other with a dot and a text after it.
abbrev pub Separate : String → String → Type 0
Separate n m = (n ≢ m) × ((q : String) → m ≢ (n <> ".") <> q) × ((q : String) → n ≢ (m <> ".") <> q)

module _ {T U : Type 0} (s : Store T) (t : Store U) where
  -- Entities of two stores have one key exactly when the stores' names and the entities are the same,
  -- or one name is the other with a dot and a text after it, and the entity of the store with the
  -- shorter name is that text with a dot and the other entity after it.
  pub key_iff : (e f : String) → (key s e ≡ key t f) ↔ Meet s.name t.name e f
  unfolding key
  key_iff e f = (cut-Meet s.name t.name e f, Meet-cut s.name t.name e f)

  pub key-apart : Separate s.name t.name → (e f : String) → key s e ≢ key t f
  key-apart (h, k, l) e f p = elim ((key_iff e f).0 p) [
    | inl (q, r) ↦ h q
    | inr (inl (q, r, t)) ↦ k q r
    | inr (inr (q, r, t)) ↦ l q r
  ]
