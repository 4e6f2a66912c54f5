-- ===== src/Persist/Store/History/Beside.antt =====
-- Two stores in one bucket, and calls on both in any order.
use mathlib.Core.Path.{subst}
use imps.Base.{String, Option, none, some, List, [], ◌∷◌, ◌++◌, ◌≡◌, refl, sym, ◌∙◌, ◌≢◌, arith}
use imps.Persist.Lru.{Residency}
use imps.Persist.Store.{World, Store, key, decode, rehydrate}
use imps.Persist.Store.Keys.{Separate, key-apart}
use imps.Persist.Store.Writes.{Faithful, view, view_same}
use imps.Persist.Store.View.{StoreOk, with_residency}
use imps.Persist.Store.Refine.{unchanged_StoreOk}
use imps.Persist.Store.History.{
  Call, Answer, serve, serve_all, Book, Follows, done, read, stored, refused, reset, kept,
}
use imps.Persist.Store.History.Maps.{history_lem, serve_all-cons}
use imps.Persist.Store.History.Elsewhere.{serve_lem}

-- A call on the first store or on the second.
pub data Turn (T U : Type 0) : Type 0 where
  first : Call T → Turn T U
  second : Call U → Turn T U

-- The two stores and their bucket.
pub record Both (T U B : Type 0) : Type 0 where
  pub left : Store T
  pub right : Store U
  pub bucket : B

module _ {T U : Type 0} where
  unfoldable pub firsts : List (Turn T U) → List (Call T)
  firsts [] = []
  firsts (first c ∷ cs) = c ∷ firsts cs
  firsts (second c ∷ cs) = firsts cs

  unfoldable pub seconds : List (Turn T U) → List (Call U)
  seconds [] = []
  seconds (first c ∷ cs) = seconds cs
  seconds (second c ∷ cs) = c ∷ seconds cs

module _ {T U B E : Type 0} (w : World T B E) (u : World U B E) where
  -- The calls in their order, with what those on each store return; `none` is a panic.
  unfoldable pub serve_both :
      Both T U B → List (Turn T U) → Option (Both T U B × List (Answer T E) × List (Answer U E))
  serve_both o [] = some (o, [], [])
  serve_both o (first c ∷ cs) = elim (serve w o.left o.bucket c) [
    | none ↦ none
    | some ((s, b), a) ↦ elim (serve_both (record o { left = s; bucket = b }) cs) [
      | none ↦ none
      | some (end, got, got') ↦ some (end, a ∷ got, got')
    ]
  ]
  serve_both o (second c ∷ cs) = elim (serve u o.right o.bucket c) [
    | none ↦ none
    | some ((t, b), a) ↦ elim (serve_both (record o { right = t; bucket = b }) cs) [
      | none ↦ none
      | some (end, got, got') ↦ some (end, got, a ∷ got')
    ]
  ]

module _ {T E : Type 0} {zero : T} where
  Follows-append :
      {m m' m'' : Book T E} {cs ds : List (Call T)} {got got' : List (Answer T E)}
      → Follows zero m cs got m'
      → Follows zero m' ds got' m''
      → Follows zero m (cs ++ ds) (got ++ got') m''
  Follows-append done h = h
  Follows-append (read now e f) h = read now e (Follows-append f h)
  Follows-append (stored now now' e fn ok f) h = stored now now' e fn ok (Follows-append f h)
  Follows-append (refused now now' e fn v err f) h =
      refused now now' e fn v err (Follows-append f h)
  Follows-append (reset e f) h = reset e (Follows-append f h)
  Follows-append (kept e err f) h = kept e err (Follows-append f h)

module _ {T B E : Type 0} (w : World T B E) where
  -- A call, and calls on the store that it leaves.
  Follows-served :
      (s : Store T) (r : Residency T) (b b1 b2 : B) (c : Call T) (cs : List (Call T))
      (a : Answer T E) (got : List (Answer T E))
      → Follows w.zero (view w s b) (c ∷ []) (a ∷ []) (view w s b1)
      → Follows w.zero (view w (with_residency s r) b1) cs got (view w (with_residency s r) b2)
      → Follows w.zero (view w s b) (c ∷ cs) (a ∷ got) (view w s b2)
  unfolding rehydrate decode key
  Follows-served s r b b1 b2 c cs a got now later = Follows-append now later

module _ {T U B E : Type 0} (w : World T B E) (law : Faithful w) (u : World U B E)
    (law' : Faithful u) (same : (b : B) (k : String) → u.backend.get b k ≡ w.backend.get b k) where
  -- A call on one store answers as its map does, and the other store does not notice.
  serve-beside :
      (s : Store T) (t : Store U) (b : B) (c : Call T)
      → ((e f : String) → key s e ≢ key t f)
      → StoreOk w s b
      → StoreOk u t b
      → (r : Residency T) × (b' : B) × (a : Answer T E) × (serve w s b c
          ≡ some ((with_residency s r, b'), a))
        × StoreOk w (with_residency s r) b'
        × Follows w.zero (view w s b) (c ∷ []) (a ∷ []) (view w s b')
        × StoreOk u t b'
        × (view u t b' ≡ view u t b)
  unfolding serve_all
  serve-beside s t b c apart h k =
      let (r, b', a, is, h', alone) = serve_lem w law s b c h in
      let (q, b2, got, all, ok, run) = history_lem w law s b (c ∷ []) h in
      let once =
        serve_all-cons w s (with_residency s r) b b' c [] a (with_residency s r, b') [] is refl in
      let pb : b2 ≡ b' = cc in
      let pg : got ≡ a ∷ [] = cc in
      let unseen : ((f : String) → view u t b' f ≡ view u t b f) = λ f.
        view_same u t b b' f
          (same b' (key t f) ∙ alone (key t f) (λ e. apart e f) ∙ sym (same b (key t f))) in
      (
        r,
        b',
        a,
        is,
        h',
        subst (λ x. Follows w.zero (view w s b) (c ∷ []) (a ∷ []) (view w s x)) pb
            (subst (λ l. Follows w.zero (view w s b) (c ∷ []) l (view w s b2)) pg run),
        unchanged_StoreOk u law' t b b' k unseen,
        λ i f. unseen f i,
      )

module _ {T U B E : Type 0} (w : World T B E) (u : World U B E) where
  -- Calls on both stores, without a panic, that answer on each store as its own map does.
  abbrev pub Served : Both T U B → List (Turn T U) → Type 0
  Served o cs =
      (end : Both T U B) × (got : List (Answer T E)) × (got' : List (Answer U E)) × (serve_both w u
          o cs
        ≡ some (end, got, got'))
      × Follows w.zero (view w o.left o.bucket) (firsts cs) got (view w o.left end.bucket)
      × Follows u.zero (view u o.right o.bucket) (seconds cs) got' (view u o.right end.bucket)

  module _ (law : Faithful w) (law' : Faithful u) (same : u.backend ≡ w.backend) where
    serve_both-Served :
        (o : Both T U B) (cs : List (Turn T U))
        → ((e f : String) → key o.left e ≢ key o.right f)
        → StoreOk w o.left o.bucket
        → StoreOk u o.right o.bucket
        → Served o cs
    unfolding serve_both firsts seconds key
    serve_both-Served o [] apart h k = (o, [], [], refl, done, done)
    serve_both-Served o (first c ∷ cs) apart h k =
        let (r, b, a, is, h', run, k', quiet) =
          serve-beside w law u law' (λ b k i. (same i).get b k) o.left o.right o.bucket c apart h
            k in
        let s = with_residency o.left r in
        let (end, got, got', all, left, right) =
          serve_both-Served (record o { left = s; bucket = b }) cs apart h' k' in
        (
          end,
          a ∷ got,
          got',
          ground (arith, is, all),
          Follows-served w o.left r o.bucket b end.bucket c (firsts cs) a got run left,
          subst (λ m. Follows u.zero m (seconds cs) got' (view u o.right end.bucket)) quiet right,
        )
    serve_both-Served o (second c ∷ cs) apart h k =
        let (r, b, a, is, k', run, h', quiet) =
          serve-beside u law' w law (λ b k. sym (λ i. (same i).get b k)) o.right o.left o.bucket c
            (λ e f p. apart f e (sym p)) k h in
        let t = with_residency o.right r in
        let (end, got, got', all, left, right) =
          serve_both-Served (record o { right = t; bucket = b }) cs apart h' k' in
        (
          end,
          got,
          a ∷ got',
          ground (arith, is, all),
          subst (λ m. Follows w.zero m (firsts cs) got (view w o.left end.bucket)) quiet left,
          Follows-served u o.right r o.bucket b end.bucket c (seconds cs) a got' run right,
        )

    -- Two stores without a wake hook on one bucket, each with a faithful codec and a residency that
    -- agrees with the bucket, whose names differ and neither of which is the other with a dot and a
    -- text after it: any calls of Get, Update and Delete on both, in any order, run without a panic,
    -- and each store answers its own calls as a map from entities to states would, which the other
    -- store's calls do not change.
    pub serve_both_lem :
        (s : Store T) (t : Store U) (b : B) (cs : List (Turn T U))
        → Separate s.name t.name
        → StoreOk w s b
        → StoreOk u t b
        → Served (record { left = s; right = t; bucket = b }) cs
    serve_both_lem s t b cs apart h k =
        serve_both-Served (record { left = s; right = t; bucket = b }) cs (key-apart s t apart) h k
