-- ===== src/Request/Single.antt =====
-- request.go: what `requestSingle` reports, and the timeout that it uses.
use imps.Base.{
  ℕ, String, ℤ, pos, negsuc, ltb_ℤ, Bool, false, ◌||◌, Option, none, some, List, [], ◌∷◌, ◌≡◌, refl,
  ap, ◌∙◌, arith, map, Bool-cases, Option-cases, inl, inr, if◌then◌else◌,
}
use imps.Errors.{
  ImpError, no_responders, request_timeout, is_error, Sentinel, nats_no_responders, canceled,
  deadline_exceeded,
}
use imps.Metrics.{bump}
use imps.Request.{
  Requests, RequestOptions, with_request_timeout, configure, effective, is_nil_or, classify,
  request_single,
}

-- The last of the durations that is positive, or the one before them.
unfoldable pub last_positive : ℤ → List ℤ → ℤ
last_positive d [] = d
last_positive d (x ∷ xs) = last_positive (if ltb_ℤ (pos 0) x then x else d) xs

-- Options that carry the durations leave the last positive one.
pub configure-with_request_timeout :
    (ds : List ℤ) (o : RequestOptions)
    → (configure (map with_request_timeout ds) o).timeout ≡ last_positive o.timeout ds
unfolding configure with_request_timeout last_positive
configure-with_request_timeout [] o = refl
configure-with_request_timeout (d ∷ ds) o = elim (Bool-cases (ltb_ℤ (pos 0) d)) [
  | inl p ↦
      rw (with_request_timeout, p) (configure-with_request_timeout ds (record { timeout = d }))
  | inr p ↦ rw (with_request_timeout, p) (configure-with_request_timeout ds o)
]

effective-positive :
    (default d x : ℤ)
    → effective (if ltb_ℤ (pos 0) x then x else d) default
      ≡ (if ltb_ℤ (pos 0) x then x else effective d default)
unfolding effective
effective-positive default d (pos n) = ground arith
effective-positive default d (negsuc n) = ground arith

effective-last_positive :
    (default d : ℤ) (ds : List ℤ)
    → effective (last_positive d ds) default ≡ last_positive (effective d default) ds
unfolding effective last_positive
effective-last_positive default d [] = refl
effective-last_positive default d (x ∷ xs) =
    effective-last_positive default (if ltb_ℤ (pos 0) x then x else d) xs
    ∙ ap (λ z. last_positive z xs) (effective-positive default d x)

-- The timeout of a request with timeout options is the last positive one of them, and the
-- harness's timeout if none is positive.
pub effective-with_request_timeout :
    (default : ℤ) (ds : List ℤ)
    → effective
        (configure (map with_request_timeout ds) (record { timeout = pos 0 })).timeout
        default
      ≡ last_positive default ds
unfolding effective
effective-with_request_timeout default ds =
    ap (λ z. effective z default) (configure-with_request_timeout ds (record { timeout = pos 0 }))
    ∙ effective-last_positive default (pos 0) ds

-- The counters after a call, by the error that it returned.
abbrev pub accounted : {E : Type 0} → Requests → Option (ImpError E) → Requests
accounted m none = m
accounted m (some (no_responders s)) = record m { unanswered = bump m.unanswered }
accounted m (some (request_timeout s d)) = record m { timeouts = bump m.timeouts }
accounted m (some e) = m

module _ {E : Type 0} (is : E → Sentinel → Bool) where
  classify-accounted :
      (cerr : Option E) (subject : String) (limit : ℤ) (e : E) (m : Requests)
      → (classify is cerr subject limit e m).0
        ≡ accounted m (some (classify is cerr subject limit e m).1)
  unfolding classify
  classify-accounted cerr subject limit e m = elim (Bool-cases (is e nats_no_responders)) [
    | inl p ↦ rw (classify, p) refl
    | inr p ↦ elim (Bool-cases (is_nil_or is cerr canceled || is e canceled)) [
      | inl q ↦ rw (classify, p, q) refl
      | inr q ↦ elim (Bool-cases (is e deadline_exceeded)) [
        | inl r ↦ elim (Bool-cases (is_nil_or is cerr deadline_exceeded)) [
          | inl s ↦ rw (classify, p, q, r, s) refl
          | inr s ↦ rw (classify, p, q, r, s) refl
        ]
        | inr r ↦ rw (classify, p, q, r) refl
      ]
    ]
  ]

  classify-deadline :
      (cerr : Option E) (subject : String) (limit : ℤ) (e : E) (m : Requests)
      → is e nats_no_responders ≡ false
      → is_error is (classify is cerr subject limit e m).1 deadline_exceeded
        ≡ is e deadline_exceeded
  unfolding classify is_error
  classify-deadline cerr subject limit e m p =
      elim (Bool-cases (is_nil_or is cerr canceled || is e canceled)) [
        | inl q ↦ rw (classify, p, q) refl
        | inr q ↦ elim (Bool-cases (is e deadline_exceeded)) [
          | inl r ↦ elim (Bool-cases (is_nil_or is cerr deadline_exceeded)) [
            | inl s ↦ rw (classify, p, q, r, s) r
            | inr s ↦ rw (classify, p, q, r, s) refl
          ]
          | inr r ↦ rw (classify, p, q, r) r
        ]
      ]

  module _ (call : ℤ → String → List ℕ → List ℕ × Option E) (cerr : Option E) (m : Requests)
      (default : ℤ) (subject : String) (payload : List ℕ)
      (opts : List (RequestOptions → RequestOptions)) where
    abbrev limit : ℤ
    limit = effective (configure opts (record { timeout = pos 0 })).timeout default

    -- What the connection answers under the timeout of the options.
    abbrev pub served : List ℕ × Option E
    served = call limit subject payload

    -- A request counts one call, and besides exactly the failure that it returns: no responders, or
    -- the timeout.
    pub request_single-accounted :
        (request_single is call cerr m default subject payload opts).0
        ≡ accounted
            (record m { calls = bump m.calls })
            (request_single is call cerr m default subject payload opts).2
    unfolding request_single
    request_single-accounted = elim (Option-cases served.1) [
      | inl q ↦ rw (request_single, q) refl
      | inr (e, q) ↦
          rw (request_single, q)
            (classify-accounted cerr subject limit e (record m { calls = bump m.calls }))
    ]

    -- A request that fails, other than for want of responders, returns no data and an error that is
    -- a deadline error exactly when the connection's was.
    pub request_single-deadline :
        (e : E)
        → served.1 ≡ some e
        → is e nats_no_responders ≡ false
        → (out : ImpError E) × ((request_single is call cerr m default subject payload opts
              ≡ ((request_single is call cerr m default subject payload opts).0, [], some out))
            × (is_error is out deadline_exceeded ≡ is e deadline_exceeded))
    unfolding request_single
    request_single-deadline e q p =
        let m' : Requests = record m { calls = bump m.calls } in
        rw (request_single, q)
          (
            (classify is cerr subject limit e m').1,
            (refl, classify-deadline cerr subject limit e m' p),
          )
