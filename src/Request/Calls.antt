-- ===== src/Request/Calls.antt =====
-- request.go: the calls of `requestMany`, with their subscription.
use imps.Base.{
  ℕ, String, ℤ, pos, Bool, Option, none, some, List, [], ◌∷◌, ◌++◌, ◌≡◌, refl, Bool-cases,
  Option-cases, inl, inr,
}
use imps.Errors.{ImpError, Sentinel, nats_no_responders}
use imps.Request.{
  Requests, RequestManyOptions, configure, effective, Arrival, Action, subscribed, unsubscribed,
  published, collect, request_many,
}

module _ {E : Type 0} where
  module _ (is : E → Sentinel → Bool) (refused : Option E) (publish : String → List ℕ → Option E)
      (arrivals : ℤ → List (Arrival E)) (m : Requests) (default : ℤ) (subject : String)
      (payload : List ℕ) (opts : List (RequestManyOptions → RequestManyOptions)) where
    abbrev pub outcome : Requests × List Action × Option (List (List ℕ) × Option (ImpError E))
    outcome = request_many is refused publish arrivals m default subject payload opts

    abbrev cfg : RequestManyOptions
    cfg = configure opts (record { window = pos 0; max = pos 0 })

    abbrev pub seen : List (Arrival E)
    seen = arrivals (effective cfg.window default)

    -- Without an end, a call waits.
    waits :
        refused ≡ none
        → publish subject payload ≡ none
        → collect cfg.max [] seen ≡ none
        → outcome.2 ≡ none
    unfolding request_many
    waits q p s = rw (request_many, q, p, s) refl

    -- A call of requestMany that has subscribed and returned has unsubscribed last, on every path.
    pub request_many-unsubscribed :
        (got : List (List ℕ) × Option (ImpError E))
        → refused ≡ none
        → outcome.2 ≡ some got
        → (before : List Action) × (outcome.1 ≡ before ++ unsubscribed ∷ [])
    unfolding request_many
    request_many-unsubscribed got q r = elim (Option-cases (publish subject payload)) [
      | inr (e, p) ↦ elim (Bool-cases (is e nats_no_responders)) [
        | inl s ↦ (subscribed ∷ [], rw (request_many, q, p, s) refl)
        | inr s ↦ (subscribed ∷ [], rw (request_many, q, p, s) refl)
      ]
      | inl p ↦ elim (Option-cases (collect cfg.max [] seen)) [
        | inl s ↦ cc (waits q p s)
        | inr ((all, err), s) ↦ elim (Option-cases err) [
          | inl v ↦
              (subscribed ∷ published subject payload ∷ [], rw (request_many, q, p, s, v) refl)
          | inr (e, v) ↦
              (subscribed ∷ published subject payload ∷ [], rw (request_many, q, p, s, v) refl)
        ]
      ]
    ]
