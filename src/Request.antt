-- ===== src/Request.antt =====
-- request.go: a request with one reply, and a request that collects replies. The connection, the
-- clock and `errors.Is` are parameters: `RequestWithContext` is a function of the timeout that it
-- is given, and what a `select` sees is a list. Durations are nanoseconds.
pub mod Single
pub mod Many
pub mod Calls
use imps.Base.{
  ℕ, suc, String, ◌==◌, ℤ, pos, leb_ℤ, ltb_ℤ, Bool, true, false, not, ◌&&◌, ◌||◌, Option, none,
  some, List, [], ◌∷◌, ◌++◌, length, if◌then◌else◌, foldl,
}
use imps.Errors.{
  ImpError, passed, no_responders, request_timeout, Sentinel, nats_no_responders, canceled,
  deadline_exceeded,
}
use imps.Metrics.{bump}

-- The counters of `metrics` that the requests move.
pub record Requests : Type 0 where
  pub calls : ℕ
  pub many_calls : ℕ
  pub unanswered : ℕ
  pub timeouts : ℕ

abbrev pub mark_unanswered : Requests → Requests
mark_unanswered m = record m { unanswered = bump m.unanswered }

-- `type requestOptions`
pub record RequestOptions : Type 0 where
  pub timeout : ℤ

-- `type requestManyOptions`
pub record RequestManyOptions : Type 0 where
  pub window : ℤ
  pub max : ℤ

-- `WithRequestTimeout`
unfoldable pub with_request_timeout : ℤ → RequestOptions → RequestOptions
with_request_timeout d o = if ltb_ℤ (pos 0) d then record o { timeout = d } else o

-- `WithRequestManyWindow`
unfoldable pub with_request_many_window : ℤ → RequestManyOptions → RequestManyOptions
with_request_many_window d o = if ltb_ℤ (pos 0) d then record o { window = d } else o

-- `WithRequestManyMax`
unfoldable pub with_request_many_max : ℤ → RequestManyOptions → RequestManyOptions
with_request_many_max n o = if ltb_ℤ (pos 0) n then record o { max = n } else o

-- `for _, opt := range opts { opt(&cfg) }`
unfoldable pub configure : {O : Type 0} → List (O → O) → O → O
configure [] cfg = cfg
configure (opt ∷ opts) cfg = configure opts (opt cfg)

-- The timeout or window of the options, or the harness's.
unfoldable pub effective : ℤ → ℤ → ℤ
effective own default = if leb_ℤ own (pos 0) then default else own

module _ {E : Type 0} (is : E → Sentinel → Bool) where
  -- `errors.Is` on an error that may be nil.
  unfoldable pub is_nil_or : Option E → Sentinel → Bool
  is_nil_or none s = false
  is_nil_or (some e) s = is e s

  -- The `switch` of `requestSingle` on the error of the connection; `cerr` is `ctx.Err()`.
  unfoldable pub classify : Option E → String → ℤ → E → Requests → Requests × ImpError E
  unfolding is_nil_or
  classify cerr subject limit e m =
      if is e nats_no_responders
      then (mark_unanswered m, no_responders subject)
      else if is_nil_or cerr canceled || is e canceled
      then (m, passed e)
      else if is e deadline_exceeded
      then if is_nil_or cerr deadline_exceeded
        then (m, passed e)
        else (record m { timeouts = bump m.timeouts }, request_timeout subject limit)
      else (m, passed e)

  -- `requestSingle`
  unfoldable pub request_single :
      (ℤ → String → List ℕ → List ℕ × Option E)
      → Option E
      → Requests
      → ℤ
      → String
      → List ℕ
      → List (RequestOptions → RequestOptions)
      → Requests × List ℕ × Option (ImpError E)
  unfolding classify configure effective
  request_single call cerr m default subject payload opts =
      let m' : Requests = record m { calls = bump m.calls } in
      let cfg = configure opts (record { timeout = pos 0 }) in
      let limit = effective cfg.timeout default in
      let (got, err) = call limit subject payload in
      elim err [
        | none ↦ (m', got, none)
        | some e ↦ let (m2, out) = classify cerr subject limit e m' in (m2, [], some out)
      ]

-- What the `select` of `requestMany` can take: a message from the channel, with whether it carries a
-- status header, the closing of the channel, the end of the window, or the end of the context.
pub data Arrival (E : Type 0) : Type 0 where
  reply : Bool → List ℕ → Arrival E
  closed : Arrival E
  window_over : Arrival E
  context_done : E → Arrival E

-- What `requestMany` does to the connection.
pub data Action : Type 0 where
  subscribed unsubscribed : Action
  published : String → List ℕ → Action

module _ {E : Type 0} where
  -- The `for` loop; `none` while it waits for more than the list has.
  unfoldable pub collect : ℤ → List (List ℕ) → List (Arrival E) → Option (List (List ℕ) × Option E)
  collect max collected [] = none
  collect max collected (reply true body ∷ rest) = collect max collected rest
  collect max collected (reply false body ∷ rest) =
      let all = collected ++ body ∷ [] in
      let next = collect max all rest in
      if ltb_ℤ (pos 0) max && leb_ℤ max (pos (length all)) then some (all, none) else next
  collect max collected (closed ∷ rest) = some (collected, none)
  collect max collected (window_over ∷ rest) = some (collected, none)
  collect max collected (context_done e ∷ rest) = some (collected, some e)

  -- `requestMany`, with the errors of `ChanSubscribe` and `PublishMsg`, and what arrives in the
  -- window that it opens.
  unfoldable pub request_many :
      (E → Sentinel → Bool)
      → Option E
      → (String → List ℕ → Option E)
      → (ℤ → List (Arrival E))
      → Requests
      → ℤ
      → String
      → List ℕ
      → List (RequestManyOptions → RequestManyOptions)
      → Requests × List Action × Option (List (List ℕ) × Option (ImpError E))
  unfolding configure effective collect
  request_many is refused publish arrivals m default subject payload opts =
      let m' : Requests = record m { many_calls = bump m.many_calls } in
      let cfg = configure opts (record { window = pos 0; max = pos 0 }) in
      let got = collect cfg.max [] (arrivals (effective cfg.window default)) in
      elim refused [
        | some e ↦ (m', [], some ([], some (passed e)))
        | none ↦ elim (publish subject payload) [
          | some e ↦
              if is e nats_no_responders
              then (
                mark_unanswered m',
                subscribed ∷ unsubscribed ∷ [],
                some ([], some (no_responders subject)),
              )
              else (m', subscribed ∷ unsubscribed ∷ [], some ([], some (passed e)))
          | none ↦ elim got [
            | none ↦ (m', subscribed ∷ published subject payload ∷ [], none)
            | some (all, none) ↦
                (m', subscribed ∷ published subject payload ∷ unsubscribed ∷ [], some (all, none))
            | some (all, some e) ↦ (
              m',
              subscribed ∷ published subject payload ∷ unsubscribed ∷ [],
              some (all, some (passed e)),
            )
          ]
        ]
      ]
