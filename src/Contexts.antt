-- ===== src/Contexts.antt =====
-- context_awareness.go and context_thinking.go: what an imp's callbacks are handed, over the state
-- that all of them share. The connection is a parameter: what it answers to each call, and what
-- arrives in a window. Awareness has no way to publish, to collect replies or to get the connection.
pub mod Code
pub mod Steps
pub mod Memory
use imps.Base.{ℕ, String, ℤ, Bool, Option, none, some, List}
use imps.Errors.{ImpError, passed, Sentinel}
use imps.Metrics.{Metrics}
use imps.Registry.{Registry, Ref, ref}
use imps.Request.{
  Requests, RequestOptions, RequestManyOptions, Arrival, Action, request_single, request_many,
}

-- `*nats.Conn`, as the contexts use it; `E` is the type of its errors.
pub record Connection (E : Type 0) : Type 0 where
  pub is : E → Sentinel → Bool
  pub request_with_context : ℤ → String → List ℕ → List ℕ × Option E
  pub chan_subscribe : Option E
  pub publish_msg : String → List ℕ → Option E
  pub arrivals : ℤ → List (Arrival E)
  pub publish : String → List ℕ → Option E

-- The registry and the counters behind a context.
pub record Surroundings (Any : Type 0) : Type 0 where
  pub registry : Registry Any
  pub requests : Requests
  pub metrics : Metrics

-- `type awarenessCtx struct`
pub record AwarenessCtx (E : Type 0) : Type 0 where
  pub conn : Connection E
  pub default_request_timeout : ℤ

-- `type thinkingCtx struct`
pub record ThinkingCtx (E : Type 0) : Type 0 where
  pub conn : Connection E
  pub default_request_timeout : ℤ
  pub default_request_many_window : ℤ

module _ {Any E : Type 0} where
  -- `State`, of both contexts.
  unfoldable pub state : String → String → Surroundings Any → Surroundings Any × Ref E
  state name entity s =
      let (r, result) = ref s.registry name entity in (record s { registry = r }, result)

  -- `Request` of the awareness context, with what the caller's context says of itself.
  unfoldable pub awareness_request :
      AwarenessCtx E
      → Option E
      → String
      → List ℕ
      → List (RequestOptions → RequestOptions)
      → Surroundings Any
      → Surroundings Any × List ℕ × Option (ImpError E)
  awareness_request a cerr subject payload opts s =
      let limit = a.default_request_timeout in
      let call = a.conn.request_with_context in
      let (m, reply, err) =
        request_single a.conn.is call cerr s.requests limit subject payload opts in
      (record s { requests = m }, reply, err)

  -- `Request` of the thinking context.
  unfoldable pub thinking_request :
      ThinkingCtx E
      → Option E
      → String
      → List ℕ
      → List (RequestOptions → RequestOptions)
      → Surroundings Any
      → Surroundings Any × List ℕ × Option (ImpError E)
  thinking_request t cerr subject payload opts s =
      let limit = t.default_request_timeout in
      let call = t.conn.request_with_context in
      let (m, reply, err) =
        request_single t.conn.is call cerr s.requests limit subject payload opts in
      (record s { requests = m }, reply, err)

  -- `RequestMany`, with what it does to the connection; `none` while it waits.
  unfoldable pub thinking_request_many :
      ThinkingCtx E
      → String
      → List ℕ
      → List (RequestManyOptions → RequestManyOptions)
      → Surroundings Any
      → Surroundings Any × List Action × Option (List (List ℕ) × Option (ImpError E))
  thinking_request_many t subject payload opts s =
      let k = t.conn in
      let window = t.default_request_many_window in
      let (m, acts, out) =
        request_many k.is k.chan_subscribe k.publish_msg k.arrivals s.requests window subject
          payload opts in
      (record s { requests = m }, acts, out)

  -- `InFlight`
  unfoldable pub in_flight : ThinkingCtx E → Surroundings Any → ℤ
  in_flight t s = s.metrics.inflight_thinking

module _ {E : Type 0} where
  -- `Publish`
  unfoldable pub publish : ThinkingCtx E → String → List ℕ → Option (ImpError E)
  publish t subject payload = elim (t.conn.publish subject payload) [
    | none ↦ none
    | some e ↦ some (passed e)
  ]

  -- `Conn`
  unfoldable pub conn : ThinkingCtx E → Connection E
  conn t = t.conn
