-- ===== src/Imp/Limits.antt =====
-- The contexts of imp.go's `bootRuntime`, and how long their requests wait.
use imps.Base.{ℕ, String, ℤ, pos, ◌≤ℤ◌, Option, some, List, ◌≡◌, refl, arith}
use imps.Channels.{Substrate}
use imps.Request.{
  Requests, RequestOptions, RequestManyOptions, effective, configure, request_single, request_many,
}
use imps.Contexts.{
  Connection, Surroundings, AwarenessCtx, ThinkingCtx, awareness_request, thinking_request,
  thinking_request_many,
}
use imps.Imp.Booted.{AsBooted, run-Booted}
use imps.Imp.{Plan, Runtime, Event, fresh, run}

module _ {W Any E : Type 0} where
  -- `rt.awareness` and `rt.thinking`
  unfoldable pub awareness_of : Connection E → Runtime W Any E → AwarenessCtx E
  awareness_of nc rt = record { conn = nc; default_request_timeout = rt.request_timeout }

  unfoldable pub thinking_of : Connection E → Runtime W Any E → ThinkingCtx E
  thinking_of nc rt = record {
    conn = nc;
    default_request_timeout = rt.request_timeout;
    default_request_many_window = rt.request_many_window;
  }

effective-positive : (own default : ℤ) → pos 1 ≤ℤ default → pos 1 ≤ℤ effective own default
unfolding effective
effective-positive own default h = ground arith

module _ {E : Type 0} where
  -- A connection that answers otherwise, but alike if it is given a positive time.
  pub record Alike (nc nc' : Connection E) : Type 0 where
    pub is_same : nc'.is ≡ nc.is
    pub subscribes : nc'.chan_subscribe ≡ nc.chan_subscribe
    pub publishes : nc'.publish_msg ≡ nc.publish_msg
    pub requests :
        (limit : ℤ) (subject : String) (payload : List ℕ)
        → pos 1 ≤ℤ limit
        → nc'.request_with_context limit subject payload
          ≡ nc.request_with_context limit subject payload
    pub windows : (window : ℤ) → pos 1 ≤ℤ window → nc'.arrivals window ≡ nc.arrivals window

  module _ (nc nc' : Connection E) (alike : Alike nc nc') (default : ℤ)
      (long : pos 1 ≤ℤ default) where
    request_single-Alike :
        (cerr : Option E) (m : Requests) (subject : String) (payload : List ℕ)
        (opts : List (RequestOptions → RequestOptions))
        → request_single nc'.is nc'.request_with_context cerr m default subject payload opts
          ≡ request_single nc.is nc.request_with_context cerr m default subject payload opts
    unfolding request_single
    request_single-Alike cerr m subject payload opts =
        let own = (configure opts (record { timeout = pos 0 })).timeout in
        let asked =
          alike.requests (effective own default) subject payload
            (effective-positive own default long) in
        ground (arith, alike.is_same, asked)

    request_many-Alike :
        (m : Requests) (subject : String) (payload : List ℕ)
        (opts : List (RequestManyOptions → RequestManyOptions))
        → request_many nc'.is nc'.chan_subscribe nc'.publish_msg nc'.arrivals m default subject
            payload opts
          ≡ request_many nc.is nc.chan_subscribe nc.publish_msg nc.arrivals m default subject
              payload opts
    unfolding request_many
    request_many-Alike m subject payload opts =
        let own = (configure opts (record { window = pos 0; max = pos 0 })).window in
        let seen = alike.windows (effective own default) (effective-positive own default long) in
        ground (arith, alike.is_same, alike.subscribes, alike.publishes, seen)

module _ {W Any E : Type 0} (w : Substrate E) (plan : Plan Any E) (world : W) where
  -- In whatever state an imp that has a runtime is, and whatever the options of a request: Request of
  -- either context and RequestMany do not depend on what the connection does with a time that is not
  -- positive, so they never ask it to wait for none.
  pub run-limits :
      (es : List (Event W Any E)) (rt : Runtime W Any E) (nc nc' : Connection E) (cerr : Option E)
      (subject : String) (payload : List ℕ) (opts : List (RequestOptions → RequestOptions))
      (many : List (RequestManyOptions → RequestManyOptions)) (s : Surroundings Any)
      → (run w plan world fresh es).shared.runtime ≡ some rt
      → Alike nc nc'
      → (awareness_request (awareness_of nc' rt) cerr subject payload opts s
          ≡ awareness_request (awareness_of nc rt) cerr subject payload opts s)
        × (thinking_request (thinking_of nc' rt) cerr subject payload opts s
            ≡ thinking_request (thinking_of nc rt) cerr subject payload opts s)
        × (thinking_request_many (thinking_of nc' rt) subject payload many s
            ≡ thinking_request_many (thinking_of nc rt) subject payload many s)
  unfolding awareness_request thinking_request thinking_request_many awareness_of thinking_of
  run-limits es rt nc nc' cerr subject payload opts many s q alike =
      let h = run-Booted w plan world fresh es tt in
      let k : AsBooted w plan world rt = ground (arith, h) in
      let timeout : pos 1 ≤ℤ rt.request_timeout = ground (arith, k.timeout, k.timeout_positive) in
      let window : pos 1 ≤ℤ rt.request_many_window = ground (arith, k.window, k.window_positive) in
      let single =
        request_single-Alike nc nc' alike rt.request_timeout timeout cerr s.requests subject payload
          opts in
      let several =
        request_many-Alike nc nc' alike rt.request_many_window window s.requests subject payload
          many in
      (rw single refl, rw single refl, rw several refl)
