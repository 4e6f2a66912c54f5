-- ===== src/Errors.antt =====
-- errors.go and state.go: the typed errors of the framework. `E` is the type of the `error` values
-- that come from elsewhere (NATS, JetStream, callbacks), and `errors.Is` on those is a parameter.
use imps.Base.{String, ◌<>◌, ℤ, Bool, true, false}

pub data ImpError (E : Type 0) : Type 0 where
  spec_invalid : String → String → ImpError E
  duplicate_state_shape : String → ImpError E
  config_invalid : String → String → ImpError E
  stream_not_found : String → ImpError E
  consumer_incompatible : String → String → ImpError E
  subscription_failed : String → E → ImpError E
  no_responders : String → ImpError E
  request_timeout : String → ℤ → ImpError E
  unknown_state_shape : String → ImpError E
  cap_exceeded : String → ℤ → ImpError E
  -- an error from elsewhere, returned as it is
  passed : E → ImpError E
  -- `errors.New`, and `fmt.Errorf` with `%w`
  message : String → ImpError E
  wrapped : String → E → ImpError E
  -- `errors.Join(context.DeadlineExceeded, …)`
  drain_exceeded : ImpError E

-- The sentinel values that the code passes to `errors.Is`.
pub data Sentinel : Type 0 where
  nats_no_responders : Sentinel
  canceled : Sentinel
  deadline_exceeded : Sentinel
  js_stream_not_found : Sentinel
  js_consumer_not_found : Sentinel
  js_key_not_found : Sentinel
  persist_not_found : Sentinel

abbrev is_deadline : Sentinel → Bool
is_deadline deadline_exceeded = true
is_deadline _ = false

-- `errors.Is` on the framework's own errors, through their `Unwrap` methods.
unfoldable pub is_error : {E : Type 0} → (E → Sentinel → Bool) → ImpError E → Sentinel → Bool
is_error is_foreign (subscription_failed _ cause) s = is_foreign cause s
is_error is_foreign (request_timeout _ _) s = is_deadline s
is_error is_foreign (passed e) s = is_foreign e s
is_error is_foreign (wrapped _ e) s = is_foreign e s
is_error is_foreign drain_exceeded s = is_deadline s
is_error is_foreign _ s = false

-- What the `Error` methods print with: `strconv.Quote`, which `%q` is too, integers, durations, the
-- text of `context.DeadlineExceeded`, and the errors from elsewhere.
pub record Printer (E : Type 0) : Type 0 where
  pub quote : String → String
  pub decimal : ℤ → String
  pub duration : ℤ → String
  pub deadline : String
  pub foreign : E → String

-- The `Error` methods of state.go.
abbrev pub unknown_state_shape_text : {E : Type 0} → Printer E → String → String
unknown_state_shape_text p shape = "imps: unknown state shape " <> p.quote shape

abbrev pub cap_exceeded_text : {E : Type 0} → Printer E → String → ℤ → String
cap_exceeded_text p shape count =
    "imps: state shape " <> (p.quote shape <> (" cap exceeded (" <> (p.decimal count <> ")")))

-- `Error`; `errors.Join` writes one text to a line.
unfoldable pub error_text : {E : Type 0} → Printer E → ImpError E → String
error_text p (spec_invalid field reason) =
    "imps: spec invalid: field " <> (p.quote field <> (": " <> reason))
error_text p (duplicate_state_shape shape) = "imps: duplicate state shape " <> p.quote shape
error_text p (config_invalid field reason) =
    "imps: config invalid: field " <> (p.quote field <> (": " <> reason))
error_text p (stream_not_found stream) = "imps: stream " <> (p.quote stream <> " not found")
error_text p (consumer_incompatible consumer diff) =
    "imps: consumer " <> (p.quote consumer <> (" incompatible: " <> diff))
error_text p (subscription_failed subject cause) =
    "imps: subscription to " <> (p.quote subject <> (" failed: " <> p.foreign cause))
error_text p (no_responders subject) = "imps: no responders for subject " <> p.quote subject
error_text p (request_timeout subject timeout) =
    "imps: request timeout: subject " <> (p.quote subject <> (" exceeded " <> p.duration timeout))
error_text p (unknown_state_shape shape) = unknown_state_shape_text p shape
error_text p (cap_exceeded shape count) = cap_exceeded_text p shape count
error_text p (passed e) = p.foreign e
error_text p (message text) = text
error_text p (wrapped text e) = text <> (": " <> p.foreign e)
error_text p drain_exceeded = p.deadline <> "\nimps: drain window exceeded"
