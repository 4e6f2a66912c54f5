-- ===== src/Options.antt =====
-- options.go, and `NewImp` of imp.go. `H` is the type of log handlers; durations are nanoseconds.
use imps.Base.{ℤ, pos, Option, none, some, List}
use imps.Errors.{ImpError, config_invalid}
use imps.Spec.{ImpSpec}
use imps.Request.{configure}
use imps.Validate.{validate_spec}

-- `type runtimeOptions`
pub record RuntimeOptions (H : Type 0) : Type 0 where
  pub drain_window : ℤ
  pub log_handler : H
  pub default_request_timeout : ℤ
  pub default_request_many_window : ℤ

module _ {H : Type 0} where
  -- `defaultRuntimeOptions`, with the handler that discards.
  unfoldable pub default_runtime_options : H → RuntimeOptions H
  default_runtime_options discard = record {
    drain_window = pos 30000000000;
    log_handler = discard;
    default_request_timeout = pos 5000000000;
    default_request_many_window = pos 1000000000;
  }

  -- `WithDrainWindow`
  unfoldable pub with_drain_window : ℤ → RuntimeOptions H → RuntimeOptions H
  with_drain_window d o = record o { drain_window = d }

  -- `WithLogger`; `none` is a nil handler.
  unfoldable pub with_logger : Option H → RuntimeOptions H → RuntimeOptions H
  with_logger none o = o
  with_logger (some h) o = record o { log_handler = h }

  -- `WithDefaultRequestTimeout`
  unfoldable pub with_default_request_timeout : ℤ → RuntimeOptions H → RuntimeOptions H
  with_default_request_timeout d o = record o { default_request_timeout = d }

  -- `WithDefaultRequestManyWindow`
  unfoldable pub with_default_request_many_window : ℤ → RuntimeOptions H → RuntimeOptions H
  with_default_request_many_window d o = record o { default_request_many_window = d }

-- The fields of `type Imp` that `NewImp` sets.
pub record Configured (Spec N H : Type 0) : Type 0 where
  pub spec : Spec
  pub nc : N
  pub opts : RuntimeOptions H

-- `NewImp`; a nil connection is `none`.
unfoldable pub new_imp :
    {Any E C Aw Th On N H : Type 0}
    → H
    → ImpSpec Any E C Aw Th On
    → Option N
    → List (RuntimeOptions H → RuntimeOptions H)
    → Option (Configured (ImpSpec Any E C Aw Th On) N H) × Option (ImpError E)
unfolding configure default_runtime_options
new_imp discard spec none opts = (none, some (config_invalid "nats.Conn" "nil"))
new_imp discard spec (some nc) opts = elim (validate_spec spec) [
  | some e ↦ (none, some e)
  | none ↦ (
    some (record { spec = spec; nc = nc; opts = configure opts (default_runtime_options discard) }),
    none,
  )
]
