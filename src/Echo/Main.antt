-- ===== src/Echo/Main.antt =====
-- examples/echo/main.go: `main`. What `nats.Connect` returns and the history of the imp are parameters;
-- an interrupt is the end of the context that `Run` waits on. `log.Fatalf` exits without the deferred
-- calls.
use imps.Base.{Option, none, some, List, [], ◌∷◌}
use imps.Errors.{ImpError}
use imps.Spec.{ImpSpec}
use imps.Consumer.{ConsumerConfig}
use imps.Options.{Configured, with_logger, new_imp}
use imps.Channels.{Substrate}
use imps.Imp.{
  Plan, Point, run_returned, down_returned, down_idle, panicked, Event, run_called, fresh, run,
}
use imps.Echo.{Value, echo_spec}

-- How the process ends, if it does; `blocked` is in `Run`.
pub data Exit (E : Type 0) : Type 0 where
  returned crashed blocked : Exit E
  fatal_connect : E → Exit E
  fatal_build fatal_run : ImpError E → Exit E

-- The deferred calls.
pub data Deferred : Type 0 where
  cancel drain : Deferred

-- What `bootRuntime`, `start` and `waitDrain` read of an imp that `NewImp` built.
abbrev pub plan_of :
    {Any E Aw Th On N H : Type 0}
    → Configured (ImpSpec Any E ConsumerConfig Aw Th On) N H
    → Plan Any E
plan_of i = record {
  name = i.spec.name;
  version = i.spec.version;
  states = i.spec.states;
  channels = i.spec.channels;
  request_timeout = i.opts.default_request_timeout;
  request_many_window = i.opts.default_request_many_window;
  drain_window = i.opts.drain_window;
}

-- The end of `main`, by where the call of `Run` stands.
unfoldable pub ran : {E : Type 0} → List (Point Value E) → List Deferred × Exit E
ran [] = ([], blocked)
ran (run_returned none ∷ _) = (cancel ∷ drain ∷ [], returned)
ran (run_returned (some e) ∷ _) = ([], fatal_run e)
ran (down_returned none ∷ _) = (cancel ∷ drain ∷ [], returned)
ran (down_returned (some e) ∷ _) = ([], fatal_run e)
ran (down_idle ∷ _) = (cancel ∷ drain ∷ [], returned)
ran (panicked ∷ _) = (cancel ∷ drain ∷ [], crashed)
ran _ = ([], blocked)

module _ {W E N H : Type 0} (w : Substrate E) (world : W) (discard stdout : H) where
  unfoldable pub main : Option N × Option E → List (Event W Value E) → List Deferred × Exit E
  unfolding ran
  main (nc, err) es = elim err [
    | some e ↦ ([], fatal_connect e)
    | none ↦
        let (imp, bad) = new_imp discard echo_spec nc (with_logger (some stdout) ∷ []) in
        elim bad [
          | some e ↦ ([], fatal_build e)
          | none ↦ elim imp [
            | none ↦ (cancel ∷ drain ∷ [], crashed)
            | some i ↦ ran (run w (plan_of i) world fresh (run_called ∷ es)).calls
          ]
        ]
  ]
