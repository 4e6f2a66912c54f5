-- ===== src/Imp.antt =====
-- imp.go: the life of an imp under any number of calls of `Run` and `Shutdown`, one step at each
-- access to what they share, between the messages, the thinking goroutines, the goroutine of
-- `waitDrain` and the passing of time. `sync.Once` and its body in `bootRuntime` are one step, as are
-- one bind of a channel and one `unwind`, and the `go` of `waitDrain` with its `time.After`.
pub mod Single
pub mod Agreement
pub mod Awaited
pub mod Drain
pub mod Faults
pub mod Unbooted
pub mod Session
pub mod Booted
pub mod Reports
pub mod Limits
pub mod Steps
pub mod Alone
use imps.Base.{
  ℕ, String, ◌<>◌, ℤ, pos, leb_ℤ, eqb_ℤ, eqb, Bool, true, false, ◌||◌, Option, none, some, List, [],
  ◌∷◌, ◌++◌, if◌then◌else◌, get_elem?, set, ◌+◌, ◌&&◌,
}
use imps.Errors.{ImpError, config_invalid, message, drain_exceeded}
use imps.Spec.{ChannelSpec, StateShape}
use imps.Registry.{Registry, new_registry}
use imps.Consumer.{ConsumerConfig}
use imps.Channels.{Substrate, Bindings, unbound, bind_source}
use imps.Channels.Teardown.{unwind}
use imps.Dispatch.{Harness}
use imps.Dispatch.Gauge.{idle, step as happen, Event as Happening}
use imps.Lifecycle.{
  State, created, starting, running, draining, stopped, failed, new_machine, to_string,
  compare_and_swap,
}

-- What `bootRuntime`, `start` and `waitDrain` read of the `Imp`; durations are nanoseconds.
pub record Plan (Any E : Type 0) : Type 0 where
  pub name : String
  pub version : String
  pub states : List (StateShape Any)
  pub channels : List (ChannelSpec Any E ConsumerConfig)
  pub request_timeout : ℤ
  pub request_many_window : ℤ
  pub drain_window : ℤ

-- `type runtime`; `thinking` is what the dispatch path moves, and `drained` the error of `shutdownErr`.
-- Of `waitDrain`: whether its goroutine and its timer were started, the time since, and whether
-- `done` is closed.
pub record Runtime (W Any E : Type 0) : Type 0 where
  pub registry : Registry Any
  pub identity : String × String
  pub request_timeout : ℤ
  pub request_many_window : ℤ
  pub machine : State
  pub bindings : Bindings Any E
  pub thinking : Harness W Any
  pub cancelled : Bool
  pub taken : Bool
  pub drained : Option (ImpError E)
  pub awaited : Bool
  pub elapsed : ℕ
  pub done : Bool
  pub closed : Bool

-- The fields of `type Imp` that calls share: `rtOnce` and `rtPtr`.
pub record Shared (W Any E : Type 0) : Type 0 where
  pub once : Bool
  pub runtime : Option (Runtime W Any E)

-- Where a call of `Run` or of `Shutdown` stands.
pub data Point (Any E : Type 0) : Type 0 where
  -- `Run`: before `bootRuntime`; before the compare-and-swap; in `start`, with the channels left
  run_entering run_booted : Point Any E
  run_binding : List (ChannelSpec Any E ConsumerConfig) → Point Any E
  -- `start` failed: before `Set(StateFailed)`, and before `unwind`
  run_failing run_rolling_back : ImpError E → Point Any E
  -- before `Set(StateRunning)`, and in the `select`
  run_ready run_waiting : Point Any E
  run_returned : Option (ImpError E) → Point Any E
  panicked : Point Any E
  -- `Shutdown`: before `Do`; before `Set(StateDraining)`, `unwind`, `thinkingCancel` and `waitDrain`
  down_entering down_taken down_draining down_unwound down_cancelled : Point Any E
  -- in the `select` of `waitDrain`
  down_selecting : Point Any E
  -- before `Set(StateStopped)`, and before `close`
  down_drained down_stopped : Point Any E
  -- before `<-rt.stopped`
  down_waiting : Point Any E
  down_returned : Option (ImpError E) → Point Any E
  -- returned nil because nothing was started
  down_idle : Point Any E

-- What a `select` takes: in `Run`, the end of the context or the closed channel; in `waitDrain`, the
-- timer or the channel `done`.
pub data Choice : Type 0 where
  outside inside : Choice

module _ {W Any E : Type 0} where
  -- `Imp.runtime()`, dereferenced.
  abbrev pub with_runtime :
      Shared W Any E
      → (Runtime W Any E → Runtime W Any E × Point Any E)
      → Shared W Any E × Point Any E
  with_runtime sh f = elim sh.runtime [
    | none ↦ (sh, panicked)
    | some rt ↦ let (rt', p) = f rt in (record sh { runtime = some rt' }, p)
  ]

module _ {W Any E : Type 0} (w : Substrate E) (plan : Plan Any E) (world : W) where
  -- The runtime that `bootRuntime` stores.
  unfoldable pub new_runtime : Runtime W Any E
  new_runtime = record {
    registry = new_registry plan.states;
    identity = (plan.name, plan.version);
    request_timeout = plan.request_timeout;
    request_many_window = plan.request_many_window;
    machine = new_machine;
    bindings = unbound;
    thinking = idle world;
    cancelled = false;
    taken = false;
    drained = none;
    awaited = false;
    elapsed = 0;
    done = false;
    closed = false;
  }

  -- `bootRuntime`
  unfoldable pub boot_runtime : Shared W Any E → Shared W Any E × Option (ImpError E)
  boot_runtime sh =
      if sh.once
      then (sh, none)
      else if leb_ℤ plan.request_timeout (pos 0)
      then (
        record sh { once = true },
        some (config_invalid "default_request_timeout" "non-positive"),
      )
      else if leb_ℤ plan.request_many_window (pos 0)
      then (
        record sh { once = true },
        some (config_invalid "default_request_many_window" "non-positive"),
      )
      else (record { once = true; runtime = some new_runtime }, none)

  -- The next step of a call.
  unfoldable pub advance : Choice → Point Any E → Shared W Any E → Shared W Any E × Point Any E
  advance ch run_entering sh =
      let (sh', err) = boot_runtime sh in
      elim err [ some e ↦ (sh', run_returned (some e)) | none ↦ (sh', run_booted) ]
  advance ch run_booted sh = with_runtime sh λ rt.
      let (s, swapped) = compare_and_swap rt.machine created starting in
      if swapped then (record rt { machine = s }, run_binding plan.channels) else (
        rt,
        run_returned
            (some (message (("imps: Run already invoked (state " <> to_string rt.machine) <> ")"))),
      )
  advance ch (run_binding []) sh = (sh, run_ready)
  advance ch (run_binding (c ∷ cs)) sh = with_runtime sh λ rt.
      let (b, err) = bind_source w c c.source rt.bindings in
      (record rt { bindings = b }, elim err [ some e ↦ run_failing e | none ↦ run_binding cs ])
  advance ch (run_failing e) sh =
      with_runtime sh λ rt. (record rt { machine = failed }, run_rolling_back e)
  advance ch (run_rolling_back e) sh =
      with_runtime sh λ rt. (record rt { bindings = unwind w rt.bindings }, run_returned (some e))
  advance ch run_ready sh = with_runtime sh λ rt. (record rt { machine = running }, run_waiting)
  advance outside run_waiting sh = (sh, down_entering)
  advance inside run_waiting sh =
      with_runtime sh λ rt. (rt, if rt.closed then run_returned rt.drained else run_waiting)
  advance ch down_entering sh = elim sh.runtime [
    | none ↦ (sh, down_idle)
    | some rt ↦
        if rt.taken
        then (sh, down_waiting)
        else (record sh { runtime = some (record rt { taken = true }) }, down_taken)
  ]
  advance ch down_taken sh = with_runtime sh λ rt. (record rt { machine = draining }, down_draining)
  advance ch down_draining sh =
      with_runtime sh λ rt. (record rt { bindings = unwind w rt.bindings }, down_unwound)
  advance ch down_unwound sh =
      with_runtime sh λ rt. (record rt { cancelled = true }, down_cancelled)
  advance ch down_cancelled sh =
      with_runtime sh λ rt. (record rt { awaited = true }, down_selecting)
  advance outside down_selecting sh = with_runtime sh λ rt.
      if leb_ℤ plan.drain_window (pos rt.elapsed)
      then (record rt { drained = some drain_exceeded }, down_drained)
      else (rt, down_selecting)
  advance inside down_selecting sh =
      with_runtime sh
        λ rt. if rt.done then (record rt { drained = none }, down_drained) else (rt, down_selecting)
  advance ch down_drained sh = with_runtime sh λ rt. (record rt { machine = stopped }, down_stopped)
  advance ch down_stopped sh = with_runtime sh λ rt. (record rt { closed = true }, down_waiting)
  advance ch down_waiting sh =
      with_runtime sh λ rt. (rt, if rt.closed then down_returned rt.drained else down_waiting)
  advance ch p sh = (sh, p)

-- An imp with the calls on it.
pub record Life (W Any E : Type 0) : Type 0 where
  pub shared : Shared W Any E
  pub calls : List (Point Any E)

-- A goroutine calls `Run` or `Shutdown`, the scheduler moves a call, the dispatch path moves, the
-- goroutine of `waitDrain` moves, or time passes.
pub data Event (W Any E : Type 0) : Type 0 where
  run_called shutdown_called : Event W Any E
  turn : ℕ → Choice → Event W Any E
  happens : Happening W Any E → Event W Any E
  waiter_moves : Event W Any E
  passes : ℕ → Event W Any E

module _ {W Any E : Type 0} where
  abbrev pub fresh : Life W Any E
  fresh = record { shared = record { once = false; runtime = none }; calls = [] }

  -- What moves besides the calls, once there is a runtime.
  unfoldable pub aside : (Runtime W Any E → Runtime W Any E) → Shared W Any E → Shared W Any E
  aside f sh = elim sh.runtime [ none ↦ sh | some rt ↦ record sh { runtime = some (f rt) } ]

  -- `rt.thinkingWG.Wait()` returns when the counter is zero, and `done` is closed.
  abbrev pub after_wait : Runtime W Any E → Runtime W Any E
  after_wait rt = record rt { done = rt.done || (rt.awaited && eqb_ℤ rt.thinking.waiting (pos 0)) }

  abbrev pub after_time : ℕ → Runtime W Any E → Runtime W Any E
  after_time d rt = record rt { elapsed = if rt.awaited then rt.elapsed + d else rt.elapsed }

module _ {W Any E : Type 0} (w : Substrate E) (plan : Plan Any E) (world : W) where
  unfoldable pub step : Life W Any E → Event W Any E → Life W Any E
  unfolding aside
  step l run_called = record l { calls = l.calls ++ run_entering ∷ [] }
  step l shutdown_called = record l { calls = l.calls ++ down_entering ∷ [] }
  step l (turn i ch) = elim (get_elem? l.calls i) [
    | none ↦ l
    | some p ↦
        let (sh, p') = advance w plan world ch p l.shared in
        record { shared = sh; calls = set l.calls i p' }
  ]
  step l (happens e) = record l {
    shared = aside (λ rt. record rt { thinking = happen rt.thinking e }) l.shared;
  }
  step l waiter_moves = record l { shared = aside after_wait l.shared }
  step l (passes d) = record l { shared = aside (after_time d) l.shared }

  unfoldable pub run : Life W Any E → List (Event W Any E) → Life W Any E
  run l [] = l
  run l (e ∷ es) = run (step l e) es
