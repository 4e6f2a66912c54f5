-- ===== src/Imp/Booted.antt =====
-- imp.go: what of a runtime no call and no message moves.
use imps.Base.{pos, ◌≤ℤ◌, none, some, List, [], ◌∷◌, ◌≡◌, arith, Option-cases, inl, inr, get_elem?}
use imps.Channels.{Substrate}
use imps.Imp.{
  Plan, Runtime, Shared, Point, run_entering, run_booted, run_binding, run_failing,
  run_rolling_back, run_ready, run_waiting, down_selecting, Choice, outside, inside, advance,
  boot_runtime, new_runtime, Life, Event, run_called, shutdown_called, turn, happens, waiter_moves,
  passes, aside, step, run,
}

module _ {W Any E : Type 0} (w : Substrate E) (plan : Plan Any E) (world : W) where
  -- What `bootRuntime` checked and put into the runtime.
  pub record AsBooted (rt : Runtime W Any E) : Type 0 where
    pub named : rt.identity ≡ (plan.name, plan.version)
    pub timeout : rt.request_timeout ≡ plan.request_timeout
    pub window : rt.request_many_window ≡ plan.request_many_window
    pub timeout_positive : pos 1 ≤ℤ plan.request_timeout
    pub window_positive : pos 1 ≤ℤ plan.request_many_window

  abbrev pub Booted : Shared W Any E → Type 0
  Booted sh = elim sh.runtime [ none ↦ Unit {0} | some rt ↦ AsBooted rt ]

  advance-Booted :
      (ch : Choice) (p : Point Any E) (sh : Shared W Any E)
      → Booted sh
      → Booted (advance w plan world ch p sh).0
  unfolding advance boot_runtime new_runtime
  advance-Booted ch run_entering sh h = ground arith
  advance-Booted ch run_booted sh h = ground arith
  advance-Booted ch (run_binding []) sh h = ground arith
  advance-Booted ch (run_binding (c ∷ cs)) sh h = ground arith
  advance-Booted ch (run_failing e) sh h = ground arith
  advance-Booted ch (run_rolling_back e) sh h = ground arith
  advance-Booted ch run_ready sh h = ground arith
  advance-Booted outside run_waiting sh h = ground arith
  advance-Booted inside run_waiting sh h = ground arith
  advance-Booted outside down_selecting sh h = ground arith
  advance-Booted inside down_selecting sh h = ground arith
  advance-Booted ch p sh h = ground arith

  step-Booted :
      (l : Life W Any E) (e : Event W Any E)
      → Booted l.shared
      → Booted (step w plan world l e).shared
  unfolding step aside
  step-Booted l run_called h = h
  step-Booted l shutdown_called h = h
  step-Booted l (happens e) h = ground arith
  step-Booted l waiter_moves h = ground arith
  step-Booted l (passes d) h = ground arith
  step-Booted l (turn i ch) h = elim (Option-cases (get_elem? l.calls i)) [
    | inl q ↦ rw (step, q) h
    | inr (p, q) ↦ rw (step, q) (advance-Booted ch p l.shared h)
  ]

  pub run-Booted :
      (l : Life W Any E) (es : List (Event W Any E))
      → Booted l.shared
      → Booted (run w plan world l es).shared
  unfolding run
  run-Booted l [] h = h
  run-Booted l (e ∷ es) h = run-Booted (step w plan world l e) es (step-Booted l e h)
