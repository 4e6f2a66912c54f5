-- ===== src/Imp/Single.antt =====
-- imp.go: the compare-and-swap of `Run`.
use imps.Base.{
  ℕ, ◌+◌, ◌≤◌, true, none, some, List, [], ◌∷◌, ◌≡◌, refl, arith, ◌⊎◌, inl, inr, Option-cases,
  get_elem?, total, total-set, total-snoc,
}
use imps.Channels.{Substrate}
use imps.Lifecycle.{created}
use imps.Imp.{
  Plan, Shared, Point, run_entering, run_booted, run_binding, run_failing, run_rolling_back,
  run_ready, run_waiting, down_entering, down_selecting, Choice, outside, inside, advance,
  boot_runtime, new_runtime, Life, Event, run_called, shutdown_called, turn, happens, waiter_moves,
  passes, aside, fresh, step, run,
}

module _ {Any E : Type 0} where
  -- A call of `Run` that has started the imp and has not left its `select`.
  abbrev pub begun : Point Any E → ℕ
  begun p = elim p [
    | run_binding _ ↦ 1
    | run_failing _ ↦ 1
    | run_rolling_back _ ↦ 1
    | run_ready ↦ 1
    | run_waiting ↦ 1
    | _ ↦ 0
  ]

module _ {W Any E : Type 0} where
  -- Whether an imp can be started still.
  abbrev startable : Shared W Any E → ℕ
  startable sh = elim sh.runtime [ none ↦ 1 | some rt ↦ elim rt.machine [ created ↦ 1 | _ ↦ 0 ] ]

  -- A runtime is made under `rtOnce`.
  abbrev pub Guarded : Shared W Any E → Type 0
  Guarded sh = (sh.once ≡ true) ⊎ (sh.runtime ≡ none)

  abbrev OnlyOne : Life W Any E → Type 0
  OnlyOne l = (total begun l.calls + startable l.shared ≤ 1) × Guarded l.shared

module _ {W Any E : Type 0} (w : Substrate E) (plan : Plan Any E) (world : W) where
  begun-advance :
      (ch : Choice) (p : Point Any E) (sh : Shared W Any E)
      → Guarded sh
      → begun (advance w plan world ch p sh).1 + startable (advance w plan world ch p sh).0
        ≤ begun p + startable sh
  unfolding advance boot_runtime new_runtime
  begun-advance ch run_entering sh h = ground arith
  begun-advance ch run_booted sh h = ground arith
  begun-advance ch (run_binding []) sh h = ground arith
  begun-advance ch (run_binding (c ∷ cs)) sh h = ground arith
  begun-advance ch (run_failing e) sh h = ground arith
  begun-advance ch (run_rolling_back e) sh h = ground arith
  begun-advance ch run_ready sh h = ground arith
  begun-advance outside run_waiting sh h = ground arith
  begun-advance inside run_waiting sh h = ground arith
  begun-advance outside down_selecting sh h = ground arith
  begun-advance inside down_selecting sh h = ground arith
  begun-advance ch p sh h = ground arith

  pub advance-Guarded :
      (ch : Choice) (p : Point Any E) (sh : Shared W Any E)
      → Guarded sh
      → Guarded (advance w plan world ch p sh).0
  unfolding advance boot_runtime new_runtime
  advance-Guarded ch run_entering sh h = ground arith
  advance-Guarded ch run_booted sh h = ground arith
  advance-Guarded ch (run_binding []) sh h = ground arith
  advance-Guarded ch (run_binding (c ∷ cs)) sh h = ground arith
  advance-Guarded ch (run_failing e) sh h = ground arith
  advance-Guarded ch (run_rolling_back e) sh h = ground arith
  advance-Guarded ch run_ready sh h = ground arith
  advance-Guarded outside run_waiting sh h = ground arith
  advance-Guarded inside run_waiting sh h = ground arith
  advance-Guarded outside down_selecting sh h = ground arith
  advance-Guarded inside down_selecting sh h = ground arith
  advance-Guarded ch p sh h = ground arith

  step-OnlyOne :
      (l : Life W Any E) (e : Event W Any E) → OnlyOne l → OnlyOne (step w plan world l e)
  unfolding step aside
  step-OnlyOne l run_called h = ground (arith, total-snoc begun l.calls run_entering)
  step-OnlyOne l shutdown_called h = ground (arith, total-snoc begun l.calls down_entering)
  step-OnlyOne l (happens e) h = ground arith
  step-OnlyOne l waiter_moves h = ground arith
  step-OnlyOne l (passes d) h = ground arith
  step-OnlyOne l (turn i ch) h = elim (Option-cases (get_elem? l.calls i)) [
    | inl q ↦ rw (step, q) h
    | inr (p, q) ↦
        let r = advance w plan world ch p l.shared in
        rw (step, q)
          (ground (
            arith,
            begun-advance ch p l.shared h.1,
            advance-Guarded ch p l.shared h.1,
            total-set begun l.calls i r.1 q,
          ))
  ]

  run-OnlyOne :
      (l : Life W Any E) (es : List (Event W Any E)) → OnlyOne l → OnlyOne (run w plan world l es)
  unfolding run
  run-OnlyOne l [] h = h
  run-OnlyOne l (e ∷ es) h = run-OnlyOne (step w plan world l e) es (step-OnlyOne l e h)

  -- However calls of Run and Shutdown interleave, with each other and with messages, at most one
  -- call of Run has started the imp.
  pub run_single : (es : List (Event W Any E)) → total begun (run w plan world fresh es).calls ≤ 1
  unfolding total
  run_single es = ground (arith, run-OnlyOne fresh es (ground arith, inr refl))
