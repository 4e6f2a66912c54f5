-- ===== src/Imp/Awaited.antt =====
-- imp.go: the goroutine of `waitDrain`, and the thinking goroutines that it waits for.
use imps.Base.{
  pos, Bool, true, false, none, some, List, [], ◌∷◌, ◌++◌, ◌≡◌, refl, ap, arith, inl, inr,
  Bool-cases, Option-cases, get_elem?, total, length, eqb_ℤ,
}
use imps.Channels.{Substrate}
use imps.Dispatch.Gauge.{Gauged, step-Gauged}
use imps.Imp.{
  Plan, Runtime, Shared, Point, run_entering, run_booted, run_binding, run_failing,
  run_rolling_back, run_ready, run_waiting, down_selecting, Choice, outside, inside, advance,
  boot_runtime, new_runtime, Life, Event, run_called, shutdown_called, turn, happens, waiter_moves,
  passes, aside, step, run,
}

module _ {W Any E : Type 0} where
  -- The counter of `thinkingWG` is that of the goroutines.
  abbrev pub Metered : Shared W Any E → Type 0
  Metered sh = elim sh.runtime [ none ↦ Unit {0} | some rt ↦ Gauged rt.thinking ]

  -- Whether `done` is closed.
  abbrev pub is_done : Shared W Any E → Bool
  is_done sh = elim sh.runtime [ none ↦ false | some rt ↦ rt.done ]

  -- `waitDrain` has begun, and no thinking goroutine is left.
  abbrev pub Idle : Shared W Any E → Type 0
  Idle sh =
      (rt : Runtime W Any E) × (sh.runtime ≡ some rt)
      × (rt.awaited ≡ true)
      × (rt.thinking.running ≡ [])

zero_length : {A : Type 0} (xs : List A) → eqb_ℤ (pos (length xs)) (pos 0) ≡ true → xs ≡ []
zero_length [] h = refl
zero_length (x ∷ xs) h = ground arith

module _ {W Any E : Type 0} (w : Substrate E) (plan : Plan Any E) (world : W) where
  advance-Metered :
      (ch : Choice) (p : Point Any E) (sh : Shared W Any E)
      → Metered sh
      → Metered (advance w plan world ch p sh).0
  unfolding advance boot_runtime new_runtime total
  advance-Metered ch run_entering sh h = ground arith
  advance-Metered ch run_booted sh h = ground arith
  advance-Metered ch (run_binding []) sh h = ground arith
  advance-Metered ch (run_binding (c ∷ cs)) sh h = ground arith
  advance-Metered ch (run_failing e) sh h = ground arith
  advance-Metered ch (run_rolling_back e) sh h = ground arith
  advance-Metered ch run_ready sh h = ground arith
  advance-Metered outside run_waiting sh h = ground arith
  advance-Metered inside run_waiting sh h = ground arith
  advance-Metered outside down_selecting sh h = ground arith
  advance-Metered inside down_selecting sh h = ground arith
  advance-Metered ch p sh h = ground arith

  step-Metered :
      (l : Life W Any E) (e : Event W Any E)
      → Metered l.shared
      → Metered (step w plan world l e).shared
  unfolding step aside
  step-Metered l run_called h = h
  step-Metered l shutdown_called h = h
  step-Metered l (happens e) h = elim (Option-cases l.shared.runtime) [
    | inl q ↦ rw (step, aside, q) h
    | inr (rt, q) ↦ rw (step, aside, q) (step-Gauged rt.thinking e (ground arith))
  ]
  step-Metered l waiter_moves h = ground arith
  step-Metered l (passes d) h = ground arith
  step-Metered l (turn i ch) h = elim (Option-cases (get_elem? l.calls i)) [
    | inl q ↦ rw (step, q) h
    | inr (p, q) ↦ rw (step, q) (advance-Metered ch p l.shared h)
  ]

  -- No call closes `done`.
  is_done-advance :
      (ch : Choice) (p : Point Any E) (sh : Shared W Any E)
      → is_done sh ≡ false
      → is_done (advance w plan world ch p sh).0 ≡ false
  unfolding advance boot_runtime new_runtime
  is_done-advance ch run_entering sh h = ground arith
  is_done-advance ch run_booted sh h = ground arith
  is_done-advance ch (run_binding []) sh h = ground arith
  is_done-advance ch (run_binding (c ∷ cs)) sh h = ground arith
  is_done-advance ch (run_failing e) sh h = ground arith
  is_done-advance ch (run_rolling_back e) sh h = ground arith
  is_done-advance ch run_ready sh h = ground arith
  is_done-advance outside run_waiting sh h = ground arith
  is_done-advance inside run_waiting sh h = ground arith
  is_done-advance outside down_selecting sh h = ground arith
  is_done-advance inside down_selecting sh h = ground arith
  is_done-advance ch p sh h = ground arith

  waiter_moves-Idle :
      (l : Life W Any E)
      → Metered l.shared
      → is_done l.shared ≡ false
      → is_done (step w plan world l waiter_moves).shared ≡ true
      → Idle l.shared
  unfolding step aside
  waiter_moves-Idle l m n d = elim (Option-cases l.shared.runtime) [
    | inl q ↦ ground arith
    | inr (rt, q) ↦
        let g : Gauged rt.thinking = ground arith in
        (rt, q, ground arith, ground (arith, g, zero_length rt.thinking.running))
  ]

  closing :
      (l : Life W Any E) (e : Event W Any E)
      → Metered l.shared
      → is_done l.shared ≡ false
      → is_done (step w plan world l e).shared ≡ true
      → (e ≡ waiter_moves) × Idle l.shared
  unfolding step aside
  closing l waiter_moves m n d = (refl, waiter_moves-Idle l m n d)
  closing l run_called m n d = ground arith
  closing l shutdown_called m n d = ground arith
  closing l (happens e) m n d = ground arith
  closing l (passes t) m n d = ground arith
  closing l (turn i ch) m n d = elim (Option-cases (get_elem? l.calls i)) [
    | inl q ↦ ground arith
    | inr (p, q) ↦ ground (arith, is_done-advance ch p l.shared n)
  ]

  -- If `done` is closed in the course of a history, the goroutine of `waitDrain` moved in it at a
  -- moment when no thinking goroutine was left.
  pub moment :
      (l : Life W Any E) (es : List (Event W Any E))
      → Metered l.shared
      → is_done l.shared ≡ false
      → is_done (run w plan world l es).shared ≡ true
      → (xs ys : List (Event W Any E)) × (es ≡ xs ++ waiter_moves ∷ ys)
        × Idle (run w plan world l xs).shared
  unfolding run
  moment l [] m n d = ground arith
  moment l (e ∷ es) m n d = elim (Bool-cases (is_done (step w plan world l e).shared)) [
    | inr still ↦
        let (xs, ys, q, idle) = moment (step w plan world l e) es (step-Metered l e m) still d in
        (e ∷ xs, ys, ap (λ l. e ∷ l) q, idle)
    | inl closed ↦ let (q, idle) = closing l e m n closed in ([], es, ap (λ x. x ∷ es) q, idle)
  ]
