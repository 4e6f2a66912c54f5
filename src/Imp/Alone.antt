-- ===== src/Imp/Alone.antt =====
-- imp.go: one call of `Run`, and one of `Shutdown` after it, with nothing between their steps.
use imps.Base.{
  ℕ, zero, suc, ◌+◌, arith, pos, leb_ℤ, true, false, Option, none, some, List, [], ◌∷◌, ◌++◌, ◌≡◌,
  refl, sym, ap, ◌∙◌, All, length, get_elem?, set, Option-cases, Bool-cases, inl, inr,
  if◌then◌else◌,
}
use imps.Errors.{ImpError, drain_exceeded}
use imps.Spec.{ChannelSpec}
use imps.Validate.Sound.{ChannelOk}
use imps.Consumer.{ConsumerConfig}
use imps.Channels.{Substrate, Bindings, unbound, bind_source, start}
use imps.Channels.Teardown.{unwind}
use imps.Channels.Ledger.{held, nothing}
use imps.Channels.Names.{Names}
use imps.Channels.Refusals.{refused}
use imps.Channels.Start.{unwind-start}
use imps.Lifecycle.{State, starting, running, draining, failed, stopped}
use imps.Imp.Steps.{enter, run-turn, run-append}
use imps.Imp.{
  Plan, Shared, Point, run_entering, run_booted, run_binding, run_failing, run_waiting,
  run_returned, down_selecting, down_drained, down_returned, Choice, inside, outside, advance,
  waiter_moves, passes, aside, new_runtime, Life, Event, run_called, shutdown_called, turn, fresh,
  step, run,
}

pub no_time : (d : ℕ) → 0 + d ≡ d
no_time d = omega arith

module _ {W Any E : Type 0} where
  -- The first call moves `n` times.
  unfoldable pub turns : ℕ → List (Event W Any E)
  turns zero = []
  turns (suc n) = turn 0 inside ∷ turns n

  -- `Run` is called and moves as often as it can with `n` channels.
  abbrev pub startup : ℕ → List (Event W Any E)
  startup n = run_called ∷ turn 0 inside ∷ turn 0 inside ∷ turns (suc (suc (suc n)))

  -- `Shutdown` is called and moves to its `select`; the goroutine of `waitDrain` moves, time passes,
  -- the `select` first takes `c`; and the calls move to their ends.
  abbrev pub stopping : ℕ → Choice → List (Event W Any E)
  stopping d c =
      shutdown_called
      ∷ turn 1 inside
      ∷ turn 1 inside
      ∷ turn 1 inside
      ∷ turn 1 inside
      ∷ turn 1 inside
      ∷ waiter_moves
      ∷ passes d
      ∷ turn 1 c
      ∷ turn 1 inside
      ∷ turn 1 inside
      ∷ turn 1 inside
      ∷ turn 1 inside
      ∷ turn 0 inside
      ∷ []

module _ {W Any E : Type 0} (w : Substrate E) (plan : Plan Any E) (world : W) where
  abbrev pub alive : State → Bindings Any E → Shared W Any E
  alive s b = record {
    once = true;
    runtime = some (record (new_runtime w plan world) { machine = s; bindings = b });
  }

  abbrev one : State → Bindings Any E → Point Any E → Life W Any E
  one s b p = record { shared = alive s b; calls = p ∷ [] }

  -- What is left of a call of `Run`, by what `start` returned.
  abbrev pub outcome : Bindings Any E × Option (ImpError E) → Life W Any E
  outcome (b, none) = one running b run_waiting
  outcome (b, some e) = one failed (unwind w b) (run_returned (some e))

  returned_stays :
      (s : State) (b : Bindings Any E) (r : Option (ImpError E)) (n : ℕ)
      → run w plan world (one s b (run_returned r)) (turns n) ≡ one s b (run_returned r)
  unfolding run step turns advance get_elem? set
  returned_stays s b r zero = refl
  returned_stays s b r (suc n) = returned_stays s b r n

  outcome_ok :
      (r : Bindings Any E × Option (ImpError E))
      → r.1 ≡ none
      → outcome r ≡ one running r.0 run_waiting
  outcome_ok r q = rw (outcome, q) refl

  module _ (c : ChannelSpec Any E ConsumerConfig) (cs : List (ChannelSpec Any E ConsumerConfig))
      (b : Bindings Any E) where
    bind_ok :
        (bind_source w c c.source b).1 ≡ none
        → advance w plan world inside (run_binding (c ∷ cs)) (alive starting b)
          ≡ (alive starting (bind_source w c c.source b).0, run_binding cs)
    unfolding advance
    bind_ok q = rw (advance, q) refl

    start_ok :
        (bind_source w c c.source b).1 ≡ none
        → start w (c ∷ cs) b ≡ start w cs (bind_source w c c.source b).0
    unfolding start
    start_ok q = rw (start, q) refl

    module _ (e : ImpError E) (q : (bind_source w c c.source b).1 ≡ some e) where
      bind_bad :
          advance w plan world inside (run_binding (c ∷ cs)) (alive starting b)
          ≡ (alive starting (bind_source w c c.source b).0, run_failing e)
      unfolding advance
      bind_bad = rw (advance, q) refl

      start_bad : start w (c ∷ cs) b ≡ ((bind_source w c c.source b).0, some e)
      unfolding start
      start_bad = rw (start, q) refl

  binding_lem :
      (cs : List (ChannelSpec Any E ConsumerConfig)) (b : Bindings Any E)
      → run w plan world (one starting b (run_binding cs)) (turns (suc (suc (suc (length cs)))))
        ≡ outcome (start w cs b)
  unfolding run step turns advance get_elem? set new_runtime start
  binding_lem [] b = refl
  binding_lem (c ∷ cs) b = elim (Option-cases (bind_source w c c.source b).1) [
    | inl q ↦
        run-turn w plan world (one starting b (run_binding (c ∷ cs))) 0 inside
          (run_binding (c ∷ cs)) (run_binding cs) (alive starting (bind_source w c c.source b).0)
          (turns (suc (suc (suc (length cs))))) refl (bind_ok c cs b q)
        ∙ binding_lem cs (bind_source w c c.source b).0
        ∙ ap outcome (sym (start_ok c cs b q))
    | inr (e, q) ↦
        run-turn w plan world (one starting b (run_binding (c ∷ cs))) 0 inside
          (run_binding (c ∷ cs)) (run_failing e) (alive starting (bind_source w c c.source b).0)
          (turns (suc (suc (suc (length cs))))) refl (bind_bad c cs b e q)
        ∙ returned_stays failed (unwind w (bind_source w c c.source b).0) (some e) (suc (length cs))
        ∙ ap outcome (sym (start_bad c cs b e q))
  ]

  -- A call of Run that nothing interferes with does what `start` does to the channels: it goes on to
  -- wait if all of them are bound, and otherwise unwinds them and returns the error of `start`.
  pub run-startup :
      leb_ℤ plan.request_timeout (pos 0) ≡ false
      → leb_ℤ plan.request_many_window (pos 0) ≡ false
      → run w plan world fresh (startup (length plan.channels))
        ≡ outcome (start w plan.channels unbound)
  unfolding run step advance get_elem? set new_runtime
  run-startup a b =
      run-turn w plan world (record fresh { calls = run_entering ∷ [] }) 0 inside run_entering
        run_booted (record { once = true; runtime = some (new_runtime w plan world) })
        (turn 0 inside ∷ turns (suc (suc (suc (length plan.channels))))) refl
        (enter w plan world a b)
      ∙ binding_lem plan.channels unbound

  -- The imp after `Shutdown`, with the error of its drain, `d` nanoseconds after that began.
  abbrev pub closed_down : Bindings Any E → ℕ → Option (ImpError E) → Life W Any E
  closed_down b d r = record {
    shared = record {
      once = true;
      runtime = some (record (new_runtime w plan world) {
        machine = stopped;
        bindings = unwind w b;
        cancelled = true;
        taken = true;
        drained = r;
        awaited = true;
        elapsed = d;
        done = true;
        closed = true;
      });
    };
    calls = run_returned r ∷ down_returned r ∷ [];
  }

  -- The error that `waitDrain` returns when no thinking is left: that of the timer, if the `select`
  -- takes it and it has fired.
  abbrev pub drain_error : ℕ → Choice → Option (ImpError E)
  drain_error d inside = none
  drain_error d outside = if leb_ℤ plan.drain_window (pos d) then some drain_exceeded else none

  -- `Shutdown` in the `select` with `done` closed, and past it.
  abbrev at_select : Bindings Any E → ℕ → Life W Any E
  at_select b d = record {
    shared = record {
      once = true;
      runtime = some (record (new_runtime w plan world) {
        machine = draining;
        bindings = unwind w b;
        cancelled = true;
        taken = true;
        awaited = true;
        elapsed = d;
        done = true;
      });
    };
    calls = run_waiting ∷ down_selecting ∷ [];
  }

  abbrev ending : List (Event W Any E)
  ending = turn 1 inside ∷ turn 1 inside ∷ turn 1 inside ∷ turn 1 inside ∷ turn 0 inside ∷ []

  reaches :
      (b : Bindings Any E) (d : ℕ) (c : Choice)
      → run w plan world (one running b run_waiting) (stopping d c)
        ≡ run w plan world (at_select b (0 + d)) (turn 1 c ∷ ending)
  unfolding run step advance get_elem? set new_runtime aside
  reaches b d c = refl

  -- The timer has fired and is taken, or it has not.
  fired :
      (b : Bindings Any E) (d : ℕ)
      → leb_ℤ plan.drain_window (pos d) ≡ true
      → advance w plan world outside down_selecting (at_select b d).shared ≡ (
        aside (λ rt. record rt { drained = some drain_exceeded }) (at_select b d).shared,
        down_drained,
      )
  unfolding advance new_runtime aside
  fired b d late = rw (advance, late) refl

  not_fired :
      (b : Bindings Any E) (d : ℕ)
      → leb_ℤ plan.drain_window (pos d) ≡ false
      → advance w plan world outside down_selecting (at_select b d).shared
        ≡ ((at_select b d).shared, down_selecting)
  unfolding advance new_runtime
  not_fired b d early = rw (advance, early) refl

  at_select_lem :
      (b : Bindings Any E) (d : ℕ) (c : Choice)
      → run w plan world (at_select b d) (turn 1 c ∷ ending) ≡ closed_down b d (drain_error d c)
  unfolding run step advance get_elem? set new_runtime aside
  at_select_lem b d inside = refl
  at_select_lem b d outside = elim (Bool-cases (leb_ℤ plan.drain_window (pos d))) [
    | inl late ↦
        run-turn w plan world (at_select b d) 1 outside down_selecting down_drained
          (aside (λ rt. record rt { drained = some drain_exceeded }) (at_select b d).shared) ending
          refl (fired b d late)
        ∙ ap (λ k. closed_down b d (if k then some drain_exceeded else none)) (sym late)
    | inr early ↦
        run-turn w plan world (at_select b d) 1 outside down_selecting down_selecting
          (at_select b d).shared ending refl (not_fired b d early)
        ∙ ap (λ k. closed_down b d (if k then some drain_exceeded else none)) (sym early)
  ]

  stopping_lem :
      (b : Bindings Any E) (d : ℕ) (c : Choice)
      → run w plan world (one running b run_waiting) (stopping d c)
        ≡ closed_down b d (drain_error d c)
  stopping_lem b d c =
      reaches b d c
      ∙ ap (λ t. run w plan world (at_select b t) (turn 1 c ∷ ending)) (no_time d)
      ∙ at_select_lem b d c

  -- For an imp whose channels `NewImp` accepts, with positive default timeouts, on a substrate that
  -- names what it creates: if all channels are bound, then Run and a Shutdown after it, with no
  -- thinking between them, both return, however long the drain takes. They return no error unless
  -- the drain window is over, be it zero or less, and the `select` takes the timer; then both
  -- return the error of the drain. The imp ends as stopped and holds nothing but the ephemeral
  -- consumers whose deletion failed.
  pub run_stops :
      leb_ℤ plan.request_timeout (pos 0) ≡ false
      → leb_ℤ plan.request_many_window (pos 0) ≡ false
      → Names w
      → All ChannelOk plan.channels
      → (start w plan.channels unbound).1 ≡ none
      → (d : ℕ) (c : Choice)
      → let b = (start w plan.channels unbound).0 in
        (run w plan world fresh (startup (length plan.channels) ++ stopping d c)
          ≡ closed_down b d (drain_error d c))
        × (held (unwind w b).log ≡ record nothing { left = refused (unwind w b).log })
  run_stops a b n s q d c =
      let r = start w plan.channels unbound in
      (
        run-append w plan world fresh (startup (length plan.channels)) (stopping d c)
            ∙ ap (λ l. run w plan world l (stopping d c)) (run-startup a b ∙ outcome_ok r q)
            ∙ stopping_lem r.0 d c,
        (unwind-start w plan.channels n s).0,
      )
