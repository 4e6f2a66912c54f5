-- ===== src/Imp/Session.antt =====
-- imp.go: an imp that has started, hears messages, and is interrupted.
use imps.Base.{
  ℕ, zero, suc, ◌+◌, Bool, leb_ℤ, false, ℤ, pos, Option, none, some, List, [], ◌∷◌, ◌≡◌, refl, ap,
  ◌∙◌, arith, eqb_ℤ, true, get_elem?, set, length,
}
use imps.Errors.{ImpError, drain_exceeded}
use imps.Channels.{Substrate, Bindings}
use imps.Channels.Teardown.{unwind}
use imps.Dispatch.{Harness}
use imps.Dispatch.Gauge.{Event as Happening, step as happen, run as run_messages, idle}
use imps.Imp.{
  Plan, Shared, down_selecting, down_drained, waiter_moves, passes, aside, run_waiting,
  down_returned, Life, Event, turn, Choice, happens, inside, outside, run, step, advance,
  new_runtime,
}
use imps.Lifecycle.{running, draining}
use imps.Imp.Steps.{run-turn}
use imps.Imp.Alone.{turns, outcome, no_time}

module _ {W Any E : Type 0} where
  unfoldable pub heard : List (Happening W Any E) → List (Event W Any E)
  heard [] = []
  heard (m ∷ ms) = happens m ∷ heard ms

  -- The interrupt, and the Shutdown that `Run` then does. Before the `select` of `waitDrain` its
  -- goroutine moves and time passes; the `select` takes `c`.
  abbrev pub interrupted : ℕ → Choice → List (Event W Any E)
  interrupted d c =
      turn 0 outside
      ∷ turn 0 inside
      ∷ turn 0 inside
      ∷ turn 0 inside
      ∷ turn 0 inside
      ∷ turn 0 inside
      ∷ waiter_moves
      ∷ passes d
      ∷ turn 0 c
      ∷ turn 0 inside
      ∷ turn 0 inside
      ∷ turn 0 inside
      ∷ []

pub none_waits :
    {A : Type 0} (z : ℤ) (l : List A) → z ≡ pos (length l) → l ≡ [] → eqb_ℤ z (pos 0) ≡ true
none_waits z l p q = rw (p, q) refl

pub some_wait :
    {A : Type 0} (z : ℤ) (x : A) (l : List A) → z ≡ pos (length (x ∷ l)) → eqb_ℤ z (pos 0) ≡ false
some_wait z x l p = rw p (ground arith)

module _ {W Any E : Type 0} (w : Substrate E) (plan : Plan Any E) (world : W) where
  abbrev pub serving : Bindings Any E → Harness W Any → Life W Any E
  serving b h = record {
    shared = record {
      once = true;
      runtime =
          some
            (record (new_runtime w plan world) { machine = running; bindings = b; thinking = h });
    };
    calls = run_waiting ∷ [];
  }

  pub messages_lem :
      (b : Bindings Any E) (h : Harness W Any) (ms : List (Happening W Any E))
      → run w plan world (serving b h) (heard ms) ≡ serving b (run_messages h ms)
  unfolding run step run_messages heard
  messages_lem b h [] = refl
  messages_lem b h (m ∷ ms) = messages_lem b (happen h m) ms

  -- In the `select` of `waitDrain`, `d` nanoseconds after it began.
  abbrev selecting : Bindings Any E → Harness W Any → ℕ → Bool → Shared W Any E
  selecting b h d over = record {
    once = true;
    runtime = some (record (new_runtime w plan world) {
      machine = draining;
      bindings = unwind w b;
      thinking = h;
      cancelled = true;
      taken = true;
      awaited = true;
      elapsed = d;
      done = over;
    });
  }

  abbrev at_select : Bindings Any E → Harness W Any → ℕ → Bool → Life W Any E
  at_select b h d over = record { shared = selecting b h d over; calls = down_selecting ∷ [] }

  reaches :
      (b : Bindings Any E) (h : Harness W Any) (d : ℕ) (c : Choice)
      → run w plan world (serving b h) (interrupted d c)
        ≡ run w plan world (at_select b h (0 + d) (eqb_ℤ h.waiting (pos 0))) (turn 0 c ∷ turns 3)
  unfolding run step advance get_elem? set new_runtime aside turns
  reaches b h d c = refl

  to_select :
      (b : Bindings Any E) (h : Harness W Any) (d : ℕ) (c : Choice)
      → run w plan world (serving b h) (interrupted d c)
        ≡ run w plan world (at_select b h d (eqb_ℤ h.waiting (pos 0))) (turn 0 c ∷ turns 3)
  to_select b h d c =
      reaches b h d c
      ∙ ap (λ t. run w plan world (at_select b h t (eqb_ℤ h.waiting (pos 0))) (turn 0 c ∷ turns 3))
          (no_time d)

  -- The timer won.
  abbrev timed_out : Shared W Any E → Shared W Any E
  timed_out sh = aside (λ rt. record rt { drained = some drain_exceeded }) sh

  -- With neither channel ready the `select` waits.
  stays :
      (b : Bindings Any E) (h : Harness W Any) (d : ℕ) (c : Choice)
      → leb_ℤ plan.drain_window (pos d) ≡ false
      → advance w plan world c down_selecting (selecting b h d false)
        ≡ (selecting b h d false, down_selecting)
  unfolding advance new_runtime
  stays b h d inside early = refl
  stays b h d outside early = rw (advance, early) refl

  stays_long :
      (b : Bindings Any E) (h : Harness W Any) (d n : ℕ)
      → leb_ℤ plan.drain_window (pos d) ≡ false
      → run w plan world (at_select b h d false) (turns n) ≡ at_select b h d false
  unfolding run turns get_elem? set
  stays_long b h d zero early = refl
  stays_long b h d (suc n) early =
      run-turn w plan world (at_select b h d false) 0 inside down_selecting down_selecting
        (selecting b h d false) (turns n) refl (stays b h d inside early)
      ∙ stays_long b h d n early

  pub overrun_lem :
      (b : Bindings Any E) (h : Harness W Any) (d : ℕ) (c : Choice)
      → eqb_ℤ h.waiting (pos 0) ≡ false
      → leb_ℤ plan.drain_window (pos d) ≡ false
      → (run w plan world (serving b h) (interrupted d c)).calls ≡ down_selecting ∷ []
  unfolding set get_elem?
  overrun_lem b h d c q early =
      ap (λ l. l.calls)
        (to_select b h d c
          ∙ ap (λ k. run w plan world (at_select b h d k) (turn 0 c ∷ turns 3)) q
          ∙ run-turn w plan world (at_select b h d false) 0 c down_selecting down_selecting
              (selecting b h d false) (turns 3) refl (stays b h d c early)
          ∙ stays_long b h d 3 early)

  pub interrupted_lem :
      (b : Bindings Any E) (h : Harness W Any) (d : ℕ)
      → eqb_ℤ h.waiting (pos 0) ≡ true
      → (run w plan world (serving b h) (interrupted d inside)).calls ≡ down_returned none ∷ []
  unfolding run step advance get_elem? set new_runtime turns
  interrupted_lem b h d q =
      ap (λ l. l.calls)
        (to_select b h d inside
          ∙ ap (λ k. run w plan world (at_select b h d k) (turn 0 inside ∷ turns 3)) q)

  fires :
      (b : Bindings Any E) (h : Harness W Any) (d : ℕ) (over : Bool)
      → leb_ℤ plan.drain_window (pos d) ≡ true
      → advance w plan world outside down_selecting (selecting b h d over)
        ≡ (timed_out (selecting b h d over), down_drained)
  unfolding advance new_runtime aside
  fires b h d over late = rw (advance, late) refl

  pub overdue_lem :
      (b : Bindings Any E) (h : Harness W Any) (d : ℕ)
      → leb_ℤ plan.drain_window (pos d) ≡ true
      → (run w plan world (serving b h) (interrupted d outside)).calls
        ≡ down_returned (some drain_exceeded) ∷ []
  unfolding run step advance get_elem? set new_runtime turns aside
  overdue_lem b h d late =
      let over = eqb_ℤ h.waiting (pos 0) in
      ap (λ l. l.calls)
        (to_select b h d outside
          ∙ run-turn w plan world (at_select b h d over) 0 outside down_selecting down_drained
              (timed_out (selecting b h d over)) (turns 3) refl (fires b h d over late))

  pub outcome-serving :
      (r : Bindings Any E × Option (ImpError E))
      → r.1 ≡ none
      → outcome w plan world r ≡ serving r.0 (idle world)
  unfolding new_runtime
  outcome-serving r q = rw (outcome, q) refl
