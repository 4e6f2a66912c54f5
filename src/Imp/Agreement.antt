-- ===== src/Imp/Agreement.antt =====
-- imp.go: what the calls of `Shutdown` return.
use imps.Base.{
  ℕ, ◌+◌, ◌≤◌, true, Option, none, some, List, [], ◌∷◌, ◌≡◌, refl, arith, inl, inr, Option-cases,
  get_elem?, set, total, total-set, total-snoc, le-total, All, All-set, All-snoc, All-get_elem?,
  All-weaken, if◌then◌else◌,
}
use imps.Errors.{ImpError}
use imps.Channels.{Substrate}
use imps.Imp.{
  Plan, Runtime, Shared, Point, run_entering, run_booted, run_binding, run_failing,
  run_rolling_back, run_ready, run_waiting, down_entering, down_taken, down_draining, down_unwound,
  down_cancelled, down_selecting, down_drained, down_stopped, down_returned, Choice, outside,
  inside, advance, boot_runtime, new_runtime, Life, Event, run_called, shutdown_called, turn,
  happens, waiter_moves, passes, aside, after_wait, after_time, fresh, step, run,
}
use imps.Dispatch.Gauge.{step as happen}
use imps.Imp.Single.{Guarded, advance-Guarded}

module _ {Any E : Type 0} where
  -- A call of `Shutdown` in the body of `shutdownOnce`.
  abbrev pub shutting : Point Any E → ℕ
  shutting p = elim p [
    | down_taken ↦ 1
    | down_draining ↦ 1
    | down_unwound ↦ 1
    | down_cancelled ↦ 1
    | down_selecting ↦ 1
    | down_drained ↦ 1
    | down_stopped ↦ 1
    | _ ↦ 0
  ]

module _ {W Any E : Type 0} where
  -- Whether the body is over, or has not begun.
  abbrev settled : Shared W Any E → ℕ
  settled sh = elim sh.runtime [
    | none ↦ 1
    | some rt ↦ (if rt.closed then 1 else 0) + (if rt.taken then 0 else 1)
  ]

  -- The channel `stopped` is closed, and the error is that of the drain.
  abbrev pub Ended : Option (ImpError E) → Shared W Any E → Type 0
  Ended r sh = elim sh.runtime [ none ↦ ⊥ | some rt ↦ (rt.closed ≡ true) × (rt.drained ≡ r) ]

  abbrev pub Honest : Shared W Any E → Point Any E → Type 0
  Honest sh p = elim p [ down_returned r ↦ Ended r sh | _ ↦ Unit {0} ]

module _ {W Any E : Type 0} (w : Substrate E) (plan : Plan Any E) (world : W) where
  shutting-advance :
      (ch : Choice) (p : Point Any E) (sh : Shared W Any E)
      → Guarded sh
      → shutting (advance w plan world ch p sh).1 + settled (advance w plan world ch p sh).0
        ≤ shutting p + settled sh
  unfolding advance boot_runtime new_runtime
  shutting-advance ch run_entering sh h = ground arith
  shutting-advance ch run_booted sh h = ground arith
  shutting-advance ch (run_binding []) sh h = ground arith
  shutting-advance ch (run_binding (c ∷ cs)) sh h = ground arith
  shutting-advance ch (run_failing e) sh h = ground arith
  shutting-advance ch (run_rolling_back e) sh h = ground arith
  shutting-advance ch run_ready sh h = ground arith
  shutting-advance outside run_waiting sh h = ground arith
  shutting-advance inside run_waiting sh h = ground arith
  shutting-advance outside down_selecting sh h = ground arith
  shutting-advance inside down_selecting sh h = ground arith
  shutting-advance ch p sh h = ground arith

  -- While the body is the only one and not over, nothing that was returned changes.
  advance_keeps :
      (ch : Choice) (p : Point Any E) (sh : Shared W Any E) (r : Option (ImpError E))
      → Guarded sh
      → shutting p + settled sh ≤ 1
      → Ended r sh
      → Ended r (advance w plan world ch p sh).0
  unfolding advance boot_runtime new_runtime
  advance_keeps ch run_entering sh r g h d = ground arith
  advance_keeps ch run_booted sh r g h d = ground arith
  advance_keeps ch (run_binding []) sh r g h d = ground arith
  advance_keeps ch (run_binding (c ∷ cs)) sh r g h d = ground arith
  advance_keeps ch (run_failing e) sh r g h d = ground arith
  advance_keeps ch (run_rolling_back e) sh r g h d = ground arith
  advance_keeps ch run_ready sh r g h d = ground arith
  advance_keeps outside run_waiting sh r g h d = ground arith
  advance_keeps inside run_waiting sh r g h d = ground arith
  advance_keeps outside down_selecting sh r g h d = ground arith
  advance_keeps inside down_selecting sh r g h d = ground arith
  advance_keeps ch p sh r g h d = ground arith

  advance-Honest :
      (ch : Choice) (p : Point Any E) (sh : Shared W Any E)
      → Honest sh p
      → Honest (advance w plan world ch p sh).0 (advance w plan world ch p sh).1
  unfolding advance boot_runtime new_runtime
  advance-Honest ch run_entering sh h = ground arith
  advance-Honest ch run_booted sh h = ground arith
  advance-Honest ch (run_binding []) sh h = ground arith
  advance-Honest ch (run_binding (c ∷ cs)) sh h = ground arith
  advance-Honest ch (run_failing e) sh h = ground arith
  advance-Honest ch (run_rolling_back e) sh h = ground arith
  advance-Honest ch run_ready sh h = ground arith
  advance-Honest outside run_waiting sh h = ground arith
  advance-Honest inside run_waiting sh h = ground arith
  advance-Honest outside down_selecting sh h = ground arith
  advance-Honest inside down_selecting sh h = ground arith
  advance-Honest ch p sh h = ground arith

module _ {W Any E : Type 0} where
  Honest-weaken :
      (sh sh' : Shared W Any E)
      → ((r : Option (ImpError E)) → Ended r sh → Ended r sh')
      → (p : Point Any E) → Honest sh p
      → Honest sh' p
  Honest-weaken sh sh' f (down_returned r) h = f r h
  Honest-weaken sh sh' f p h = tt

  record Agreed (l : Life W Any E) : Type 0 where
    guarded : Guarded l.shared
    alone : total shutting l.calls + settled l.shared ≤ 1
    honest : All (Honest l.shared) l.calls

  fresh-Agreed : Agreed (fresh {W = W} {Any = Any} {E = E})
  unfolding total
  fresh-Agreed = record { guarded = inr refl; alone = ground arith; honest = tt }

module _ {W Any E : Type 0} (w : Substrate E) (plan : Plan Any E) (world : W) where
  turn-Agreed :
      (l : Life W Any E) (i : ℕ) (ch : Choice) (p : Point Any E)
      → Agreed l
      → get_elem? l.calls i ≡ some p
      → Agreed (record {
        shared = (advance w plan world ch p l.shared).0;
        calls = set l.calls i (advance w plan world ch p l.shared).1;
      })
  turn-Agreed l i ch p h q =
      let (sh, p') = advance w plan world ch p l.shared in
      let alone : shutting p + settled l.shared ≤ 1 =
        ground (arith, h.alone, le-total shutting l.calls i q) in
      record {
        guarded = advance-Guarded w plan world ch p l.shared h.guarded;
        alone = ground (
          arith,
          h.alone,
          shutting-advance w plan world ch p l.shared h.guarded,
          total-set shutting l.calls i (advance w plan world ch p l.shared).1 q,
        );
        honest =
            All-set (Honest sh) l.calls i
              (All-weaken (Honest l.shared) (Honest sh)
                (Honest-weaken l.shared sh
                  λ r d. advance_keeps w plan world ch p l.shared r h.guarded alone d)
                l.calls h.honest)
              (advance-Honest w plan world ch p l.shared
                (All-get_elem? (Honest l.shared) l.calls i h.honest q));
      }

  -- What moves besides the calls leaves their agreement alone.
  aside-Agreed :
      (l : Life W Any E) (f : Runtime W Any E → Runtime W Any E)
      → Agreed l
      → ((rt : Runtime W Any E)
          → ((f rt).closed ≡ rt.closed) × ((f rt).taken ≡ rt.taken) × ((f rt).drained ≡ rt.drained))
      → Agreed (record l { shared = aside f l.shared })
  unfolding aside
  aside-Agreed l f h k = elim (Option-cases l.shared.runtime) [
    | inl q ↦ rw (aside, q) h
    | inr (rt, q) ↦
        let sh : Shared W Any E = record (l.shared) { runtime = some (f rt) } in
        rw (aside, q)
          (record {
            guarded = ground (arith, h.guarded);
            alone = ground (arith, h.alone, k rt);
            honest =
                All-weaken (Honest l.shared) (Honest sh)
                  (Honest-weaken l.shared sh λ r d. ground (arith, k rt)) l.calls h.honest;
          })
  ]

  step-Agreed : (l : Life W Any E) (e : Event W Any E) → Agreed l → Agreed (step w plan world l e)
  unfolding step
  step-Agreed l run_called h = record {
    guarded = h.guarded;
    alone = ground (arith, h.alone, total-snoc shutting l.calls run_entering);
    honest = All-snoc (Honest l.shared) l.calls h.honest tt;
  }
  step-Agreed l shutdown_called h = record {
    guarded = h.guarded;
    alone = ground (arith, h.alone, total-snoc shutting l.calls down_entering);
    honest = All-snoc (Honest l.shared) l.calls h.honest tt;
  }
  step-Agreed l (happens e) h =
      aside-Agreed l (λ rt. record rt { thinking = happen rt.thinking e }) h
        (λ rt. (refl, refl, refl))
  step-Agreed l waiter_moves h = aside-Agreed l after_wait h (λ rt. (refl, refl, refl))
  step-Agreed l (passes d) h = aside-Agreed l (after_time d) h (λ rt. (refl, refl, refl))
  step-Agreed l (turn i ch) h = elim (Option-cases (get_elem? l.calls i)) [
    | inl q ↦ rw (step, q) h
    | inr (p, q) ↦ rw (step, q) (turn-Agreed l i ch p h q)
  ]

  run-Agreed :
      (l : Life W Any E) (es : List (Event W Any E)) → Agreed l → Agreed (run w plan world l es)
  unfolding run
  run-Agreed l [] h = h
  run-Agreed l (e ∷ es) h = run-Agreed (step w plan world l e) es (step-Agreed l e h)

  -- What a call of `Shutdown` returned is the error that the imp keeps.
  pub run-Honest :
      (es : List (Event W Any E))
      → All (Honest (run w plan world fresh es).shared) (run w plan world fresh es).calls
  run-Honest es = (run-Agreed fresh es fresh-Agreed).honest
