-- ===== src/Echo/Ends.antt =====
-- What `main` of the echo example does in the end.
use imps.Base.{
  ℕ, ◌<◌, ◌≤◌, leb_ℤ, true, false, ◌≢◌, ◌⊎◌, inl, inr, Option-cases, List-cases, pos, none, some,
  List, [], ◌∷◌, ◌++◌, ◌≡◌, refl, ap, ◌∙◌, arith, contains, length,
}
use imps.Errors.{subscription_failed, drain_exceeded}
use imps.Validate.{validate_spec}
use imps.Request.{configure}
use imps.Options.{with_logger, new_imp, default_runtime_options}
use imps.Channels.{Substrate, unbound, start, bind_source, bind_subject_channel}
use imps.Dispatch.Gauge.{Event as Happening, run as run_messages, idle, run_gauge}
use imps.Imp.{Plan, Event, run_called, turn, Choice, inside, outside, fresh, run}
use imps.Imp.Steps.{run-append}
use imps.Imp.Alone.{turns, outcome, run-startup}
use imps.Imp.Session.{
  heard, interrupted, serving, messages_lem, interrupted_lem, overdue_lem, overrun_lem, none_waits,
  some_wait, outcome-serving,
}
use imps.Echo.{Value, echo_spec}
use imps.Echo.Main.{fatal_run, returned, cancel, drain, ran, main, blocked}

-- The imp that `main` builds.
abbrev pub echo_plan : {E : Type 0} → Plan Value E
echo_plan = record {
  name = "echo";
  version = "0.1.0";
  states = [];
  channels = echo_spec.channels;
  request_timeout = pos 5000000000;
  request_many_window = pos 1000000000;
  drain_window = pos 30000000000;
}

module _ {W E : Type 0} where
  -- `Run` after its call, as far as it goes by itself.
  abbrev pub opening : List (Event W Value E)
  opening = turn 0 inside ∷ turn 0 inside ∷ turns 4

over : (d : ℕ) → 30000000000 ≤ d → leb_ℤ (pos 30000000000) (pos d) ≡ true
over d h = ground arith

not_over : (d : ℕ) → d < 30000000000 → leb_ℤ (pos 30000000000) (pos d) ≡ false
not_over d h = ground arith

module _ {W E : Type 0} (w : Substrate E) (world : W) where
  start_bad :
      (e : E)
      → w.subscribe [] "messages.in" ≡ some e
      → start w echo_plan.channels unbound ≡ (unbound, some (subscription_failed "messages.in" e))
  unfolding start bind_source bind_subject_channel echo_spec
  start_bad e q = ground (arith, q)

  start_good : w.subscribe [] "messages.in" ≡ none → (start w echo_plan.channels unbound).1 ≡ none
  unfolding start bind_source bind_subject_channel echo_spec
  start_good q = rw (start, q) refl

  -- The imp serves after `opening`, or its `Run` has returned.
  opened :
      run w echo_plan world fresh (run_called ∷ opening)
      ≡ outcome w echo_plan world (start w echo_plan.channels unbound)
  unfolding echo_spec
  opened = run-startup w echo_plan world refl refl

  module _ {N H : Type 0} (discard stdout : H) (nc : N) where
    main_runs :
        (es : List (Event W Value E))
        → main w world discard stdout (some nc, none) es
          ≡ ran (run w echo_plan world fresh (run_called ∷ es)).calls
    unfolding main new_imp validate_spec echo_spec contains with_logger configure
        default_runtime_options
    main_runs es = refl

    session :
        (ms : List (Happening W Value E)) (d : ℕ) (c : Choice)
        → w.subscribe [] "messages.in" ≡ none
        → main w world discard stdout (some nc, none) (opening ++ (heard ms ++ interrupted d c))
          ≡ ran
              (run w echo_plan world
                (serving w echo_plan world
                  (start w echo_plan.channels unbound).0
                  (run_messages (idle world) ms))
                (interrupted d c)).calls
    session ms d c q =
        let b = (start w echo_plan.channels unbound).0 in
        main_runs (opening ++ (heard ms ++ interrupted d c))
        ∙ ap (λ l. ran l.calls)
            (run-append w echo_plan world fresh (run_called ∷ opening) (heard ms ++ interrupted d c)
              ∙ ap (λ l. run w echo_plan world l (heard ms ++ interrupted d c))
                  (opened
                    ∙ outcome-serving w echo_plan world (start w echo_plan.channels unbound)
                        (start_good q))
              ∙ run-append w echo_plan world (serving w echo_plan world b (idle world)) (heard ms)
                  (interrupted d c)
              ∙ ap (λ l. run w echo_plan world l (interrupted d c))
                  (messages_lem w echo_plan world b (idle world) ms))

    -- The echo example with a connection: if the server refuses its subscription, main exits with that
    -- error. Otherwise, after any messages and steps of thinking goroutines and an interrupt: if the
    -- drain window of thirty seconds has passed and the select of waitDrain takes its timer, main
    -- exits with the error of that; before then, main makes its two deferred calls and returns if
    -- none of the goroutines is left and the select takes the closed channel, and is still in Run if
    -- some are left, whatever the select would take. An exit with an error makes none of the
    -- deferred calls.
    pub main_lem :
        (ms : List (Happening W Value E)) (early late : ℕ) (c : Choice)
        → early < 30000000000
        → 30000000000 ≤ late
        → ((e : E) × (w.subscribe [] "messages.in" ≡ some e)
            × (main w world discard stdout (some nc, none) opening
                ≡ ([], fatal_run (subscription_failed "messages.in" e))))
          ⊎ ((w.subscribe [] "messages.in" ≡ none)
              × (main w world discard stdout
                    (some nc, none)
                    (opening ++ (heard ms ++ interrupted late outside))
                  ≡ ([], fatal_run drain_exceeded))
              × (((run_messages (idle world) ms).running ≡ [])
                    × (main w world discard stdout
                          (some nc, none)
                          (opening ++ (heard ms ++ interrupted early inside))
                        ≡ (cancel ∷ drain ∷ [], returned))
                  ⊎ ((run_messages (idle world) ms).running ≢ [])
                    × (main w world discard stdout
                          (some nc, none)
                          (opening ++ (heard ms ++ interrupted early c))
                        ≡ ([], blocked))))
    unfolding ran
    main_lem ms early late c before after =
        let b = (start w echo_plan.channels unbound).0 in
        let h = run_messages (idle world) ms in
        let gauge = run_gauge world ms in
        elim (Option-cases (w.subscribe [] "messages.in")) [
          | inr (e, q) ↦ inl (
            e,
            q,
            main_runs opening
                ∙ ap (λ l. ran l.calls) (opened ∙ ap (outcome w echo_plan world) (start_bad e q)),
          )
          | inl q ↦ inr (
            q,
            session ms late outside q
                ∙ ap ran (overdue_lem w echo_plan world b h late (over late after)),
            elim (List-cases h.running) [
              | inl none_left ↦ inl (
                none_left,
                session ms early inside q
                    ∙ ap ran (
                        interrupted_lem w echo_plan world b h early
                          (none_waits h.waiting h.running gauge.waiting none_left)),
              )
              | inr (x, l, r) ↦ inr (
                (λ z. cc),
                session ms early c q
                    ∙ ap ran (
                        overrun_lem w echo_plan world b h early c
                          (some_wait h.waiting x l (gauge.waiting ∙ ap (λ k. pos (length k)) r))
                          (not_over early before)),
              )
            ],
          )
        ]
