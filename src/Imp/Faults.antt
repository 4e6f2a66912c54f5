-- ===== src/Imp/Faults.antt =====
-- imp.go: a history in which the imp goes wrong.
use imps.Base.{
  String, pos, leb_ℤ, true, false, none, some, List, [], ◌∷◌, ◌≡◌, refl, ◌∙◌, get_elem?, set,
}
use imps.Spec.{ChannelSpec, subject_source}
use imps.Consumer.{ConsumerConfig}
use imps.Channels.{Substrate, Bindings, unbound, subscribed, bind_source, bind_subject_channel}
use imps.Channels.Teardown.{unwind, unsubscribe_all, teardown_all, teardown_stream_consumers}
use imps.Channels.Ledger.{held}
use imps.Lifecycle.{State, running, stopped}
use imps.Imp.Steps.{enter, run-turn}
use imps.Imp.{
  Plan, Shared, run_entering, run_booted, run_binding, run_returned, down_returned, inside, advance,
  new_runtime, Life, Event, run_called, shutdown_called, turn, waiter_moves, aside, fresh, step,
  run,
}
use imps.Imp.Reports.{ready}

module _ {W Any E : Type 0} where
  -- `Shutdown` is called and returns between the compare-and-swap of `Run` and its first bind.
  abbrev pub overtaken : List (Event W Any E)
  overtaken =
      run_called
      ∷ turn 0 inside
      ∷ turn 0 inside
      ∷ shutdown_called
      ∷ turn 1 inside
      ∷ turn 1 inside
      ∷ turn 1 inside
      ∷ turn 1 inside
      ∷ turn 1 inside
      ∷ waiter_moves
      ∷ turn 1 inside
      ∷ turn 1 inside
      ∷ turn 1 inside
      ∷ turn 1 inside
      ∷ turn 0 inside
      ∷ turn 0 inside
      ∷ turn 0 inside
      ∷ turn 0 inside
      ∷ []

module _ {Any E : Type 0} (c : ChannelSpec Any E ConsumerConfig) (subject : String) where
  abbrev pub spec : ChannelSpec Any E ConsumerConfig
  spec = record c { source = subject_source subject }

  abbrev pub one_channel : Plan Any E → Plan Any E
  one_channel plan = record plan { channels = spec ∷ [] }

  -- The channels with the subscription that is left.
  abbrev pub leaked : Bindings Any E
  leaked = record unbound {
    channels =
        (record {
          spec = spec;
          subject = subject;
          subscription = some 0;
          stream = "";
          consumer_name = "";
          ephemeral = false;
          stream_consume = none;
        })
        ∷ [];
    log = subscribed 0 ∷ [];
  }

module _ {W Any E : Type 0} where
  -- The histories after the first step of `Run`, and after its first bind.
  abbrev last : List (Event W Any E)
  last = turn 0 inside ∷ turn 0 inside ∷ turn 0 inside ∷ []

  abbrev rest : List (Event W Any E)
  rest =
      turn 0 inside
      ∷ shutdown_called
      ∷ turn 1 inside
      ∷ turn 1 inside
      ∷ turn 1 inside
      ∷ turn 1 inside
      ∷ turn 1 inside
      ∷ waiter_moves
      ∷ turn 1 inside
      ∷ turn 1 inside
      ∷ turn 1 inside
      ∷ turn 1 inside
      ∷ turn 0 inside
      ∷ last

module _ {W Any E : Type 0} (w : Substrate E) (plan : Plan Any E) (world : W) where
  -- What an imp has after `Shutdown`, with bindings and a state that came after it.
  abbrev pub shut : Bindings Any E → State → Shared W Any E
  shut b s = record {
    once = true;
    runtime = some (record (new_runtime w plan world) {
      machine = s;
      cancelled = true;
      taken = true;
      awaited = true;
      done = true;
      closed = true;
      bindings = b;
    });
  }

module _ {W Any E : Type 0} (w : Substrate E) (plan : Plan Any E) (world : W)
    (c : ChannelSpec Any E ConsumerConfig) (subject : String) where
  bound :
      w.subscribe [] subject ≡ none
      → advance w
          (one_channel c subject plan)
          world
          inside
          (run_binding (spec c subject ∷ []))
          (shut w (one_channel c subject plan) world unbound stopped)
        ≡ (shut w (one_channel c subject plan) world (leaked c subject) stopped, run_binding [])
  unfolding advance bind_source bind_subject_channel
  bound free = rw (advance, bind_source, bind_subject_channel, free) refl

  -- For an imp with one subject channel that can be subscribed to: there is a history in which
  -- Shutdown returns no error, then Run returns no error, and the imp still holds its
  -- subscription and says that it is ready.
  pub run-overtaken_leaks :
      leb_ℤ plan.request_timeout (pos 0) ≡ false
      → leb_ℤ plan.request_many_window (pos 0) ≡ false
      → w.subscribe [] subject ≡ none
      → (run w (one_channel c subject plan) world fresh overtaken ≡ record {
        shared = shut w (one_channel c subject plan) world (leaked c subject) running;
        calls = run_returned none ∷ down_returned none ∷ [];
      })
        × (ready (shut w (one_channel c subject plan) world (leaked c subject) running) ≡ true)
        × ((held (leaked c subject).log).subs ≡ 0 ∷ [])
  unfolding run step advance aside new_runtime get_elem? set unwind unsubscribe_all
      teardown_stream_consumers teardown_all ready held
  run-overtaken_leaks a b free =
      let begin : Life W Any E = record fresh { calls = run_entering ∷ [] } in
      let booted : Shared W Any E = record {
        once = true;
        runtime = some (new_runtime w (one_channel c subject plan) world);
      } in
      let stalled : Life W Any E = record {
        shared = shut w (one_channel c subject plan) world unbound stopped;
        calls = run_binding (spec c subject ∷ []) ∷ down_returned none ∷ [];
      } in
      (
        run-turn w (one_channel c subject plan) world begin 0 inside run_entering run_booted booted
              rest refl (enter w (one_channel c subject plan) world a b)
            ∙ run-turn w (one_channel c subject plan) world stalled 0 inside
                (run_binding (spec c subject ∷ [])) (run_binding [])
                (shut w (one_channel c subject plan) world (leaked c subject) stopped) last refl
                (bound free),
        refl,
        refl,
      )
