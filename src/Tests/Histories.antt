-- ===== src/Tests/Histories.antt =====
-- imp.go: histories of an imp with a subject channel and a stream channel.
use imps.Base.{
  false, ℕ, ◌≤◌, String, ℤ, pos, true, none, some, List, [], ◌∷◌, ◌++◌, ◌≡◌, refl, total,
}
use imps.Errors.{message, drain_exceeded}
use imps.Spec.{ChannelSpec, subject_source}
use imps.Consumer.{ConsumerConfig}
use imps.Channels.{unbound, start}
use imps.Channels.Teardown.{unwind}
use imps.Channels.Ledger.{held, nothing}
use imps.Dispatch.Gauge.{arrive}
use imps.Lifecycle.{running, to_string}
use imps.Imp.{
  Plan, run_returned, run_waiting, down_returned, outside, inside, waiter_moves, passes, aside,
  advance, boot_runtime, new_runtime, Life, Event, run_called, shutdown_called, turn, happens,
  fresh, step, run,
}
use imps.Imp.Single.{begun, run_single}
use imps.Imp.Reports.{ready, identity, metrics, no_metrics}
use imps.Request.{Requests}
use imps.Imp.Faults.{overtaken, one_channel, leaked, shut, run-overtaken_leaks}
use imps.Channels.Refusals.{refused}
use imps.Imp.Alone.{turns, startup, stopping, closed_down, run_stops}
use imps.Tests.Living.{server, server-Names, both, both-ChannelOk, channel, program as binding}
use imps.Tests.Inbox.{calls, byte, program as dispatching}

unfoldable pub program : Unit {0}
unfolding binding dispatching run step aside advance boot_runtime new_runtime turns total to_string
program = tt

abbrev world : ℕ
world = 0

abbrev pub plan : ℤ → Plan ℕ String
plan timeout = record {
  name = "clerk";
  version = "1";
  states = [];
  channels = both;
  request_timeout = timeout;
  request_many_window = pos 1;
  drain_window = pos 7;
}

-- Two calls of `Run` and two of `Shutdown`, with a thinking goroutine that outlives the drain window.
abbrev busy : List (Event ℕ ℕ String)
busy =
    startup 2
    ++ run_called
      ∷ turn 1 inside
      ∷ turn 1 inside
      ∷ happens (arrive calls (byte (2 ∷ [])))
      ∷ shutdown_called
      ∷ shutdown_called
      ∷ turn 2 inside
      ∷ turn 3 inside
      ∷ turn 2 inside
      ∷ turn 2 inside
      ∷ turn 2 inside
      ∷ turn 2 inside
      ∷ turn 2 inside
      ∷ waiter_moves
      ∷ passes 6
      ∷ turn 2 outside
      ∷ passes 2
      ∷ turn 2 outside
      ∷ turn 2 inside
      ∷ turn 2 inside
      ∷ turn 2 inside
      ∷ turn 3 inside
      ∷ []

abbrev life : Life ℕ ℕ String
life = run (server "out") (plan (pos 5)) world fresh busy

busy_calls :
    life.calls
    ≡ run_waiting
      ∷ run_returned (some (message "imps: Run already invoked (state Running)"))
      ∷ down_returned (some drain_exceeded)
      ∷ down_returned (some drain_exceeded)
      ∷ []
unfolding program
busy_calls = refl

-- What the imp says of itself then.
abbrev asked_twice : Requests
asked_twice = record { calls = 2; many_calls = 0; unanswered = 1; timeouts = 0 }

busy_reports :
    (identity (plan (pos 5)) life.shared ≡ ("clerk", "1"))
    × (ready life.shared ≡ false)
    × (metrics asked_twice life.shared ≡ record no_metrics {
      inflight_thinking = pos 1;
      thinks_dispatched = 1;
      request_calls = 2;
      request_no_responders = 1;
    })
unfolding program identity ready metrics
busy_reports = (refl, refl, refl)

run_single_example : total begun life.calls ≤ 1
run_single_example = run_single (server "out") (plan (pos 5)) world busy

-- A drain window of zero: the `select` takes the timer although no thinking is left.
abbrev impatient : Plan ℕ String
impatient = record (plan (pos 5)) { drain_window = pos 0 }

run_stops_example :
    (run (server "out") impatient world fresh (startup 2 ++ stopping 0 outside)
      ≡ closed_down
          (server "out")
          impatient
          world
          (start (server "out") both unbound).0
          0
          (some drain_exceeded))
    × (held (unwind (server "out") (start (server "out") both unbound).0).log ≡ record nothing {
      left = refused (unwind (server "out") (start (server "out") both unbound).0).log;
    })
unfolding program
run_stops_example =
    run_stops (server "out") impatient world refl refl (server-Names "out") both-ChannelOk refl 0
      outside

abbrev inbound : ChannelSpec ℕ String ConsumerConfig
inbound = channel "subject" (subject_source "in")

run-overtaken_leaks_example :
    (run (server "out") (one_channel inbound "in" (plan (pos 5))) world fresh overtaken ≡ record {
      shared =
          shut
            (server "out")
            (one_channel inbound "in" (plan (pos 5)))
            world
            (leaked inbound "in")
            running;
      calls = run_returned none ∷ down_returned none ∷ [];
    })
    × (ready (
          shut
            (server "out")
            (one_channel inbound "in" (plan (pos 5)))
            world
            (leaked inbound "in")
            running)
        ≡ true)
    × ((held (leaked inbound "in").log).subs ≡ 0 ∷ [])
unfolding program
run-overtaken_leaks_example =
    run-overtaken_leaks (server "out") (plan (pos 5)) world inbound "in" refl refl refl

-- Three calls of `Run` that begin one after another: the first has returned, the second has panicked.
abbrev retried : List (Event ℕ ℕ String)
retried =
    run_called
    ∷ turn 0 inside
    ∷ run_called
    ∷ shutdown_called
    ∷ turn 1 inside
    ∷ turn 1 inside
    ∷ run_called
    ∷ []
