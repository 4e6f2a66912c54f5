-- ===== src/Tests/Serving.antt =====
-- examples/echo/main.go on a message, an interrupt, and a server that refuses the subscription.
use imps.Base.{arith, ℕ, String, pos, none, some, List, [], ◌∷◌, ◌++◌, ◌≡◌, ◌≢◌, ◌⊎◌}
use imps.Errors.{subscription_failed, drain_exceeded}
use imps.Metrics.{new_metrics}
use imps.Registry.{new_registry}
use imps.Contexts.{Surroundings, AwarenessCtx}
use imps.Dispatch.{returned as came_back}
use imps.Dispatch.Gauge.{
  Event as Happening, arrive, turn as turn_thinking, run as run_messages, idle,
}
use imps.Imp.{inside, outside}
use imps.Echo.{Value, echo_callbacks}
use imps.Echo.Main.{returned, blocked, fatal_run, cancel, drain, main}
use imps.Imp.Session.{heard, interrupted}
use imps.Echo.Ends.{opening, main_lem}
use imps.Tests.Living.{server}
use imps.Tests.Ticking.{patient}

abbrev awareness : AwarenessCtx String
awareness = record { conn = patient; default_request_timeout = pos 5 }

abbrev around : Surroundings Value
around = record {
  registry = new_registry [];
  requests = record { calls = 0; many_calls = 0; unanswered = 0; timeouts = 0 };
  metrics = new_metrics;
}

-- A message, and the three steps of its thinking.
abbrev echoed : List (Happening (Surroundings Value) Value String)
echoed =
    arrive (echo_callbacks awareness)
      (record { subject = "messages.in"; reply = ""; headers = []; payload = 104 ∷ [] })
    ∷ turn_thinking 0 came_back
    ∷ turn_thinking 0 came_back
    ∷ turn_thinking 0 came_back
    ∷ []

-- The log handlers and the connection.
abbrev silent : ℕ
silent = 0

abbrev stdout : ℕ
stdout = 1

abbrev nc : ℕ
nc = 2

main_lem_example :
    ((e : String) × ((server "out").subscribe [] "messages.in" ≡ some e)
      × (main (server "out") around silent stdout (some nc, none) opening
          ≡ ([], fatal_run (subscription_failed "messages.in" e))))
    ⊎ (((server "out").subscribe [] "messages.in" ≡ none)
        × (main
              (server "out")
              around
              silent
              stdout
              (some nc, none)
              (opening ++ (heard echoed ++ interrupted 30000000000 outside))
            ≡ ([], fatal_run drain_exceeded))
        × (((run_messages (idle around) echoed).running ≡ [])
              × (main
                    (server "out")
                    around
                    silent
                    stdout
                    (some nc, none)
                    (opening ++ (heard echoed ++ interrupted 5 inside))
                  ≡ (cancel ∷ drain ∷ [], returned))
            ⊎ ((run_messages (idle around) echoed).running ≢ [])
              × (main
                    (server "out")
                    around
                    silent
                    stdout
                    (some nc, none)
                    (opening ++ (heard echoed ++ interrupted 5 outside))
                  ≡ ([], blocked))))
main_lem_example =
    main_lem (server "out") around silent stdout nc echoed 5 30000000000 outside (omega arith)
      (omega arith)
