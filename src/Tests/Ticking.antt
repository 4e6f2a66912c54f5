-- ===== src/Tests/Ticking.antt =====
-- A schedule from `Register` to awareness, and the requests of an imp that has started.
use imps.Base.{
  ℕ, String, pos, leb_ℤ, none, some, [], ◌∷◌, ◌≡◌, refl, arith, insert, lookup, false,
  if◌then◌else◌,
}
use imps.Spec.{Message, ignore}
use imps.Metrics.{new_metrics}
use imps.Registry.{new_registry}
use imps.Request.{configure, with_request_timeout, with_request_many_max}
use imps.Dispatch.{Callbacks, dispatch_stream}
use imps.Dispatch.Gauge.{idle}
use imps.Schedule.Register.{Outgoing, register, schedule_message, set_if, with_rollup}
use imps.Schedule.Channel.{Policies, Tick, header, decode_tick, extract_target}
use imps.Schedule.Firing.{durable, start_seq, at_awareness, dispatch_stream-register}
use imps.Schedule.Channel.{with_durable, with_start_seq, channel}
use imps.Contexts.{
  Connection, Surroundings, awareness_request, thinking_request, thinking_request_many,
}
use imps.Imp.{Runtime, run_called, turn, inside, new_runtime}
use imps.Imp.Limits.{awareness_of, thinking_of, Alike, run-limits}
use imps.Tests.Living.{server}
use imps.Tests.Histories.{plan, program as running}

abbrev policies : Policies
policies = record {
  deliver_all = pos 0;
  deliver_by_start_sequence = pos 3;
  deliver_by_start_time = pos 4;
}

abbrev box : Tick → String
box t = t.scheduler

-- Awareness keeps the last schedule that it heard of.
abbrev hearing : Callbacks String String String
hearing = record {
  decode = decode_tick box;
  extract_entity = extract_target "ticks.noon";
  awareness = λ decoded entity w. (decoded, some ignore);
  on_note = none;
}

abbrev noon : Outgoing
noon = record {
  subject = "schedules.noon";
  headers =
      ("Nats-Schedule", "0 0 12 * * *")
      ∷ ("Nats-Schedule-Target", "ticks.noon")
      ∷ ("Nats-Schedule-Rollup", "sub")
      ∷ [];
  data_bytes = [];
}

abbrev ticked : Message
ticked = record {
  subject = "ticks.noon";
  reply = "";
  headers = ("Nats-Scheduler", "schedules.noon") ∷ ("Nats-Schedule-Next", "tomorrow") ∷ [];
  payload = [];
}

dispatch_stream-register_example :
    dispatch_stream hearing ticked (idle "")
    ≡ at_awareness hearing
        (box (record { subject = "ticks.noon"; scheduler = "schedules.noon"; next = "tomorrow" }))
        "ticks.noon"
        (idle "")
unfolding register schedule_message set_if insert lookup configure with_rollup with_durable
    with_start_seq channel header
dispatch_stream-register_example =
    dispatch_stream-register hearing policies box (λ d. "1h0m0s") (λ m. none) "schedules.noon"
      "0 0 12 * * *" "ticks.noon" "TICKS" (with_rollup ∷ []) noon
      (with_durable "noon" ∷ with_start_seq policies 7 ∷ []) ticked (idle "") refl
      (record { aimed = refl; signed = refl }) (durable "noon", (start_seq 7, tt))
      (record { decodes = refl; extracts = refl })

-- A connection, and one that fails at once if it is not given any time.
abbrev pub patient : Connection String
patient = record {
  is = λ e s. false;
  request_with_context = λ limit subject payload. (payload, none);
  chan_subscribe = none;
  publish_msg = λ subject payload. none;
  arrivals = λ window. [];
  publish = λ subject payload. none;
}

abbrev hasty : Connection String
hasty = record patient {
  request_with_context = λ limit subject payload.
      if leb_ℤ limit (pos 0) then ([], some "no time") else (payload, none);
}

patient-Alike : Alike patient hasty
patient-Alike = record {
  is_same = refl;
  subscribes = refl;
  publishes = refl;
  requests = λ limit subject payload h. ground arith;
  windows = λ window h. refl;
}

abbrev around : Surroundings ℕ
around = record {
  registry = new_registry [];
  requests = record { calls = 0; many_calls = 0; unanswered = 0; timeouts = 0 };
  metrics = new_metrics;
}

-- The runtime after the first step of `Run`.
abbrev started : Runtime ℕ ℕ String
started = new_runtime (server "out") (plan (pos 5)) 0

run-limits_example :
    (awareness_request
        (awareness_of hasty started)
        none
        "in"
        (7 ∷ [])
        (with_request_timeout (pos 0) ∷ [])
        around
      ≡ awareness_request
          (awareness_of patient started)
          none
          "in"
          (7 ∷ [])
          (with_request_timeout (pos 0) ∷ [])
          around)
    × (thinking_request
          (thinking_of hasty started)
          none
          "in"
          (7 ∷ [])
          (with_request_timeout (pos 0) ∷ [])
          around
        ≡ thinking_request
            (thinking_of patient started)
            none
            "in"
            (7 ∷ [])
            (with_request_timeout (pos 0) ∷ [])
            around)
    × (thinking_request_many
          (thinking_of hasty started)
          "in"
          (7 ∷ [])
          (with_request_many_max (pos 2) ∷ [])
          around
        ≡ thinking_request_many
            (thinking_of patient started)
            "in"
            (7 ∷ [])
            (with_request_many_max (pos 2) ∷ [])
            around)
unfolding running
run-limits_example =
    run-limits (server "out") (plan (pos 5)) 0 (run_called ∷ turn 0 inside ∷ []) started patient
      hasty none "in" (7 ∷ []) (with_request_timeout (pos 0) ∷ [])
      (with_request_many_max (pos 2) ∷ []) around refl patient-Alike
