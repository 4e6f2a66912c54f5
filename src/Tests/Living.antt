-- ===== src/Tests/Living.antt =====
-- imp.go, start.go and stream.go on an imp with a subject channel and a stream channel.
use imps.Base.{
  ℕ, String, ◌==◌, pos, true, false, Option, none, some, List, [], ◌∷◌, ◌++◌, ◌≡◌, ◌≢◌, ◌↔◌, refl,
  arith, All, get_elem?, set, remove, total, if◌then◌else◌, Bool-cases, inl, inr,
}
use imps.Spec.{ChannelSpec, Source, subject_source, stream_source}
use imps.Validate.Sound.{ChannelOk}
use imps.Consumer.{
  ConsumerConfig, Desired, Printing, build_consumer_config, diffs, compat_diff, join,
  resolve_consumer,
}
use imps.Channels.{
  Act, js_opened, subscribed, unsubscribed, consuming, stopped, resolved, deleted, delete_failed,
  Substrate, unbound, bind_subject_channel, ensure_jet_stream, try_delete, start_consuming,
  bind_on_stream, bind_stream_channel, bind_source, start,
}
use imps.Channels.Teardown.{
  unsubscribe_all, stop_consuming, delete_consumer, teardown_channel, teardown_all,
  teardown_stream_consumers, unwind,
}
use imps.Channels.Ledger.{held, nothing, forget, forget_pair}
use imps.Channels.Names.{Names, has_pair}
use imps.Channels.Refusals.{refused, Refused}
use imps.Channels.Start.{unwind-start}
use imps.Channels.Twice.{unwind-unwind}
use imps.Channels.Order.{declared, start_lem}

unfoldable pub program : Unit {0}
unfolding bind_subject_channel ensure_jet_stream try_delete start_consuming bind_on_stream
    bind_stream_channel bind_source start unsubscribe_all stop_consuming delete_consumer
    teardown_channel teardown_all teardown_stream_consumers unwind held forget forget_pair has_pair
    build_consumer_config diffs compat_diff join resolve_consumer get_elem? set remove total
program = tt

abbrev printing : Printing
printing = record {
  explicit = pos 0;
  ack_name = λ n. "all";
  deliver_name = λ n. "all";
  replay_name = λ n. "instant";
  duration = λ n. "1s";
}

-- JetStream with one name to give at a time, and room for one subject.
abbrev create : List Act → String → Desired → String × Option String
create log s d = if has_pair s "c1" (held log).ephemerals then ("", some "taken") else ("c1", none)

abbrev pub server : String → Substrate String
server subject = record {
  subscribe = λ log s. if s == subject then some "denied" else none;
  open_js = λ log. none;
  stream = λ log s. none;
  consumer = λ log s d. (none, some "none");
  create = create;
  consume = λ log s n. none;
  delete = λ log s n. none;
  is = λ e s. false;
  printing = printing;
}

not_empty : ◌≢◌ {A = String} "c1" ""
not_empty = λ q. cc

create_named :
    (log : List Act) (s : String) (d : Desired)
    → (create log s d).1 ≡ none
    → (create log s d).0 ≢ ""
create_named log s d q = elim (Bool-cases (has_pair s "c1" (held log).ephemerals)) [
  | inl p ↦ ground (arith, q)
  | inr p ↦ rw p not_empty
]

pub server-Names : (subject : String) → Names (server subject)
server-Names subject = record { named = create_named; fresh = λ log s d q. ground arith }

abbrev settings : ConsumerConfig
settings = record {
  ack_policy = pos 0;
  ack_wait = pos 0;
  max_deliver = pos 0;
  deliver_policy = pos 0;
  replay_policy = pos 0;
  opt_start_seq = 0;
  opt_start_time = none;
  max_ack_pending = pos 0;
  description = "";
}

abbrev pub channel : String → Source ConsumerConfig → ChannelSpec ℕ String ConsumerConfig
channel name source = record {
  name = name;
  source = source;
  decode = some (λ m. (0, none));
  extract_entity = some (λ n. ("ann", none));
}

abbrev pub both : List (ChannelSpec ℕ String ConsumerConfig)
both =
    channel "stream" (stream_source "EVENTS" "in.>" "" settings)
    ∷ channel "subject" (subject_source "in")
    ∷ []

pub both-ChannelOk : All ChannelOk both
both-ChannelOk = (
  record { named = cc; decodes = λ q. cc; extracts = λ q. cc; sound = (cc, cc) },
  (record { named = cc; decodes = λ q. cc; extracts = λ q. cc; sound = cc }, tt),
)

both_bound :
    (start (server "out") both unbound).0.log
    ≡ subscribed 3 ∷ consuming 2 ∷ resolved "EVENTS" "c1" true ∷ js_opened ∷ []
unfolding program
both_bound = refl

both_unwound :
    (unwind (server "out") (start (server "out") both unbound).0).log
    ≡ deleted "EVENTS" "c1" ∷ stopped 2 ∷ unsubscribed 3 ∷ (start (server "out") both unbound).0.log
unfolding program
both_unwound = refl

-- JetStream that keeps what it is asked to delete.
abbrev keeping : String → Substrate String
keeping subject = record (server subject) { delete = λ log s n. some "unavailable" }

keeping-Names : (subject : String) → Names (keeping subject)
keeping-Names subject = record { named = create_named; fresh = λ log s d q. ground arith }

-- The second channel fails, and the consumer of the first cannot be deleted.
abbrev kept : List Act
kept = (unwind (keeping "in") (start (keeping "in") both unbound).0).log

kept_log :
    kept
    ≡ delete_failed "EVENTS" "c1"
      ∷ stopped 2
      ∷ consuming 2
      ∷ resolved "EVENTS" "c1" true
      ∷ js_opened
      ∷ []
unfolding program
kept_log = refl

unwind-start_example :
    (held kept ≡ record nothing { left = refused kept }) × Refused (keeping "in") kept
unwind-start_example = unwind-start (keeping "in") both (keeping-Names "in") both-ChannelOk

unwind-unwind_example :
    unwind (keeping "in") (unwind (keeping "in") (start (keeping "in") both unbound).0)
    ≡ unwind (keeping "in") (start (keeping "in") both unbound).0
unwind-unwind_example = unwind-unwind (keeping "in") (start (keeping "in") both unbound).0

kept_left : refused kept ≡ ("EVENTS", "c1") ∷ []
unfolding program refused
kept_left = refl

start_lem_example :
    (bound left : List (ChannelSpec ℕ String ConsumerConfig)) × (bound ++ left ≡ both)
    × (declared (start (server "in") both unbound).0 ≡ [] ++ bound)
    × (((start (server "in") both unbound).1 ≡ none) ↔ (left ≡ []))
start_lem_example = start_lem (server "in") both unbound
