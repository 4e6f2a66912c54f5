-- ===== src/Tests/Binding.antt =====
-- stream.go on a durable consumer that an imp created before.
use Prim.Native.String.{count}
use imps.Base.{
  String, Bool, false, Option, some, ℤ, pos, negsuc, none, ◌≡◌, refl, ◌≢◌, ◌≤◌, ◌⊎◌, arith,
}
use imps.Consumer.{
  ConsumerConfig, Desired, Printing, build_consumer_config, diffs, compat_diff, join,
  resolve_consumer, itoa, digits,
}
use imps.Consumer.Decimal.{read, least, itoa_lem}
use imps.Errors.{ImpError, consumer_incompatible}

program : Unit {0}
unfolding itoa digits build_consumer_config diffs compat_diff join resolve_consumer
program = tt

abbrev printing : Printing
printing = record {
  explicit = pos 0;
  ack_name = λ n. "none";
  deliver_name = λ n. "all";
  replay_name = λ n. "instant";
  duration = λ n. "1s";
}

abbrev declared : ℤ → ConsumerConfig
declared ack = record {
  ack_policy = ack;
  ack_wait = pos 30;
  max_deliver = pos 7;
  deliver_policy = pos 2;
  replay_policy = pos 0;
  opt_start_seq = 0;
  opt_start_time = none;
  max_ack_pending = pos 0;
  description = "";
}

abbrev made : ℤ → Desired
made ack = record (build_consumer_config (pos 0) (declared ack) "in.>") {
  durable = "worker";
  name = "worker";
}

-- JetStream has the consumer with an ack policy that is not explicit.
abbrev known : String → Option Desired × Option String
known name = (some (made (pos 2)), none)

abbrev checked : (String × Bool) × Option (ImpError String)
checked =
    resolve_consumer printing (λ e s. false) (λ d. ("", none)) known "worker"
      (build_consumer_config (pos 0) (declared (pos 2)) "in.>")

-- The channel that declares the same settings is refused.
checked_refused : checked ≡ (
  ("", false),
  some (consumer_incompatible "worker" "ack_policy: existing=\"none\", declared=\"explicit\""),
)
unfolding program
checked_refused = refl

minus_forty_two : itoa (negsuc 41) ≡ "-42"
unfolding program
minus_forty_two = refl

-- The least integer loses its digits.
no_digits : itoa least ≡ "-"
unfolding program
no_digits = refl

itoa_lem_example :
    ((negsuc 41 ≢ least) × (read (itoa (negsuc 41)) ≡ negsuc 41) × (count (itoa (negsuc 41)) ≤ 20))
    ⊎ ((negsuc 41 ≡ least) × (itoa (negsuc 41) ≡ "-"))
itoa_lem_example = itoa_lem (negsuc 41) (omega arith)
