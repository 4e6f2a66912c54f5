-- ===== src/Schedule/Channel.antt =====
-- schedule/channel.go and schedule/tick.go: the channel on which an imp hears the ticks of a schedule,
-- and how it decodes them. `box` makes a tick a value of Go's `any`; the three deliver policies are
-- JetStream's constants. A nil decoder or extractor is `none`.
use imps.Base.{ℕ, String, ◌<>◌, ℤ, pos, Option, none, some, List, lookup}
use imps.Spec.{Message, ChannelSpec, stream_source}
use imps.Consumer.{ConsumerConfig}
use imps.Request.{configure}

-- `jetstream.DeliverAllPolicy` and the policies that the options choose.
pub record Policies : Type 0 where
  pub deliver_all : ℤ
  pub deliver_by_start_sequence : ℤ
  pub deliver_by_start_time : ℤ

-- `imps.ConsumerConfig{DeliverPolicy: …}`
abbrev pub delivering : ℤ → ConsumerConfig
delivering policy = record {
  ack_policy = pos 0;
  ack_wait = pos 0;
  max_deliver = pos 0;
  deliver_policy = policy;
  replay_policy = pos 0;
  opt_start_seq = 0;
  opt_start_time = none;
  max_ack_pending = pos 0;
  description = "";
}

-- `type Tick struct`
pub record Tick : Type 0 where
  pub subject : String
  pub scheduler : String
  pub next : String

-- `Headers.Get`: the empty string for a header that is not there.
unfoldable pub header : String → List (String × String) → String
header name headers = elim (lookup name headers) [ none ↦ "" | some value ↦ value ]

-- `defaultChannelName`
unfoldable pub default_channel_name : String → String
default_channel_name target = "schedule:" <> target

module _ {Any E : Type 0} where
  -- `decodeTick`
  unfoldable pub decode_tick : (Tick → Any) → Message → Any × Option E
  unfolding header
  decode_tick box m = (
    box (record {
      subject = m.subject;
      scheduler = header "Nats-Scheduler" m.headers;
      next = header "Nats-Schedule-Next" m.headers;
    }),
    none,
  )

  -- `extractTarget`
  unfoldable pub extract_target : String → Any → String × Option E
  extract_target target decoded = (target, none)

-- `type channelConfig`
pub record ChannelConfig (Any E : Type 0) : Type 0 where
  pub name : String
  pub durable : String
  pub consumer : ConsumerConfig
  pub decode : Option (Message → Any × Option E)
  pub extract : Option (Any → String × Option E)

module _ {Any E : Type 0} where
  -- `WithDurable`
  unfoldable pub with_durable : String → ChannelConfig Any E → ChannelConfig Any E
  with_durable name c = record c { durable = name }

  -- `WithStartSeq`
  unfoldable pub with_start_seq : Policies → ℕ → ChannelConfig Any E → ChannelConfig Any E
  with_start_seq p seq c = record c {
    consumer = record c.consumer {
      deliver_policy = p.deliver_by_start_sequence;
      opt_start_seq = seq;
    };
  }

  -- `WithStartTime`
  unfoldable pub with_start_time : Policies → ℤ → ChannelConfig Any E → ChannelConfig Any E
  with_start_time p t c = record c {
    consumer = record c.consumer {
      deliver_policy = p.deliver_by_start_time;
      opt_start_time = some t;
    };
  }

  -- `WithDecoder`
  unfoldable pub with_decoder :
      Option (Message → Any × Option E) → ChannelConfig Any E → ChannelConfig Any E
  with_decoder d c = record c { decode = d }

  -- `WithEntityExtractor`
  unfoldable pub with_entity_extractor :
      Option (Any → String × Option E) → ChannelConfig Any E → ChannelConfig Any E
  with_entity_extractor e c = record c { extract = e }

  -- `WithName`
  unfoldable pub with_name : String → ChannelConfig Any E → ChannelConfig Any E
  with_name name c = record c { name = name }

  -- `Channel`
  unfoldable pub channel :
      Policies
      → (Tick → Any)
      → String
      → String
      → List (ChannelConfig Any E → ChannelConfig Any E)
      → ChannelSpec Any E ConsumerConfig
  unfolding configure default_channel_name
  channel p box stream target opts =
      let cfg = configure opts (record {
        name = default_channel_name target;
        durable = "";
        consumer = delivering p.deliver_all;
        decode = some (decode_tick box);
        extract = some (extract_target target);
      }) in
      record {
        name = cfg.name;
        source = stream_source stream target cfg.durable cfg.consumer;
        decode = cfg.decode;
        extract_entity = cfg.extract;
      }
