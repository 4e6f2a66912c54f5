-- ===== src/Soulstream/Topic.antt =====
-- soulstream/channel.go and soulstream/op.go: the channel on which an imp reads a topic, and how it
-- decodes the operations. The constants and the subject of the soulstream library are parameters;
-- `box` makes an operation a value of Go's `any`.
use imps.Base.{ℕ, String, ◌<>◌, ℤ, Option, none, some, List}
use imps.Spec.{Message, ChannelSpec, stream_source}
use imps.Consumer.{ConsumerConfig}
use imps.Request.{configure}
use imps.Schedule.Channel.{Policies, delivering, header}

-- `realm.StreamName`, `topic.OpsSubject` and the header names of package record.
pub record Realm : Type 0 where
  pub stream_name : String
  pub ops_subject : String → String
  pub header_type : String
  pub header_author : String
  pub header_msg_id : String

-- `type Op struct`
pub record Op : Type 0 where
  pub kind : String
  pub author : String
  pub id : String

-- `defaultChannelName`
abbrev pub default_topic_name : String → String
default_topic_name path = "soulstream:" <> path

module _ {Any E : Type 0} where
  -- `decodeOp`
  unfoldable pub decode_op : Realm → (Op → Any) → Message → Any × Option E
  unfolding header
  decode_op realm box m = (
    box (record {
      kind = header realm.header_type m.headers;
      author = header realm.header_author m.headers;
      id = header realm.header_msg_id m.headers;
    }),
    none,
  )

  -- `extractTopicPath`
  unfoldable pub extract_topic_path : String → Any → String × Option E
  extract_topic_path path decoded = (path, none)

-- `type topicChannelConfig`
pub record TopicChannelConfig (Any E : Type 0) : Type 0 where
  pub name : String
  pub durable : String
  pub consumer : ConsumerConfig
  pub decode : Option (Message → Any × Option E)
  pub extract : Option (Any → String × Option E)

module _ {Any E : Type 0} where
  -- `WithDurable`
  unfoldable pub with_durable : String → TopicChannelConfig Any E → TopicChannelConfig Any E
  with_durable name c = record c { durable = name }

  -- `WithStartSeq`
  unfoldable pub with_start_seq : Policies → ℕ → TopicChannelConfig Any E → TopicChannelConfig Any E
  with_start_seq p seq c = record c {
    consumer = record c.consumer {
      deliver_policy = p.deliver_by_start_sequence;
      opt_start_seq = seq;
    };
  }

  -- `WithStartTime`
  unfoldable pub with_start_time :
      Policies → ℤ → TopicChannelConfig Any E → TopicChannelConfig Any E
  with_start_time p t c = record c {
    consumer = record c.consumer {
      deliver_policy = p.deliver_by_start_time;
      opt_start_time = some t;
    };
  }

  -- `WithDecoder`
  unfoldable pub with_decoder :
      Option (Message → Any × Option E) → TopicChannelConfig Any E → TopicChannelConfig Any E
  with_decoder d c = record c { decode = d }

  -- `WithEntityExtractor`
  unfoldable pub with_entity_extractor :
      Option (Any → String × Option E) → TopicChannelConfig Any E → TopicChannelConfig Any E
  with_entity_extractor e c = record c { extract = e }

  -- `WithName`
  unfoldable pub with_name : String → TopicChannelConfig Any E → TopicChannelConfig Any E
  with_name name c = record c { name = name }

  -- `TopicChannel`
  unfoldable pub topic_channel :
      Policies
      → Realm
      → (Op → Any)
      → String
      → List (TopicChannelConfig Any E → TopicChannelConfig Any E)
      → ChannelSpec Any E ConsumerConfig
  unfolding configure
  topic_channel p realm box path opts =
      let cfg = configure opts (record {
        name = default_topic_name path;
        durable = "";
        consumer = delivering p.deliver_all;
        decode = some (decode_op realm box);
        extract = some (extract_topic_path path);
      }) in
      record {
        name = cfg.name;
        source = stream_source realm.stream_name (realm.ops_subject path) cfg.durable cfg.consumer;
        decode = cfg.decode;
        extract_entity = cfg.extract;
      }
