-- ===== src/Channels.antt =====
-- start.go, and the binding of stream.go: how the declared channels are subscribed to. What NATS and JetStream answer may depend on everything that they
-- were asked before: each answer is a function of the log, which has the latest act first.
pub mod Teardown
pub mod Ledger
pub mod Names
pub mod Refusals
pub mod Start
pub mod Order
pub mod Twice
use imps.Base.{
  ℕ, String, ◌<>◌, ◌==◌, not, Bool, true, false, ◌&&◌, Option, none, some, List, [], ◌∷◌, ◌++◌,
  length, if◌then◌else◌,
}
use imps.Errors.{
  ImpError, passed, spec_invalid, stream_not_found, subscription_failed, Sentinel,
  js_stream_not_found,
}
use imps.Spec.{Source, subject_source, stream_source, nil_source, other_source, ChannelSpec}
use imps.Consumer.{ConsumerConfig, Desired, Printing, build_consumer_config, resolve_consumer}

-- What the imp asked of the substrate and got. A subscription and a consume loop are known by a
-- number. A consumer is `deleted`, or `delete_failed` if JetStream refused that; `gave_up` is one that
-- is not deleted because the lookup of its stream failed.
pub data Act : Type 0 where
  js_opened : Act
  subscribed unsubscribed consuming stopped : ℕ → Act
  resolved : String → String → Bool → Act
  deleted delete_failed gave_up : String → String → Act

pub record Substrate (E : Type 0) : Type 0 where
  pub subscribe : List Act → String → Option E
  pub open_js : List Act → Option E
  pub stream : List Act → String → Option E
  pub consumer : List Act → String → String → Option Desired × Option E
  pub create : List Act → String → Desired → String × Option E
  pub consume : List Act → String → String → Option E
  pub delete : List Act → String → String → Option E
  pub is : E → Sentinel → Bool
  pub printing : Printing

-- `type channelState`; a handle that is nil is `none`.
pub record ChannelState (Any E : Type 0) : Type 0 where
  pub spec : ChannelSpec Any E ConsumerConfig
  pub subject : String
  pub subscription : Option ℕ
  pub stream : String
  pub consumer_name : String
  pub ephemeral : Bool
  pub stream_consume : Option ℕ

-- The part of `type runtime` that binding moves; `js` says whether `rt.js` is set.
pub record Bindings (Any E : Type 0) : Type 0 where
  pub js : Bool
  pub channels : List (ChannelState Any E)
  pub streams : List String
  pub log : List Act

module _ {Any E : Type 0} where
  abbrev pub unbound : Bindings Any E
  unbound = record { js = false; channels = []; streams = []; log = [] }

  abbrev pub act : Act → Bindings Any E → Bindings Any E
  act a b = record b { log = a ∷ b.log }

module _ {E : Type 0} (w : Substrate E) where
  -- `Stream.DeleteConsumer`, by its answer. The rollback drops an error, the teardown logs it.
  unfoldable pub try_delete : String → String → List Act → List Act
  try_delete stream name log = elim (w.delete log stream name) [
    | none ↦ deleted stream name ∷ log
    | some e ↦ delete_failed stream name ∷ log
  ]

module _ {Any E : Type 0} (w : Substrate E) where
  -- `bindSubjectChannel`
  unfoldable pub bind_subject_channel :
      ChannelSpec Any E ConsumerConfig
      → String
      → Bindings Any E
      → Bindings Any E × Option (ImpError E)
  bind_subject_channel spec subject b = elim (w.subscribe b.log subject) [
    | some e ↦ (b, some (subscription_failed subject e))
    | none ↦
        let handle = length b.log in
        (
          record b {
            channels =
                b.channels
                ++ (record {
                  spec = spec;
                  subject = subject;
                  subscription = some handle;
                  stream = "";
                  consumer_name = "";
                  ephemeral = false;
                  stream_consume = none;
                })
                  ∷ [];
            log = subscribed handle ∷ b.log;
          },
          none,
        )
  ]

  -- `ensureJetStream`
  unfoldable pub ensure_jet_stream : Bindings Any E → Bindings Any E × Option (ImpError E)
  ensure_jet_stream b = elim b.js [
    | true ↦ (b, none)
    | false ↦ elim (w.open_js b.log) [
      | some e ↦ (b, some (passed e))
      | none ↦ (record b { js = true; log = js_opened ∷ b.log }, none)
    ]
  ]

  -- The end of `bindStreamChannel`: start to consume, or roll the consumer back.
  unfoldable pub start_consuming :
      ChannelSpec Any E ConsumerConfig
      → String
      → String
      → String
      → Bool
      → Bindings Any E
      → Bindings Any E × Option (ImpError E)
  unfolding try_delete
  start_consuming spec stream filter name ephemeral b = elim (w.consume b.log stream name) [
    | some e ↦ (
      if ephemeral then record b { log = try_delete w stream name b.log } else b,
      some (subscription_failed filter e),
    )
    | none ↦
        let handle = length b.log in
        (
          record b {
            channels =
                b.channels
                ++ (record {
                  spec = spec;
                  subject = filter;
                  subscription = none;
                  stream = stream;
                  consumer_name = name;
                  ephemeral = ephemeral;
                  stream_consume = some handle;
                })
                  ∷ [];
            streams = b.streams ++ stream ∷ [];
            log = consuming handle ∷ b.log;
          },
          none,
        )
  ]

  -- `bindStreamChannel` once JetStream is there.
  unfoldable pub bind_on_stream :
      ChannelSpec Any E ConsumerConfig
      → String
      → String
      → String
      → ConsumerConfig
      → Bindings Any E
      → Bindings Any E × Option (ImpError E)
  unfolding start_consuming
  bind_on_stream spec stream filter durable config b = elim (w.stream b.log stream) [
    | some e ↦ (b, some (if w.is e js_stream_not_found then stream_not_found stream else passed e))
    | none ↦
        let desired = build_consumer_config w.printing.explicit config filter in
        let (found, err) =
          resolve_consumer w.printing w.is (w.create b.log stream) (w.consumer b.log stream) durable
            desired in
        elim err [
          | some e ↦ (b, some e)
          | none ↦
              start_consuming spec stream filter found.0 found.1
                (act (resolved stream found.0 found.1) b)
        ]
  ]

  -- `bindStreamChannel`
  unfoldable pub bind_stream_channel :
      ChannelSpec Any E ConsumerConfig
      → String
      → String
      → String
      → ConsumerConfig
      → Bindings Any E
      → Bindings Any E × Option (ImpError E)
  unfolding ensure_jet_stream bind_on_stream
  bind_stream_channel spec stream filter durable config b =
      let (b', err) = ensure_jet_stream b in
      elim err [
        | some e ↦ (b', some e)
        | none ↦ bind_on_stream spec stream filter durable config b'
      ]

  abbrev unsupported :
      ChannelSpec Any E ConsumerConfig → Bindings Any E → Bindings Any E × Option (ImpError E)
  unsupported spec b = (
    b,
    some (spec_invalid "ChannelSpec.Source" ("unsupported source kind for channel " <> spec.name)),
  )

  -- The `switch` of `start` on the kind of source.
  unfoldable pub bind_source :
      ChannelSpec Any E ConsumerConfig
      → Source ConsumerConfig
      → Bindings Any E
      → Bindings Any E × Option (ImpError E)
  unfolding bind_subject_channel bind_stream_channel
  bind_source spec (subject_source subject) b = bind_subject_channel spec subject b
  bind_source spec (stream_source stream filter durable config) b =
      bind_stream_channel spec stream filter durable config b
  bind_source spec nil_source b = unsupported spec b
  bind_source spec other_source b = unsupported spec b

  -- `start`
  unfoldable pub start :
      List (ChannelSpec Any E ConsumerConfig)
      → Bindings Any E
      → Bindings Any E × Option (ImpError E)
  start [] b = (b, none)
  start (spec ∷ specs) b =
      let (b', err) = bind_source spec spec.source b in
      elim err [ some e ↦ (b', some e) | none ↦ start specs b' ]
