-- ===== src/Schedule/Ticks.antt =====
-- The channel of a schedule as a part of an imp: whatever options it is built with, and what becomes
-- of its ticks.
use text.Mathlib.TextLemmas.{append-ne-nil_of_right_ne-nil}
use imps.Base.{ℕ, String, ℤ, Option, none, some, List, [], ◌∷◌, All, ◌≡◌, refl, ◌≢◌, arith}
use imps.Spec.{Message, stream_source}
use imps.Consumer.{ConsumerConfig}
use imps.Request.{configure}
use imps.Validate.Sound.{ChannelOk}
use imps.Schedule.Channel.{
  Policies, Tick, ChannelConfig, default_channel_name, with_durable, with_start_seq,
  with_start_time, with_decoder, with_entity_extractor, with_name, delivering, decode_tick,
  extract_target, channel,
}

module _ {Any E : Type 0} (p : Policies) where
  -- The options of the package, with a name that is not empty and functions that are not nil.
  pub data Setting : (ChannelConfig Any E → ChannelConfig Any E) → Type 0 where
    durable : (name : String) → Setting (with_durable name)
    start_seq : (seq : ℕ) → Setting (with_start_seq p seq)
    start_time : (t : ℤ) → Setting (with_start_time p t)
    decoder : (d : Message → Any × Option E) → Setting (with_decoder (some d))
    entity_extractor : (e : Any → String × Option E) → Setting (with_entity_extractor (some e))
    name : (n : String) → n ≢ "" → Setting (with_name n)

  record ConfigOk (c : ChannelConfig Any E) : Type 0 where
    named : c.name ≢ ""
    decodes : c.decode ≢ none
    extracts : c.extract ≢ none

  Setting-ConfigOk :
      (f : ChannelConfig Any E → ChannelConfig Any E) (c : ChannelConfig Any E)
      → Setting f
      → ConfigOk c
      → ConfigOk (f c)
  unfolding with_durable with_start_seq with_start_time with_decoder with_entity_extractor with_name
  Setting-ConfigOk _ c (durable n) h = record {
    named = h.named;
    decodes = h.decodes;
    extracts = h.extracts;
  }
  Setting-ConfigOk _ c (start_seq n) h = record {
    named = h.named;
    decodes = h.decodes;
    extracts = h.extracts;
  }
  Setting-ConfigOk _ c (start_time t) h = record {
    named = h.named;
    decodes = h.decodes;
    extracts = h.extracts;
  }
  Setting-ConfigOk _ c (decoder d) h = record {
    named = h.named;
    decodes = λ q. ground arith;
    extracts = h.extracts;
  }
  Setting-ConfigOk _ c (entity_extractor e) h = record {
    named = h.named;
    decodes = h.decodes;
    extracts = λ q. ground arith;
  }
  Setting-ConfigOk _ c (name n fine) h = record {
    named = fine;
    decodes = h.decodes;
    extracts = h.extracts;
  }

  configure-ConfigOk :
      (opts : List (ChannelConfig Any E → ChannelConfig Any E)) (c : ChannelConfig Any E)
      → All Setting opts
      → ConfigOk c
      → ConfigOk (configure opts c)
  unfolding configure
  configure-ConfigOk [] c all h = h
  configure-ConfigOk (f ∷ fs) c all h =
      configure-ConfigOk fs (f c) all.1 (Setting-ConfigOk f c all.0 h)

  -- A channel for a stream and a target that are not empty, built with any of the package's options,
  -- with names that are not empty and functions that are not nil, passes the checks that an imp makes
  -- of its channels, and reads the target of the stream itself.
  pub channel-ChannelOk :
      (box : Tick → Any) (stream target : String)
      (opts : List (ChannelConfig Any E → ChannelConfig Any E))
      → All Setting opts
      → stream ≢ ""
      → target ≢ ""
      → ChannelOk (channel p box stream target opts)
        × ((name : String) × (c : ConsumerConfig) × ((channel p box stream target opts).source
              ≡ stream_source stream target name c))
  unfolding channel default_channel_name
  channel-ChannelOk box stream target opts all s t =
      let start : ChannelConfig Any E = record {
        name = default_channel_name target;
        durable = "";
        consumer = delivering p.deliver_all;
        decode = some (decode_tick box);
        extract = some (extract_target target);
      } in
      let ok = configure-ConfigOk opts start all (record {
        named = append-ne-nil_of_right_ne-nil "schedule:" t;
        decodes = λ q. ground arith;
        extracts = λ q. ground arith;
      }) in
      (
        record { named = ok.named; decodes = ok.decodes; extracts = ok.extracts; sound = (s, t) },
        ((configure opts start).durable, (configure opts start).consumer, refl),
      )
