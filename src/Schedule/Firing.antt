-- ===== src/Schedule/Firing.antt =====
-- From `Register` to awareness: the tick of a registered schedule on the schedule's channel. What the
-- server does in between is in `Fires`.
use imps.Base.{
  ℕ, String, eq_iff, ℤ, Option, none, some, List, [], ◌∷◌, All, ◌≡◌, refl, sym, ◌∙◌, ◌≢◌, inl, inr,
  arith, lookup, Option-cases,
}
use imps.Metrics.{mark_nak, mark_awareness_panic}
use imps.Spec.{Message, ChannelSpec}
use imps.Consumer.{ConsumerConfig}
use imps.Request.{configure}
use imps.Dispatch.{Callbacks, Harness, nak, ack, act, emit, count, dispatch_stream}
use imps.Schedule.Register.{Outgoing, RegisterConfig, register}
use imps.Schedule.Headers.{register_lem}
use imps.Schedule.Channel.{
  Policies, Tick, ChannelConfig, header, default_channel_name, with_durable, with_start_seq,
  with_start_time, with_name, delivering, decode_tick, extract_target, channel,
}

-- What the server publishes when the schedule in `sent` fires: a message on the target of the
-- schedule, with the schedule's subject in the header `Nats-Scheduler`.
pub record Fires (sent : Outgoing) (msg : Message) : Type 0 where
  pub aimed : lookup "Nats-Schedule-Target" sent.headers ≡ some msg.subject
  pub signed : lookup "Nats-Scheduler" msg.headers ≡ some sent.subject

module _ {Any E : Type 0} (p : Policies) where
  -- The options of a channel that leave the decoder and the extractor as they are.
  pub data Plain : (ChannelConfig Any E → ChannelConfig Any E) → Type 0 where
    durable : (name : String) → Plain (with_durable name)
    start_seq : (seq : ℕ) → Plain (with_start_seq p seq)
    start_time : (t : ℤ) → Plain (with_start_time p t)
    name : (n : String) → Plain (with_name n)

  Plain-decoding :
      (f : ChannelConfig Any E → ChannelConfig Any E) (c : ChannelConfig Any E)
      → Plain f
      → ((f c).decode ≡ c.decode) × ((f c).extract ≡ c.extract)
  unfolding with_durable with_start_seq with_start_time with_name
  Plain-decoding _ c (durable n) = (refl, refl)
  Plain-decoding _ c (start_seq n) = (refl, refl)
  Plain-decoding _ c (start_time t) = (refl, refl)
  Plain-decoding _ c (name n) = (refl, refl)

  configure-decoding :
      (opts : List (ChannelConfig Any E → ChannelConfig Any E)) (c : ChannelConfig Any E)
      → All Plain opts
      → ((configure opts c).decode ≡ c.decode) × ((configure opts c).extract ≡ c.extract)
  unfolding configure
  configure-decoding [] c all = (refl, refl)
  configure-decoding (f ∷ fs) c all =
      let (d, x) = Plain-decoding f c all.0 in
      let (d', x') = configure-decoding fs (f c) all.1 in (d' ∙ d, x' ∙ x)

-- The harness calls the decoder and the extractor of the channel.
pub record Serves {W Any E : Type 0} (c : Callbacks W Any E)
    (spec : ChannelSpec Any E ConsumerConfig) : Type 0 where
  pub decodes : spec.decode ≡ some c.decode
  pub extracts : spec.extract_entity ≡ some c.extract_entity

module _ {W Any E : Type 0} (c : Callbacks W Any E) where
  -- A message from JetStream that gets to awareness as `reason`, for `entity`.
  abbrev pub at_awareness : Any → String → Harness W Any → Harness W Any
  at_awareness reason entity h =
      let (w, verdict) = c.awareness reason entity h.world in
      elim verdict [
        | none ↦ emit nak (count mark_nak (count mark_awareness_panic (record h { world = w })))
        | some v ↦ act c entity v (emit ack (record h { world = w }))
      ]

  dispatch_stream-at_awareness :
      (msg : Message) (h : Harness W Any) (reason : Any) (entity : String)
      → c.decode msg ≡ (reason, none)
      → c.extract_entity reason ≡ (entity, none)
      → entity ≢ ""
      → dispatch_stream c msg h ≡ at_awareness reason entity h
  unfolding dispatch_stream
  dispatch_stream-at_awareness msg h reason entity d x n =
      elim (Option-cases (c.awareness reason entity h.world).1) [
        | inl q ↦ ground (arith, d, x, q, eq_iff entity "")
        | inr (v, q) ↦ ground (arith, d, x, q, eq_iff entity "")
      ]

  module _ (p : Policies) (box : Tick → Any) where
    channel-decoding :
        (stream target : String) (opts : List (ChannelConfig Any E → ChannelConfig Any E))
        → All (Plain p) opts
        → Serves c (channel p box stream target opts)
        → ((msg : Message) → c.decode msg ≡ decode_tick box msg)
          × ((reason : Any) → c.extract_entity reason ≡ extract_target target reason)
    unfolding channel
    channel-decoding stream target opts all s =
        let start : ChannelConfig Any E = record {
          name = default_channel_name target;
          durable = "";
          consumer = delivering p.deliver_all;
          decode = some (decode_tick box);
          extract = some (extract_target target);
        } in
        let (d, x) = configure-decoding p opts start all in
        let same : c.decode ≡ decode_tick box = cc (sym s.decodes ∙ d) in
        let same' : c.extract_entity ≡ extract_target target = cc (sym s.extracts ∙ x) in
        ((λ msg i. same i msg), (λ reason i. same' i reason))

    -- If Register hands a schedule to the server, the server publishes a message when the schedule
    -- fires, and the imp hears it on a channel for the schedule's target that has the package's decoder
    -- and extractor: the message gets to awareness as a tick with the target, the schedule's subject
    -- and the time of the next firing that the server gives, for the target as the entity.
    pub dispatch_stream-register :
        (print : ℤ → String) (publish : Outgoing → Option E)
        (subject pattern target stream : String) (asked : List (RegisterConfig → RegisterConfig))
        (sent : Outgoing) (opts : List (ChannelConfig Any E → ChannelConfig Any E)) (msg : Message)
        (h : Harness W Any)
        → (register print publish subject pattern target asked).0 ≡ sent ∷ []
        → Fires sent msg
        → All (Plain p) opts
        → Serves c (channel p box stream target opts)
        → dispatch_stream c msg h
          ≡ at_awareness
              (box (record {
                subject = target;
                scheduler = subject;
                next = header "Nats-Schedule-Next" msg.headers;
              }))
              target
              h
    unfolding decode_tick extract_target header
    dispatch_stream-register print publish subject pattern target stream asked sent opts msg h r f
          all s =
        elim (register_lem print publish subject pattern target asked) [
          | inr (bad, nothing, err) ↦ cc
          | inl (fine, (m, once, asks, _)) ↦
              let (d, x) = channel-decoding stream target opts all s in
              let same : sent ≡ m = cc in
              let aimed : msg.subject ≡ target = ground (arith, f.aimed, asks.hits) in
              let signed : header "Nats-Scheduler" msg.headers ≡ subject =
                ground (arith, f.signed, asks.on) in
              dispatch_stream-at_awareness msg h
                (box (record {
                  subject = target;
                  scheduler = subject;
                  next = header "Nats-Schedule-Next" msg.headers;
                }))
                target (d msg ∙ ground (arith, aimed, signed)) (x _) fine.targeted
        ]
