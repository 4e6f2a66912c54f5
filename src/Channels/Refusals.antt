-- ===== src/Channels/Refusals.antt =====
-- stream.go: the ephemeral consumers that could not be deleted, in the rollback of a channel and in the
-- teardown.
use imps.Base.{
  String, Bool, true, false, some, List, [], ◌∷◌, ◌≡◌, refl, ap, Bool-cases, Option-cases, inl, inr,
}
use imps.Spec.{Source, subject_source, stream_source, nil_source, other_source, ChannelSpec}
use imps.Consumer.{ConsumerConfig, build_consumer_config, resolve_consumer}
use imps.Channels.{
  Act, js_opened, subscribed, unsubscribed, consuming, stopped, resolved, deleted, delete_failed,
  gave_up, Substrate, ChannelState, Bindings, bind_subject_channel, ensure_jet_stream, try_delete,
  start_consuming, bind_on_stream, bind_stream_channel, bind_source, start,
}
use imps.Channels.Teardown.{
  unsubscribe_all, stop_consuming, delete_consumer, teardown_channel, teardown_all,
  teardown_stream_consumers, unwind,
}
use imps.Channels.Ledger.{held, is_ours}

-- The consumers whose deletion failed, the latest first.
unfoldable pub refused : List Act → List (String × String)
refused [] = []
refused (js_opened ∷ log) = refused log
refused (subscribed h ∷ log) = refused log
refused (unsubscribed h ∷ log) = refused log
refused (consuming h ∷ log) = refused log
refused (stopped h ∷ log) = refused log
refused (resolved s n e ∷ log) = refused log
refused (deleted s n ∷ log) = refused log
refused (delete_failed s n ∷ log) = (s, n) ∷ refused log
refused (gave_up s n ∷ log) = (s, n) ∷ refused log

pub left_lem : (log : List Act) → (held log).left ≡ refused log
unfolding held refused
left_lem [] = refl
left_lem (js_opened ∷ log) = left_lem log
left_lem (subscribed h ∷ log) = left_lem log
left_lem (unsubscribed h ∷ log) = left_lem log
left_lem (consuming h ∷ log) = left_lem log
left_lem (stopped h ∷ log) = left_lem log
left_lem (resolved s n true ∷ log) = left_lem log
left_lem (resolved s n false ∷ log) = left_lem log
left_lem (deleted s n ∷ log) = left_lem log
left_lem (delete_failed s n ∷ log) = ap (λ l. (s, n) ∷ l) (left_lem log)
left_lem (gave_up s n ∷ log) = ap (λ l. (s, n) ∷ l) (left_lem log)

module _ {E : Type 0} (w : Substrate E) where
  -- Wherever a deletion failed, the substrate had answered with an error: the deletion itself, or the
  -- lookup of the stream.
  unfoldable pub Refused : List Act → Type 0
  Refused [] = Unit {0}
  Refused (js_opened ∷ log) = Refused log
  Refused (subscribed h ∷ log) = Refused log
  Refused (unsubscribed h ∷ log) = Refused log
  Refused (consuming h ∷ log) = Refused log
  Refused (stopped h ∷ log) = Refused log
  Refused (resolved s n e ∷ log) = Refused log
  Refused (deleted s n ∷ log) = Refused log
  Refused (delete_failed s n ∷ log) = ((e : E) × (w.delete log s n ≡ some e)) × Refused log
  Refused (gave_up s n ∷ log) = ((e : E) × (w.stream log s ≡ some e)) × Refused log

  try_delete-Refused :
      (s n : String) (log : List Act) → Refused log → Refused (try_delete w s n log)
  unfolding try_delete Refused
  try_delete-Refused s n log r = elim (Option-cases (w.delete log s n)) [
    | inl q ↦ rw (try_delete, q) r
    | inr (e, q) ↦ rw (try_delete, q) ((e, q), r)
  ]

  delete_consumer-Refused :
      (s n : String) (log : List Act) → Refused log → Refused (delete_consumer w s n log)
  unfolding delete_consumer Refused
  delete_consumer-Refused s n log r = elim (Option-cases (w.stream log s)) [
    | inl q ↦ rw (delete_consumer, q) (try_delete-Refused s n log r)
    | inr (e, q) ↦ rw (delete_consumer, q) ((e, q), r)
  ]

module _ {Any E : Type 0} (w : Substrate E) where
  unsubscribe_all-Refused :
      (chs : List (ChannelState Any E)) (log : List Act)
      → Refused w log
      → Refused w (unsubscribe_all w chs log).1
  unfolding unsubscribe_all Refused
  unsubscribe_all-Refused [] log r = r
  unsubscribe_all-Refused (ch ∷ chs) log r = elim (Option-cases ch.subscription) [
    | inl q ↦ rw q (unsubscribe_all-Refused chs log r)
    | inr (h, q) ↦ rw q (unsubscribe_all-Refused chs (unsubscribed h ∷ log) r)
  ]

  stop_consuming-Refused :
      (ch : ChannelState Any E) (log : List Act)
      → Refused w log
      → Refused w (stop_consuming w ch log)
  unfolding stop_consuming Refused
  stop_consuming-Refused ch log r = elim (Option-cases ch.stream_consume) [
    | inl q ↦ rw (stop_consuming, q) r
    | inr (h, q) ↦ rw (stop_consuming, q) r
  ]

  teardown_channel-Refused :
      (ch : ChannelState Any E) (log : List Act)
      → Refused w log
      → Refused w (teardown_channel w ch log).1
  unfolding teardown_channel
  teardown_channel-Refused ch log r =
      let r' = stop_consuming-Refused ch log r in
      elim (Bool-cases (is_ours ch)) [
        | inl q ↦
            rw (teardown_channel, q)
              (delete_consumer-Refused w ch.stream ch.consumer_name (stop_consuming w ch log) r')
        | inr q ↦ rw (teardown_channel, q) r'
      ]

  teardown_all-Refused :
      (chs : List (ChannelState Any E)) (log : List Act)
      → Refused w log
      → Refused w (teardown_all w chs log).1
  unfolding teardown_all
  teardown_all-Refused [] log r = r
  teardown_all-Refused (ch ∷ chs) log r =
      teardown_all-Refused chs (teardown_channel w ch log).1 (teardown_channel-Refused ch log r)

  pub unwind-Refused : (b : Bindings Any E) → Refused w b.log → Refused w (unwind w b).log
  unfolding unwind teardown_stream_consumers
  unwind-Refused b r =
      let (chs, log) = unsubscribe_all w b.channels b.log in
      let r' = unsubscribe_all-Refused b.channels b.log r in
      elim (Bool-cases b.js) [
        | inl q ↦ rw (unwind, q) (teardown_all-Refused chs log r')
        | inr q ↦ rw (unwind, q) r'
      ]

  start_consuming-Refused :
      (spec : ChannelSpec Any E ConsumerConfig) (stream filter name : String) (ephemeral : Bool)
      (b : Bindings Any E)
      → Refused w b.log
      → Refused w (start_consuming w spec stream filter name ephemeral b).0.log
  unfolding start_consuming Refused
  start_consuming-Refused spec stream filter name ephemeral b r =
      elim (Option-cases (w.consume b.log stream name)) [
        | inl q ↦ rw (start_consuming, q) r
        | inr (e, q) ↦ elim (Bool-cases ephemeral) [
          | inl k ↦ rw (start_consuming, q, k) (try_delete-Refused w stream name b.log r)
          | inr k ↦ rw (start_consuming, q, k) r
        ]
      ]

  bind_on_stream-Refused :
      (spec : ChannelSpec Any E ConsumerConfig) (stream filter durable : String)
      (config : ConsumerConfig) (b : Bindings Any E)
      → Refused w b.log
      → Refused w (bind_on_stream w spec stream filter durable config b).0.log
  unfolding bind_on_stream Refused
  bind_on_stream-Refused spec stream filter durable config b r =
      let found =
        resolve_consumer w.printing w.is (w.create b.log stream) (w.consumer b.log stream) durable
          (build_consumer_config w.printing.explicit config filter) in
      elim (Option-cases (w.stream b.log stream)) [
        | inr (e, q) ↦ rw (bind_on_stream, q) r
        | inl q ↦ elim (Option-cases found.1) [
          | inr (e, p) ↦ rw (bind_on_stream, q, p) r
          | inl p ↦
              rw (bind_on_stream, q, p)
                (start_consuming-Refused spec stream filter found.0.0 found.0.1 _ r)
        ]
      ]

  ensure_jet_stream-Refused :
      (b : Bindings Any E) → Refused w b.log → Refused w (ensure_jet_stream w b).0.log
  unfolding ensure_jet_stream Refused
  ensure_jet_stream-Refused b r = elim (Bool-cases b.js) [
    | inl on ↦ rw (ensure_jet_stream, on) r
    | inr off ↦ elim (Option-cases (w.open_js b.log)) [
      | inl q ↦ rw (ensure_jet_stream, off, q) r
      | inr (e, q) ↦ rw (ensure_jet_stream, off, q) r
    ]
  ]

  bind_stream_channel-Refused :
      (spec : ChannelSpec Any E ConsumerConfig) (stream filter durable : String)
      (config : ConsumerConfig) (b : Bindings Any E)
      → Refused w b.log
      → Refused w (bind_stream_channel w spec stream filter durable config b).0.log
  unfolding bind_stream_channel
  bind_stream_channel-Refused spec stream filter durable config b r =
      let r' = ensure_jet_stream-Refused b r in
      elim (Option-cases (ensure_jet_stream w b).1) [
        | inr (e, q) ↦ rw (bind_stream_channel, q) r'
        | inl q ↦
            rw (bind_stream_channel, q)
              (bind_on_stream-Refused spec stream filter durable config (ensure_jet_stream w b).0
                r')
      ]

  bind_source-Refused :
      (spec : ChannelSpec Any E ConsumerConfig) (src : Source ConsumerConfig) (b : Bindings Any E)
      → Refused w b.log
      → Refused w (bind_source w spec src b).0.log
  unfolding bind_source bind_subject_channel Refused
  bind_source-Refused spec (subject_source subject) b r =
      elim (Option-cases (w.subscribe b.log subject)) [
        | inl q ↦ rw (bind_source, bind_subject_channel, q) r
        | inr (e, q) ↦ rw (bind_source, bind_subject_channel, q) r
      ]
  bind_source-Refused spec (stream_source stream filter durable config) b r =
      bind_stream_channel-Refused spec stream filter durable config b r
  bind_source-Refused spec nil_source b r = r
  bind_source-Refused spec other_source b r = r

  pub start-Refused :
      (specs : List (ChannelSpec Any E ConsumerConfig)) (b : Bindings Any E)
      → Refused w b.log
      → Refused w (start w specs b).0.log
  unfolding start
  start-Refused [] b r = r
  start-Refused (spec ∷ specs) b r =
      let r' = bind_source-Refused spec spec.source b r in
      elim (Option-cases (bind_source w spec spec.source b).1) [
        | inr (e, q) ↦ rw (start, q) r'
        | inl q ↦ rw (start, q) (start-Refused specs (bind_source w spec spec.source b).0 r')
      ]
