-- ===== src/Channels/Start.antt =====
-- start.go: whichever way `start` ends, the channels match what the imp holds.
use mathlib.Core.List.{append-nil}
use imps.Base.{
  String, eq_iff, Bool, true, false, none, some, List, [], ◌∷◌, ◌++◌, All, length, ◌≡◌, ◌≢◌, refl,
  sym, ap, ◌∙◌, ◌⊎◌, inl, inr, arith, Bool-cases, Option-cases,
}
use imps.Spec.{Source, subject_source, stream_source, nil_source, other_source, ChannelSpec}
use imps.Validate.Sound.{IsSound, ChannelOk}
use imps.Consumer.{ConsumerConfig, build_consumer_config, resolve_consumer}
use imps.Channels.{
  subscribed, consuming, resolved, Substrate, Bindings, unbound, act, bind_subject_channel,
  ensure_jet_stream, try_delete, start_consuming, bind_on_stream, bind_stream_channel, bind_source,
  start,
}
use imps.Channels.Teardown.{unwind}
use imps.Channels.Ledger.{nothing, held, subs_of, consumes_of, ephemerals_of, Matches, unwind_lem}
use imps.Channels.Refusals.{refused, Refused, left_lem, unwind-Refused, start-Refused}
use imps.Channels.Names.{Names, has_pair, forget_pair-append, added-Matches, resolve_consumer-Fresh}

module _ {Any E : Type 0} (w : Substrate E) where
  bind_subject_channel-Matches :
      (spec : ChannelSpec Any E ConsumerConfig) (subject : String) (b : Bindings Any E)
      → Matches b
      → Matches (bind_subject_channel w spec subject b).0
  unfolding bind_subject_channel held subs_of consumes_of ephemerals_of
  bind_subject_channel-Matches spec subject b m = elim (Option-cases (w.subscribe b.log subject)) [
    | inr (e, q) ↦ rw (bind_subject_channel, q) m
    | inl q ↦
        rw (bind_subject_channel, q)
          (added-Matches b m (subscribed (length b.log) ∷ b.log)
            (record {
              spec = spec;
              subject = subject;
              subscription = some (length b.log);
              stream = "";
              consumer_name = "";
              ephemeral = false;
              stream_consume = none;
            })
            b.streams refl (sym (append-nil (held b.log).consumes))
            (sym (append-nil (held b.log).ephemerals)) (inr (refl, refl)))
  ]

  ensure_jet_stream-Matches : (b : Bindings Any E) → Matches b → Matches (ensure_jet_stream w b).0
  unfolding ensure_jet_stream held
  ensure_jet_stream-Matches b m = elim (Bool-cases b.js) [
    | inl on ↦ rw (ensure_jet_stream, on) m
    | inr off ↦ elim (Option-cases (w.open_js b.log)) [
      | inl q ↦ rw (ensure_jet_stream, off, q) (ground arith)
      | inr (e, q) ↦ rw (ensure_jet_stream, off, q) m
    ]
  ]

  -- What follows on a consumer that was found or created for the channel.
  start_consuming-Matches :
      (spec : ChannelSpec Any E ConsumerConfig) (stream filter name : String) (ephemeral : Bool)
      (b : Bindings Any E)
      → Matches b
      → b.js ≡ true
      → stream ≢ ""
      → (ephemeral ≡ false) ⊎ ((name ≢ "") × (has_pair stream name (held b.log).ephemerals ≡ false))
      → Matches
          (start_consuming w spec stream filter name ephemeral
            (act (resolved stream name ephemeral) b)).0
  unfolding start_consuming try_delete held subs_of consumes_of ephemerals_of
  start_consuming-Matches spec stream filter name true b m on s f =
      let log = resolved stream name true ∷ b.log in
      elim (Option-cases (w.consume log stream name)) [
        | inr (e, q) ↦
            let gone = forget_pair-append stream name (held b.log).ephemerals in
            rw (start_consuming, q)
              (record {
                subs = ground (arith, m.subs);
                consumes = ground (arith, m.consumes);
                ephemerals = ground (arith, f, m.ephemerals, gone);
                js = inl on;
              })
        | inl q ↦
            rw (start_consuming, q)
              (added-Matches b m (consuming (length log) ∷ log) _ (b.streams ++ stream ∷ [])
                (sym (append-nil (held b.log).subs)) refl
                (ground (arith, f, s, eq_iff stream "", eq_iff name "")) (inl on))
      ]
  start_consuming-Matches spec stream filter name false b m on s f =
      let log = resolved stream name false ∷ b.log in
      elim (Option-cases (w.consume log stream name)) [
        | inr (e, q) ↦
            rw (start_consuming, q)
              (record {
                subs = m.subs;
                consumes = m.consumes;
                ephemerals = m.ephemerals;
                js = inl on;
              })
        | inl q ↦
            rw (start_consuming, q)
              (added-Matches b m (consuming (length log) ∷ log) _ (b.streams ++ stream ∷ [])
                (sym (append-nil (held b.log).subs)) refl (sym (append-nil (held b.log).ephemerals))
                (inl on))
      ]

  bind_on_stream-Matches :
      (spec : ChannelSpec Any E ConsumerConfig) (stream filter durable : String)
      (config : ConsumerConfig) (b : Bindings Any E)
      → Names w
      → Matches b
      → b.js ≡ true
      → stream ≢ ""
      → Matches (bind_on_stream w spec stream filter durable config b).0
  unfolding bind_on_stream
  bind_on_stream-Matches spec stream filter durable config b n m on s =
      elim (Option-cases (w.stream b.log stream)) [
        | inr (e, q) ↦ rw (bind_on_stream, q) m
        | inl q ↦
            let d = build_consumer_config w.printing.explicit config filter in
            let r =
              resolve_consumer w.printing w.is (w.create b.log stream) (w.consumer b.log stream)
                durable d in
            elim (Option-cases r.1) [
              | inr (e, p) ↦ rw (bind_on_stream, q, p) m
              | inl p ↦
                  rw (bind_on_stream, q, p)
                    (start_consuming-Matches spec stream filter r.0.0 r.0.1 b m on s
                      (resolve_consumer-Fresh w.printing w b.log stream durable d n p))
            ]
      ]

  ensure_jet_stream_on :
      (b : Bindings Any E) → (ensure_jet_stream w b).1 ≡ none → (ensure_jet_stream w b).0.js ≡ true
  unfolding ensure_jet_stream
  ensure_jet_stream_on b h = ground arith

  bind_stream_channel-Matches :
      (spec : ChannelSpec Any E ConsumerConfig) (stream filter durable : String)
      (config : ConsumerConfig) (b : Bindings Any E)
      → Names w
      → Matches b
      → stream ≢ ""
      → Matches (bind_stream_channel w spec stream filter durable config b).0
  unfolding bind_stream_channel
  bind_stream_channel-Matches spec stream filter durable config b n m s =
      let m' = ensure_jet_stream-Matches b m in
      elim (Option-cases (ensure_jet_stream w b).1) [
        | inr (e, q) ↦ rw (bind_stream_channel, q) m'
        | inl q ↦
            rw (bind_stream_channel, q)
              (bind_on_stream-Matches spec stream filter durable config (ensure_jet_stream w b).0 n
                m' (ensure_jet_stream_on b q) s)
      ]

  bind_source-Matches :
      (spec : ChannelSpec Any E ConsumerConfig) (src : Source ConsumerConfig) (b : Bindings Any E)
      → Names w
      → IsSound src
      → Matches b
      → Matches (bind_source w spec src b).0
  unfolding bind_source
  bind_source-Matches spec (subject_source subject) b n s m =
      bind_subject_channel-Matches spec subject b m
  bind_source-Matches spec (stream_source stream filter durable config) b n s m =
      bind_stream_channel-Matches spec stream filter durable config b n m s.0
  bind_source-Matches spec nil_source b n s m = m
  bind_source-Matches spec other_source b n s m = m

  pub start-Matches :
      (specs : List (ChannelSpec Any E ConsumerConfig)) (b : Bindings Any E)
      → Names w
      → All ChannelOk specs
      → Matches b
      → Matches (start w specs b).0
  unfolding start
  start-Matches [] b n s m = m
  start-Matches (spec ∷ specs) b n s m =
      let m' = bind_source-Matches spec spec.source b n s.0.sound m in
      elim (Option-cases (bind_source w spec spec.source b).1) [
        | inr (e, q) ↦ rw (start, q) m'
        | inl q ↦ rw (start, q) (start-Matches specs (bind_source w spec spec.source b).0 n s.1 m')
      ]

  -- On a substrate that names what it creates, and for channels that `NewImp` accepts: whether the
  -- imp's `start` binds all channels or stops at an error, the `unwind` that follows, on failure or
  -- at shutdown, lets go of every subscription and every consume loop that was got, and tries to
  -- delete every ephemeral consumer. Those that are left are the ones of which JetStream, asked at
  -- that point, answered the deletion or the lookup of the stream with an error.
  pub unwind-start :
      (specs : List (ChannelSpec Any E ConsumerConfig))
      → Names w
      → All ChannelOk specs
      → let log = (unwind w (start w specs unbound).0).log in
        (held log ≡ record nothing { left = refused log }) × Refused w log
  unfolding held subs_of consumes_of ephemerals_of Refused
  unwind-start specs n s =
      let b = (start w specs unbound).0 in
      let matches =
        start-Matches specs unbound n s
          (record { subs = refl; consumes = refl; ephemerals = refl; js = inr (refl, refl) }) in
      (
        (unwind_lem w b matches).0
            ∙ ap (λ l. record nothing { left = l }) (left_lem (unwind w b).log),
        unwind-Refused w b (start-Refused w specs unbound tt),
      )
