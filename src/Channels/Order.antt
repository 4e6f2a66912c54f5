-- ===== src/Channels/Order.antt =====
-- start.go: which channels `start` binds.
use mathlib.Core.List.{append-nil, append_assoc, map-append}
use imps.Base.{
  String, Bool, true, false, Option, none, some, List, [], ◌∷◌, ◌++◌, map, ◌≡◌, refl, ap, ◌∙◌, sym,
  ◌⊎◌, ◌↔◌, inl, inr, arith, Option-cases,
}
use imps.Errors.{ImpError}
use imps.Spec.{Source, subject_source, stream_source, nil_source, other_source, ChannelSpec}
use imps.Consumer.{ConsumerConfig, build_consumer_config, resolve_consumer}
use imps.Channels.{
  resolved, Substrate, Bindings, act, bind_subject_channel, ensure_jet_stream, start_consuming,
  bind_on_stream, bind_stream_channel, bind_source, start,
}

module _ {Any E : Type 0} where
  -- The declarations of the bound channels.
  abbrev pub declared : Bindings Any E → List (ChannelSpec Any E ConsumerConfig)
  declared b = map (λ ch. ch.spec) b.channels

  -- A channel is bound without an error, or an error leaves the channels as they were.
  abbrev Bound :
      ChannelSpec Any E ConsumerConfig
      → Bindings Any E
      → Bindings Any E × Option (ImpError E)
      → Type 0
  Bound spec b r =
      ((r.1 ≡ none) × (declared r.0 ≡ declared b ++ spec ∷ []))
      ⊎ ((e : ImpError E) × (r.1 ≡ some e) × (declared r.0 ≡ declared b))

module _ {Any E : Type 0} (w : Substrate E) (spec : ChannelSpec Any E ConsumerConfig) where
  declared-ensure_jet_stream :
      (b : Bindings Any E) → declared (ensure_jet_stream w b).0 ≡ declared b
  unfolding ensure_jet_stream
  declared-ensure_jet_stream b = ground arith

  start_consuming-Bound :
      (stream filter name : String) (ephemeral : Bool) (b : Bindings Any E)
      → Bound spec b (start_consuming w spec stream filter name ephemeral b)
  unfolding start_consuming
  start_consuming-Bound stream filter name true b =
      elim (Option-cases (w.consume b.log stream name)) [
        | inr (e, q) ↦ rw (start_consuming, q) (inr (_, refl, refl))
        | inl q ↦ rw (start_consuming, q) (inl (refl, map-append _ b.channels _))
      ]
  start_consuming-Bound stream filter name false b =
      elim (Option-cases (w.consume b.log stream name)) [
        | inr (e, q) ↦ rw (start_consuming, q) (inr (_, refl, refl))
        | inl q ↦ rw (start_consuming, q) (inl (refl, map-append _ b.channels _))
      ]

  bind_on_stream-Bound :
      (stream filter durable : String) (config : ConsumerConfig) (b : Bindings Any E)
      → Bound spec b (bind_on_stream w spec stream filter durable config b)
  unfolding bind_on_stream
  bind_on_stream-Bound stream filter durable config b =
      elim (Option-cases (w.stream b.log stream)) [
        | inr (e, q) ↦ rw (bind_on_stream, q) (inr (_, refl, refl))
        | inl q ↦
            let d = build_consumer_config w.printing.explicit config filter in
            let r =
              resolve_consumer w.printing w.is (w.create b.log stream) (w.consumer b.log stream)
                durable d in
            elim (Option-cases r.1) [
              | inr (e, p) ↦ rw (bind_on_stream, q, p) (inr (e, refl, refl))
              | inl p ↦
                  rw (bind_on_stream, q, p)
                    (start_consuming-Bound stream filter r.0.0 r.0.1
                      (act (resolved stream r.0.0 r.0.1) b))
            ]
      ]

  bind_source-Bound :
      (src : Source ConsumerConfig) (b : Bindings Any E) → Bound spec b (bind_source w spec src b)
  unfolding bind_source bind_subject_channel bind_stream_channel
  bind_source-Bound (subject_source subject) b = elim (Option-cases (w.subscribe b.log subject)) [
    | inr (e, q) ↦ rw (bind_source, bind_subject_channel, q) (inr (_, refl, refl))
    | inl q ↦ rw (bind_source, bind_subject_channel, q) (inl (refl, map-append _ b.channels _))
  ]
  bind_source-Bound (stream_source stream filter durable config) b =
      elim (Option-cases (ensure_jet_stream w b).1) [
        | inr (e, q) ↦
            rw (bind_source, bind_stream_channel, q) (inr (e, refl, declared-ensure_jet_stream b))
        | inl q ↦
            rw (bind_source, bind_stream_channel, q, ← declared-ensure_jet_stream b)
              (bind_on_stream-Bound stream filter durable config (ensure_jet_stream w b).0)
      ]
  bind_source-Bound nil_source b = inr (_, refl, refl)
  bind_source-Bound other_source b = inr (_, refl, refl)

module _ {Any E : Type 0} (w : Substrate E) where
  -- The imp's `start` binds the channels in the order of the spec up to the first one that fails, each
  -- once, and no other; it returns no error exactly when none is left.
  pub start_lem :
      (specs : List (ChannelSpec Any E ConsumerConfig)) (b : Bindings Any E)
      → (bound left : List (ChannelSpec Any E ConsumerConfig)) × (bound ++ left ≡ specs)
        × (declared (start w specs b).0 ≡ declared b ++ bound)
        × (((start w specs b).1 ≡ none) ↔ (left ≡ []))
  unfolding start
  start_lem [] b = ([], [], refl, sym (append-nil (declared b)), (λ h. refl, λ h. refl))
  start_lem (spec ∷ specs) b = elim (bind_source-Bound w spec spec.source b) [
    | inr (e, q, same) ↦
        rw (start, q)
          ([], spec ∷ specs, refl, same ∙ sym (append-nil (declared b)), (λ h. cc, λ h. cc))
    | inl (q, more) ↦
        let (bound, left, all, now, done) = start_lem specs (bind_source w spec spec.source b).0 in
        rw (start, q)
          (
            spec ∷ bound,
            left,
            ap (λ l. spec ∷ l) all,
            now ∙ ap (λ l. l ++ bound) more ∙ append_assoc (declared b) (spec ∷ []) bound,
            done,
          )
  ]
