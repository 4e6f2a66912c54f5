-- ===== src/Channels/Twice.antt =====
-- start.go: `unwind` a second time, as after a failed start that is followed by a shutdown.
use imps.Base.{false, none, List, [], ◌∷◌, All, ◌≡◌, refl, inl, inr, arith, Bool-cases}
use imps.Channels.{Act, Substrate, ChannelState, Bindings}
use imps.Channels.Teardown.{
  unsubscribe_all, stop_consuming, teardown_channel, teardown_all, teardown_stream_consumers,
  unwind,
}
use imps.Channels.Ledger.{is_ours, teardown_channel_quiet}

module _ {Any E : Type 0} where
  abbrev Left : ChannelState Any E → Type 0
  Left ch = ch.subscription ≡ none

  abbrev Torn : ChannelState Any E → Type 0
  Torn ch = (ch.stream_consume ≡ none) × (is_ours ch ≡ false)

module _ {Any E : Type 0} (w : Substrate E) where
  unsubscribe_all-Left :
      (chs : List (ChannelState Any E)) (log : List Act) → All Left (unsubscribe_all w chs log).0
  unfolding unsubscribe_all
  unsubscribe_all-Left [] log = tt
  unsubscribe_all-Left (ch ∷ chs) log = (refl, unsubscribe_all-Left chs _)

  unsubscribe_all_again :
      (chs : List (ChannelState Any E)) (log : List Act)
      → All Left chs
      → unsubscribe_all w chs log ≡ (chs, log)
  unfolding unsubscribe_all
  unsubscribe_all_again [] log h = refl
  unsubscribe_all_again (ch ∷ chs) log h = ground (arith, unsubscribe_all_again chs log)

  teardown_all-Torn :
      (chs : List (ChannelState Any E)) (log : List Act) → All Torn (teardown_all w chs log).0
  unfolding teardown_all
  teardown_all-Torn [] log = tt
  teardown_all-Torn (ch ∷ chs) log = (teardown_channel_quiet w ch log, teardown_all-Torn chs _)

  teardown_all-Left :
      (chs : List (ChannelState Any E)) (log : List Act)
      → All Left chs
      → All Left (teardown_all w chs log).0
  unfolding teardown_all teardown_channel
  teardown_all-Left [] log h = tt
  teardown_all-Left (ch ∷ chs) log h =
      (ground arith, teardown_all-Left chs (teardown_channel w ch log).1 h.1)

  teardown_all_again :
      (chs : List (ChannelState Any E)) (log : List Act)
      → All Torn chs
      → teardown_all w chs log ≡ (chs, log)
  unfolding teardown_all teardown_channel stop_consuming
  teardown_all_again [] log h = refl
  teardown_all_again (ch ∷ chs) log h = ground (arith, teardown_all_again chs log)

  -- Whatever the bindings are and whatever the substrate answers, deletions that fail included:
  -- unwinding what has been unwound changes nothing and asks nothing of the substrate.
  pub unwind-unwind : (b : Bindings Any E) → unwind w (unwind w b) ≡ unwind w b
  unfolding unwind teardown_stream_consumers
  unwind-unwind b =
      let u = unsubscribe_all w b.channels b.log in
      let t = teardown_all w u.0 u.1 in
      let left = unsubscribe_all-Left b.channels b.log in
      elim (Bool-cases b.js) [
        | inl on ↦ ground (
          arith,
          unsubscribe_all_again t.0 t.1 (teardown_all-Left u.0 u.1 left),
          teardown_all_again t.0 t.1 (teardown_all-Torn u.0 u.1),
        )
        | inr off ↦ ground (arith, unsubscribe_all_again u.0 u.1 left)
      ]
