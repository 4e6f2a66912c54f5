-- ===== src/Channels/Teardown.antt =====
-- start.go and the teardown of stream.go: how the channels of an imp are rolled back.
use imps.Base.{String, ◌==◌, not, ◌&&◌, none, some, List, [], ◌∷◌, if◌then◌else◌}
use imps.Channels.{
  Act, unsubscribed, stopped, gave_up, Substrate, ChannelState, Bindings, try_delete,
}

module _ {E : Type 0} (w : Substrate E) where
  -- The deletion of a consumer: the lookup of its stream, whose error is not even logged, then
  -- `DeleteConsumer`, whose error is only logged.
  unfoldable pub delete_consumer : String → String → List Act → List Act
  unfolding try_delete
  delete_consumer stream name log = elim (w.stream log stream) [
    | none ↦ try_delete w stream name log
    | some e ↦ gave_up stream name ∷ log
  ]

module _ {Any E : Type 0} (w : Substrate E) where
  -- The loop of `unwind` over the subscriptions. An error of `Unsubscribe` is only logged.
  unfoldable pub unsubscribe_all :
      List (ChannelState Any E) → List Act → List (ChannelState Any E) × List Act
  unsubscribe_all [] log = ([], log)
  unsubscribe_all (ch ∷ chs) log =
      let (chs', log') =
        unsubscribe_all chs
          (elim ch.subscription [ none ↦ log | some handle ↦ unsubscribed handle ∷ log ]) in
      (record ch { subscription = none } ∷ chs', log')

  -- `ch.streamConsume.Stop()`
  unfoldable pub stop_consuming : ChannelState Any E → List Act → List Act
  stop_consuming ch log = elim ch.stream_consume [ none ↦ log | some handle ↦ stopped handle ∷ log ]

  -- One round of the loop of `teardownStreamConsumers`.
  unfoldable pub teardown_channel : ChannelState Any E → List Act → ChannelState Any E × List Act
  teardown_channel ch log =
      let log' = stop_consuming ch log in
      if ch.ephemeral && (not (ch.consumer_name == "") && not (ch.stream == ""))
      then (
        record ch { stream_consume = none; consumer_name = "" },
        delete_consumer w ch.stream ch.consumer_name log',
      )
      else (record ch { stream_consume = none }, log')

  unfoldable pub teardown_all :
      List (ChannelState Any E) → List Act → List (ChannelState Any E) × List Act
  teardown_all [] log = ([], log)
  teardown_all (ch ∷ chs) log =
      let (ch', log') = teardown_channel ch log in
      let (chs', log'') = teardown_all chs log' in (ch' ∷ chs', log'')

  -- `teardownStreamConsumers`
  unfoldable pub teardown_stream_consumers : Bindings Any E → Bindings Any E
  teardown_stream_consumers b =
      let (chs, log) = teardown_all b.channels b.log in
      if b.js then record b { channels = chs; log = log } else b

  -- `unwind`
  unfoldable pub unwind : Bindings Any E → Bindings Any E
  unfolding teardown_stream_consumers
  unwind b =
      let (chs, log) = unsubscribe_all b.channels b.log in
      teardown_stream_consumers (record b { channels = chs; log = log })
