-- ===== src/Channels/Ledger.antt =====
-- start.go and stream.go: what the imp holds on the substrate, read off the log, beside what its
-- channels remember; and `unwind`, which lets go of all of it.
use imps.Base.{
  ℕ, String, ◌==◌, eq_refl, not, eqb, Bool, true, false, ◌&&◌, none, some, List, [], ◌∷◌, ◌++◌,
  if◌then◌else◌, ◌≡◌, refl, ◌⊎◌, inl, inr, arith, Bool-cases, Option-cases,
}
use imps.Channels.{
  Act, js_opened, subscribed, unsubscribed, consuming, stopped, resolved, deleted, delete_failed,
  gave_up, Substrate, ChannelState, Bindings, try_delete,
}
use imps.Channels.Teardown.{
  unsubscribe_all, stop_consuming, delete_consumer, teardown_channel, teardown_all,
  teardown_stream_consumers, unwind,
}

-- `left` are the ephemeral consumers that stay on JetStream although the imp tried to delete them,
-- `ephemerals` those that it has not tried to delete.
pub record Held : Type 0 where
  pub subs : List ℕ
  pub consumes : List ℕ
  pub ephemerals : List (String × String)
  pub left : List (String × String)

abbrev pub nothing : Held
nothing = record { subs = []; consumes = []; ephemerals = []; left = [] }

unfoldable pub forget : ℕ → List ℕ → List ℕ
forget h [] = []
forget h (x ∷ xs) = let rest = forget h xs in if eqb x h then xs else x ∷ rest

unfoldable pub forget_pair : String → String → List (String × String) → List (String × String)
forget_pair s n [] = []
forget_pair s n (x ∷ xs) =
    let rest = forget_pair s n xs in if (x.0 == s) && (x.1 == n) then xs else x ∷ rest

-- What is held after a log: subscriptions, consume loops, and consumers that JetStream would keep
-- for nobody.
unfoldable pub held : List Act → Held
unfolding forget forget_pair
held [] = nothing
held (js_opened ∷ log) = held log
held (subscribed h ∷ log) = let p = held log in record p { subs = p.subs ++ h ∷ [] }
held (unsubscribed h ∷ log) = let p = held log in record p { subs = forget h p.subs }
held (consuming h ∷ log) = let p = held log in record p { consumes = p.consumes ++ h ∷ [] }
held (stopped h ∷ log) = let p = held log in record p { consumes = forget h p.consumes }
held (resolved s n true ∷ log) =
    let p = held log in record p { ephemerals = p.ephemerals ++ (s, n) ∷ [] }
held (resolved s n false ∷ log) = held log
held (deleted s n ∷ log) =
    let p = held log in record p { ephemerals = forget_pair s n p.ephemerals }
held (delete_failed s n ∷ log) =
    let p = held log in
    record p { ephemerals = forget_pair s n p.ephemerals; left = (s, n) ∷ p.left }
held (gave_up s n ∷ log) =
    let p = held log in
    record p { ephemerals = forget_pair s n p.ephemerals; left = (s, n) ∷ p.left }

module _ {Any E : Type 0} where
  unfoldable pub subs_of : List (ChannelState Any E) → List ℕ
  subs_of [] = []
  subs_of (ch ∷ chs) = elim ch.subscription [ none ↦ subs_of chs | some h ↦ h ∷ subs_of chs ]

  unfoldable pub consumes_of : List (ChannelState Any E) → List ℕ
  consumes_of [] = []
  consumes_of (ch ∷ chs) = elim ch.stream_consume [
    | none ↦ consumes_of chs
    | some h ↦ h ∷ consumes_of chs
  ]

  -- Whether the teardown deletes the consumer of a channel.
  abbrev pub is_ours : ChannelState Any E → Bool
  is_ours ch = ch.ephemeral && (not (ch.consumer_name == "") && not (ch.stream == ""))

  unfoldable pub ephemerals_of : List (ChannelState Any E) → List (String × String)
  ephemerals_of [] = []
  ephemerals_of (ch ∷ chs) =
      let rest = ephemerals_of chs in
      if is_ours ch then (ch.stream, ch.consumer_name) ∷ rest else rest

  -- The channels remember what is held, in the order in which it was got. Without JetStream no
  -- channel has a consumer.
  pub record Matches (b : Bindings Any E) : Type 0 where
    pub subs : (held b.log).subs ≡ subs_of b.channels
    pub consumes : (held b.log).consumes ≡ consumes_of b.channels
    pub ephemerals : (held b.log).ephemerals ≡ ephemerals_of b.channels
    pub js : (b.js ≡ true) ⊎ ((consumes_of b.channels ≡ []) × (ephemerals_of b.channels ≡ []))

forget_head : (h : ℕ) (xs : List ℕ) → forget h (h ∷ xs) ≡ xs
unfolding forget
forget_head h xs = ground arith

pub forget_pair_head :
    (s n : String) (xs : List (String × String)) → forget_pair s n ((s, n) ∷ xs) ≡ xs
unfolding forget_pair
forget_pair_head s n xs = rw (eq_refl s, eq_refl n) refl

module _ {E : Type 0} (w : Substrate E) where
  delete_consumer_lem :
      (s n : String) (rest : List (String × String)) (log : List Act)
      → (held log).ephemerals ≡ (s, n) ∷ rest
      → held (delete_consumer w s n log)
        ≡ record (held log) { ephemerals = rest; left = (held (delete_consumer w s n log)).left }
  unfolding delete_consumer try_delete held
  delete_consumer_lem s n rest log q = ground (arith, forget_pair_head s n rest)

module _ {Any E : Type 0} (w : Substrate E) where
  -- The first loop of `unwind` unsubscribes everything, and leaves the consumers alone.
  unsubscribe_all_lem :
      (chs : List (ChannelState Any E)) (log : List Act)
      → (held log).subs ≡ subs_of chs
      → (held (unsubscribe_all w chs log).1 ≡ record (held log) { subs = [] })
        × (subs_of (unsubscribe_all w chs log).0 ≡ [])
        × (consumes_of (unsubscribe_all w chs log).0 ≡ consumes_of chs)
        × (ephemerals_of (unsubscribe_all w chs log).0 ≡ ephemerals_of chs)
  unfolding unsubscribe_all subs_of consumes_of ephemerals_of held
  unsubscribe_all_lem [] log q = (ground (arith, q), refl, refl, refl)
  unsubscribe_all_lem (ch ∷ chs) log q = elim (Option-cases ch.subscription) [
    | inl free ↦ ground (arith, unsubscribe_all_lem chs log)
    | inr (h, has) ↦
        ground (arith, forget_head h (subs_of chs), unsubscribe_all_lem chs (unsubscribed h ∷ log))
  ]

  stop_consuming_lem :
      (ch : ChannelState Any E) (chs : List (ChannelState Any E)) (log : List Act)
      → (held log).consumes ≡ consumes_of (ch ∷ chs)
      → held (stop_consuming w ch log) ≡ record (held log) { consumes = consumes_of chs }
  unfolding stop_consuming consumes_of held
  stop_consuming_lem ch chs log q = elim (Option-cases ch.stream_consume) [
    | inl still ↦ ground arith
    | inr (h, runs) ↦ ground (arith, forget_head h (consumes_of chs))
  ]

  -- After its round a channel has no consumer.
  pub teardown_channel_quiet :
      (ch : ChannelState Any E) (log : List Act)
      → ((teardown_channel w ch log).0.stream_consume ≡ none)
        × (is_ours (teardown_channel w ch log).0 ≡ false)
  unfolding teardown_channel
  teardown_channel_quiet ch log = elim (Bool-cases (is_ours ch)) [
    | inl ours ↦ rw (teardown_channel, ours) (refl, ground (arith, eq_refl ""))
    | inr not_ours ↦ rw (teardown_channel, not_ours) (refl, not_ours)
  ]

  -- Whatever a channel holds, one round lets go of the first of each kind.
  teardown_channel_lem :
      (ch : ChannelState Any E) (chs : List (ChannelState Any E)) (log : List Act)
      → (held log).consumes ≡ consumes_of (ch ∷ chs)
      → (held log).ephemerals ≡ ephemerals_of (ch ∷ chs)
      → (held (teardown_channel w ch log).1 ≡ record (held log) {
        consumes = consumes_of chs;
        ephemerals = ephemerals_of chs;
        left = (held (teardown_channel w ch log).1).left;
      })
        × ((teardown_channel w ch log).0.subscription ≡ ch.subscription)
  unfolding teardown_channel ephemerals_of
  teardown_channel_lem ch chs log q r = elim (Bool-cases (is_ours ch)) [
    | inl ours ↦
        rw (teardown_channel, ours)
          (
            ground (
              arith,
              stop_consuming_lem ch chs log q,
              delete_consumer_lem w ch.stream ch.consumer_name (ephemerals_of chs)
                  (stop_consuming w ch log),
            ),
            refl,
          )
    | inr not_ours ↦ ground (arith, stop_consuming_lem ch chs log q)
  ]

  teardown_all_lem :
      (chs : List (ChannelState Any E)) (log : List Act)
      → (held log).consumes ≡ consumes_of chs
      → (held log).ephemerals ≡ ephemerals_of chs
      → (held (teardown_all w chs log).1 ≡ record (held log) {
        consumes = [];
        ephemerals = [];
        left = (held (teardown_all w chs log).1).left;
      })
        × (subs_of (teardown_all w chs log).0 ≡ subs_of chs)
        × (consumes_of (teardown_all w chs log).0 ≡ [])
        × (ephemerals_of (teardown_all w chs log).0 ≡ [])
  unfolding teardown_all subs_of consumes_of ephemerals_of held
  teardown_all_lem [] log q r = ground (arith, q, r)
  teardown_all_lem (ch ∷ chs) log q r = ground (
    arith,
    teardown_channel_lem ch chs log q r,
    teardown_channel_quiet ch log,
    teardown_all_lem chs (teardown_channel w ch log).1,
  )

  -- If the channels match the log, then after `unwind` every subscription was unsubscribed, every
  -- consume loop was stopped, and the ephemeral consumers that are left are those whose deletion
  -- failed; and the channels match again.
  pub unwind_lem :
      (b : Bindings Any E)
      → Matches b
      → (held (unwind w b).log ≡ record nothing { left = (held (unwind w b).log).left })
        × Matches (unwind w b)
  unfolding unwind teardown_stream_consumers
  unwind_lem b m =
      let chs = (unsubscribe_all w b.channels b.log).0 in
      let log = (unsubscribe_all w b.channels b.log).1 in
      ground (arith, unsubscribe_all_lem b.channels b.log m.subs, teardown_all_lem chs log)
