-- ===== src/Channels/Names.antt =====
-- stream.go and start.go: the names that JetStream gives to consumers, and a channel that is added to
-- those that match what the imp holds.
use imps.Base.{
  String, ◌==◌, Bool, true, false, ◌&&◌, ◌||◌, none, List, [], ◌∷◌, ◌++◌, ◌≡◌, ◌≢◌, refl, ◌⊎◌,
  arith,
}
use imps.Consumer.{Desired, Printing, resolve_consumer}
use imps.Channels.{Act, Substrate, ChannelState, Bindings}
use imps.Channels.Ledger.{
  held, forget_pair, forget_pair_head, subs_of, consumes_of, ephemerals_of, Matches,
}

unfoldable pub has_pair : String → String → List (String × String) → Bool
has_pair s n [] = false
has_pair s n (x ∷ xs) = ((x.0 == s) && (x.1 == n)) || has_pair s n xs

pub forget_pair-append :
    (s n : String) (xs : List (String × String))
    → has_pair s n xs ≡ false
    → forget_pair s n (xs ++ (s, n) ∷ []) ≡ xs
unfolding has_pair forget_pair
forget_pair-append s n [] h = forget_pair_head s n []
forget_pair-append s n (x ∷ xs) h = ground (arith, forget_pair-append s n xs)

-- JetStream gives every ephemeral consumer that it creates a name of its own.
pub record Names {E : Type 0} (w : Substrate E) : Type 0 where
  pub named :
      (log : List Act) (stream : String) (d : Desired)
      → (w.create log stream d).1 ≡ none
      → (w.create log stream d).0 ≢ ""
  pub fresh :
      (log : List Act) (stream : String) (d : Desired)
      → (w.create log stream d).1 ≡ none
      → has_pair stream (w.create log stream d).0 (held log).ephemerals ≡ false

module _ {Any E : Type 0} where
  subs_of-append :
      (chs : List (ChannelState Any E)) (ch : ChannelState Any E)
      → subs_of (chs ++ ch ∷ []) ≡ subs_of chs ++ subs_of (ch ∷ [])
  unfolding subs_of
  subs_of-append [] ch = refl
  subs_of-append (c ∷ chs) ch = ground (arith, subs_of-append chs ch)

  consumes_of-append :
      (chs : List (ChannelState Any E)) (ch : ChannelState Any E)
      → consumes_of (chs ++ ch ∷ []) ≡ consumes_of chs ++ consumes_of (ch ∷ [])
  unfolding consumes_of
  consumes_of-append [] ch = refl
  consumes_of-append (c ∷ chs) ch = ground (arith, consumes_of-append chs ch)

  ephemerals_of-append :
      (chs : List (ChannelState Any E)) (ch : ChannelState Any E)
      → ephemerals_of (chs ++ ch ∷ []) ≡ ephemerals_of chs ++ ephemerals_of (ch ∷ [])
  unfolding ephemerals_of
  ephemerals_of-append [] ch = refl
  ephemerals_of-append (c ∷ chs) ch = ground (arith, ephemerals_of-append chs ch)

module _ {Any E : Type 0} where
  -- A channel is added with acts that get what the channel remembers.
  pub added-Matches :
      (b : Bindings Any E)
      → Matches b
      → (log : List Act) (ch : ChannelState Any E) (streams : List String)
      → (held log).subs ≡ (held b.log).subs ++ subs_of (ch ∷ [])
      → (held log).consumes ≡ (held b.log).consumes ++ consumes_of (ch ∷ [])
      → (held log).ephemerals ≡ (held b.log).ephemerals ++ ephemerals_of (ch ∷ [])
      → (b.js ≡ true) ⊎ ((consumes_of (ch ∷ []) ≡ []) × (ephemerals_of (ch ∷ []) ≡ []))
      → Matches (record b { channels = b.channels ++ ch ∷ []; streams = streams; log = log })
  added-Matches b m log ch streams s c e j = record {
    subs = ground (arith, s, m.subs, subs_of-append b.channels ch);
    consumes = ground (arith, c, m.consumes, consumes_of-append b.channels ch);
    ephemerals = ground (arith, e, m.ephemerals, ephemerals_of-append b.channels ch);
    js =
        ground
          (arith, j, m.js, consumes_of-append b.channels ch, ephemerals_of-append b.channels ch);
  }

-- A consumer that is found or created as an ephemeral one has a name of its own.
pub resolve_consumer-Fresh :
    {E : Type 0} (p : Printing) (w : Substrate E) (log : List Act) (stream durable : String)
    (desired : Desired)
    → Names w
    → let r =
        resolve_consumer p w.is (w.create log stream) (w.consumer log stream) durable desired in
      r.1 ≡ none
      → (r.0.1 ≡ false) ⊎ ((r.0.0 ≢ "") × (has_pair stream r.0.0 (held log).ephemerals ≡ false))
unfolding resolve_consumer
resolve_consumer-Fresh p w log stream durable desired n h =
    let d : Desired = record desired { durable = "" } in
    ground (arith, n.named log stream d, n.fresh log stream d)
