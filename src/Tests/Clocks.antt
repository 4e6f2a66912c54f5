-- ===== src/Tests/Clocks.antt =====
-- persist/beacon.go, persist/backend.go and schedule/ on small inputs: a bucket that is an
-- association list, shared by a store of moods and a beacon.
use Prim.Native.String.{count}
use mathlib.Core.Path.{ap}
use text.Mathlib.TextLemmas.{length-append}
use imps.Base.{
  ℕ, ◌+◌, String, ◌<>◌, ℤ, pos, negsuc, ◌-ℤ◌, eq_iff, Bool, true, false, Option, none, some, List,
  [], ◌∷◌, ◌≡◌, refl, ◌≢◌, ◌⊎◌, ◌↔◌, arith, lookup, insert, erase, lookup-insert, lookup-erase,
}
use imps.Errors.{Sentinel, js_key_not_found}
use imps.Request.{configure}
use imps.Persist.Lru.{Residency}
use imps.Persist.Store.{World, Envelope, Codec, Store, key}
use imps.Persist.Store.View.{with_residency}
use imps.Persist.Store.Writes.{Faithful}
use imps.Persist.Store.Delete.{empty_store, empty-StoreOk}
use imps.Persist.Backend.{KeyValue, BackendError, other, kv_backend}
use imps.Persist.Backend.Laws.{IsBucket, kv_world, kv_backend-Faithful}
use imps.Persist.Beacon.{Beacon, Layout, stamp, slept_for}
use imps.Persist.Beacon.Shared.{slept_for-serve_all}
use imps.Persist.Store.History.{Call, Answer, reads, updates, deletes, serve_all}
use imps.Schedule.Register.{
  Outgoing, RegisterConfig, no_config, with_tick_ttl, with_rollup, schedule_message, set_if,
  register,
}
use imps.Schedule.Headers.{Asks, Acceptable, register_lem}

abbrev Bucket : Type 0
Bucket = List (String × List ℕ)

-- The bucket's error on a key that is not there, and another one.
data Failure : Type 0 where
  missing malformed : Failure

abbrev is : Failure → Sentinel → Bool
is missing js_key_not_found = true
is _ _ = false

abbrev bucket : KeyValue Bucket Failure
bucket = record {
  get = λ b k. elim (lookup k b) [ none ↦ ([], some missing) | some raw ↦ (raw, none) ];
  put = λ b k v. (insert k v b, none);
  delete = λ b k. elim (lookup k b) [ none ↦ (b, some missing) | some raw ↦ (erase k b, none) ];
}

bucket-IsBucket : IsBucket is bucket
bucket-IsBucket = record {
  get_put = λ b k v h. ground (arith, lookup-insert k k v b, eq_iff k k);
  get_put_ne = λ b k j v n. ground (arith, lookup-insert k j v b, eq_iff k j);
  get_put_failed = λ b k j v e h. cc;
  get_delete = λ b k h. (missing, ground (arith, lookup-erase k k b, eq_iff k k), refl);
  get_delete_absent = λ b k e h gone. (missing, ground arith, refl);
  get_delete_ne = λ b k j n. ground (arith, lookup-erase k j b, eq_iff k j);
  get_delete_failed = λ b k j e h. ground arith;
}

abbrev unlist : List ℕ → ℕ × Option (BackendError Failure)
unlist (n ∷ []) = (n, none)
unlist _ = (0, some (other malformed))

abbrev unwrap : List ℕ → Envelope × Option (BackendError Failure)
unwrap (t ∷ raw) = (record { state = raw; last_active = pos t }, none)
unwrap [] = (record { state = []; last_active = pos 0 }, some (other malformed))

abbrev wrap : Envelope → List ℕ × Option (BackendError Failure)
wrap v = elim v.last_active [
  | pos t ↦ (t ∷ v.state, none)
  | negsuc _ ↦ ([], some (other malformed))
]

abbrev codec : Codec ℕ (BackendError Failure)
codec = record { marshal = λ n. (n ∷ [], none); unmarshal = unlist }

abbrev json : Codec Envelope (BackendError Failure)
json = record { marshal = wrap; unmarshal = unwrap }

abbrev world : World ℕ Bucket (BackendError Failure)
world = kv_world is bucket 0 codec json

world-Faithful : Faithful world
world-Faithful =
    kv_backend-Faithful is bucket 0 codec json bucket-IsBucket (λ v raw h. ground arith)
      (λ v raw h. ground arith)

-- Times of the beacon as the numbers that they are.
abbrev parse : List ℕ → ℤ × Option (BackendError Failure)
parse (t ∷ []) = (pos t, none)
parse _ = (pos 0, some (other malformed))

abbrev layout : Layout (BackendError Failure)
layout = record { format = λ t. elim t [ pos n ↦ n ∷ [] | negsuc _ ↦ [] ]; parse = parse }

abbrev beacon : Beacon
beacon = record { name = "boot" }

abbrev moods : Store ℕ
moods = empty_store "mood" (pos 1)

abbrev calls : List (Call ℕ)
calls = updates (pos 70) (pos 70) "ann" (λ n. n + 1) ∷ reads (pos 71) "bob" ∷ deletes "ann" ∷ []

stamped : (stamp layout world.backend (pos 60) beacon []).1 ≡ none
unfolding stamp kv_backend
stamped = refl

-- The keys of the store are longer than the beacon's name.
keys_apart : (e : String) → key moods e ≢ "boot"
unfolding key empty_store
keys_apart e h =
    let short : count (("mood" <> ".") <> e) ≡ 4 = ap count h in
    let long : count (("mood" <> ".") <> e) ≡ 5 + count e = length-append ("mood" <> ".") e in
    omega arith

slept_for-serve_all_example :
    (r : Residency ℕ) × (b' : Bucket) × (got : List (Answer ℕ (BackendError Failure))) × (serve_all
        world moods
        (stamp layout world.backend (pos 60) beacon []).0
        calls
      ≡ some ((with_residency moods r, b'), got))
    × (slept_for layout world.backend world.is (pos 100) beacon b'
        ≡ (pos 100 -ℤ pos 60, true, none))
slept_for-serve_all_example =
    slept_for-serve_all world world-Faithful layout (pos 60) (pos 100) beacon moods [] calls refl
      stamped
      (empty-StoreOk world "mood" (pos 1) (stamp layout world.backend (pos 60) beacon []).0
        (omega arith))
      keys_apart

-- A schedule of noon with ticks of an hour, and one whose lifetime is not positive.
abbrev print : ℤ → String
print d = "1h0m0s"

abbrev accepts : Outgoing → Option Failure
accepts m = none

abbrev noon : List (RegisterConfig → RegisterConfig)
noon = with_tick_ttl (pos 3600000000000) ∷ with_rollup ∷ []

noon_sent : register print accepts "schedules.noon" "0 0 12 * * *" "ticks.noon" noon ≡ (
  (record {
    subject = "schedules.noon";
    headers =
        ("Nats-Schedule", "0 0 12 * * *")
        ∷ ("Nats-Schedule-Target", "ticks.noon")
        ∷ ("Nats-Schedule-TTL", "1h0m0s")
        ∷ ("Nats-Schedule-Rollup", "sub")
        ∷ [];
    data_bytes = [];
  })
      ∷ [],
  none,
)
unfolding register schedule_message set_if insert configure with_tick_ttl with_rollup
noon_sent = refl

register_lem_example :
    (Acceptable "schedules.noon" "@hourly" "ticks"
        (configure (with_tick_ttl (pos 0) ∷ []) no_config)
      × ((m : Outgoing) × ((register print accepts "schedules.noon" "@hourly" "ticks"
              (with_tick_ttl (pos 0) ∷ [])).0
            ≡ m ∷ [])
          × Asks print "schedules.noon" "@hourly" "ticks"
              (configure (with_tick_ttl (pos 0) ∷ []) no_config)
              m
          × (((register print accepts "schedules.noon" "@hourly" "ticks"
                  (with_tick_ttl (pos 0) ∷ [])).1
                ≡ none)
              ↔ (accepts m ≡ none))))
    ⊎ (¬ Acceptable "schedules.noon" "@hourly" "ticks"
          (configure (with_tick_ttl (pos 0) ∷ []) no_config)
        × ((register print accepts "schedules.noon" "@hourly" "ticks"
              (with_tick_ttl (pos 0) ∷ [])).0
            ≡ [])
        × ((register print accepts "schedules.noon" "@hourly" "ticks"
              (with_tick_ttl (pos 0) ∷ [])).1
            ≢ none))
register_lem_example =
    register_lem print accepts "schedules.noon" "@hourly" "ticks" (with_tick_ttl (pos 0) ∷ [])
