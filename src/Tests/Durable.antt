-- ===== src/Tests/Durable.antt =====
-- persist/ over a backend that is an association list, with states that are numbers and codecs
-- that write them down as they are.
use imps.Base.{
  ◌≢◌, ◌⊎◌, ℕ, ◌+◌, ◌-◌, String, ℤ, pos, negsuc, ◌-ℤ◌, eq_iff, Bool, true, false, Option, none,
  some, List, [], ◌∷◌, ◌≡◌, refl, arith, lookup, insert, erase, lookup-insert, lookup-erase,
}
use imps.Errors.{ImpError, Sentinel, persist_not_found}
use imps.Persist.Lru.{
  Residency, find, touch, write, drop, evict, push_front, insert as insert_entry, move_to_front,
  member, remove, back,
}
use imps.Persist.Lru.Insert.{Inserted, insert_lem}
use imps.Persist.Store.{
  write_through, Codec, new_store, with_codec, default_bound, World, Envelope, Store, get, update,
  delete, rehydrate, key,
}
use imps.Persist.Store.View.{StoreOk, with_residency}
use imps.Persist.Store.Writes.{Faithful}
use imps.Persist.Store.Refine.{Updated, update_lem}
use imps.Persist.Store.Delete.{empty_store, empty-StoreOk}
use imps.Persist.Store.Wake.{update_wakes_once}

abbrev pub Bucket : Type 0
Bucket = List (String × List ℕ)

pub data Failure : Type 0 where
  missing malformed : Failure

abbrev is : Failure → Sentinel → Bool
is missing persist_not_found = true
is _ _ = false

abbrev unlist : List ℕ → ℕ × Option Failure
unlist (n ∷ []) = (n, none)
unlist _ = (0, some malformed)

abbrev unwrap : List ℕ → Envelope × Option Failure
unwrap (t ∷ raw) = (record { state = raw; last_active = pos t }, none)
unwrap [] = (record { state = []; last_active = pos 0 }, some malformed)

abbrev wrap : Envelope → List ℕ × Option Failure
wrap v = elim v.last_active [ pos t ↦ (t ∷ v.state, none) | negsuc _ ↦ ([], some malformed) ]

abbrev fetch : Bucket → String → List ℕ × Option Failure
fetch b k = elim (lookup k b) [ none ↦ ([], some missing) | some raw ↦ (raw, none) ]

abbrev pub world : World ℕ Bucket Failure
world = record {
  zero = 0;
  codec = record { marshal = λ n. (n ∷ [], none); unmarshal = unlist };
  json = record { marshal = wrap; unmarshal = unwrap };
  backend = record {
    get = fetch;
    put = λ b k v. (insert k v b, none);
    delete = λ b k. (erase k b, none);
  };
  is = is;
}

pub world-Faithful : Faithful world
world-Faithful = record {
  codec_ok = λ v raw h. ground arith;
  json_ok = λ v raw h. ground arith;
  get_put = λ b k v h. ground (arith, lookup-insert k k v b, eq_iff k k);
  get_put_ne = λ b k j v h. ground (arith, lookup-insert k j v b, eq_iff k j);
  get_put_failed = λ b k j v e h. cc;
  get_delete = λ b k h. (missing, ground (arith, lookup-erase k k b, eq_iff k k), refl);
  get_delete_ne = λ b k j h. ground (arith, lookup-erase k j b, eq_iff k j);
  get_delete_failed = λ b k j e h. cc;
}

unfoldable pub program : Unit {0}
unfolding get update delete key find touch write drop evict push_front insert_entry move_to_front
    member remove back empty_store lookup insert erase ◌-ℤ◌ rehydrate
program = tt

-- A store with room for one entity, after "ann" was counted up and "bob" has taken her place.
abbrev ann_counted : Bucket
ann_counted = ("mood.ann", 100 ∷ 1 ∷ []) ∷ []

abbrev start : Store ℕ
start = empty_store "mood" (pos 1)

-- A store with a codec of its own, which writes every state down as a pair.
abbrev paired : Codec ℕ Failure
paired = record {
  marshal = λ n. (n ∷ n ∷ [], none);
  unmarshal = λ raw. elim raw [ [] ↦ (0, some malformed) | n ∷ _ ↦ (n, none) ];
}

with_codec_used :
    elim (new_store world "mood" (with_codec paired ∷ [])) [
      | none ↦ none
      | some (w, s) ↦ elim (update w (pos 5) (pos 100) s [] "ann" (λ n. n + 1)) [
        | none ↦ none
        | some ((_, b), _, _) ↦ some b
      ]
    ]
    ≡ some (("mood.ann", 100 ∷ 1 ∷ 1 ∷ []) ∷ [])
unfolding program new_store with_codec default_bound
with_codec_used = refl

start-StoreOk : (b : Bucket) → StoreOk world start b
start-StoreOk b = empty-StoreOk world "mood" (pos 1) b (omega arith)

counted_up : Option (Bucket × ℕ)
counted_up = elim (update world (pos 5) (pos 100) start [] "ann" (λ n. n + 1)) [
  | none ↦ none
  | some ((s, b), v, _) ↦ some (b, v)
]

counted_up_lem : counted_up ≡ some (ann_counted, 1)
unfolding counted_up program
counted_up_lem = refl

update_lem_example :
    (r : Residency ℕ) × (b' : Bucket) × (value : ℕ) × (err : Option (ImpError Failure)) × (update
        world
        (pos 5)
        (pos 100)
        start
        []
        "ann"
        (λ n. n + 1)
      ≡ some ((with_residency start r, b'), value, err))
    × StoreOk world (with_residency start r) b'
    × Updated world world-Faithful start [] b' "ann" (λ n. n + 1) value err
update_lem_example =
    update_lem world world-Faithful (pos 5) (pos 100) start [] "ann" (λ n. n + 1) (start-StoreOk [])

-- A hook that lets a mood fade with time.
abbrev fade : String → ℤ → ℕ → ℕ
fade e elapsed n = elim elapsed [ pos t ↦ n - t | negsuc _ ↦ n ]

abbrev woken : ℕ
woken = fade "ann" (pos 103 -ℤ pos 100) 8

-- The envelope of a state that was stored at 100.
abbrev slept : Bucket
slept = ("mood.ann", 100 ∷ 8 ∷ []) ∷ []

abbrev wrote : Bucket × Option (ImpError Failure)
wrote = write_through world (pos 104) (record start { wake = some fade }) slept "ann" (woken + 1)

update_wakes_once_example :
    (s' s'' : Store ℕ) × (update world
        (pos 103)
        (pos 104)
        (record start { wake = some fade })
        slept
        "ann"
        (λ n. n + 1)
      ≡ some ((s', wrote.0), woken + 1, wrote.1))
    × (((wrote.1 ≡ none) × (get world (pos 200) s' [] "ann" ≡ some (s'', woken + 1, none)))
        ⊎ ((wrote.1 ≢ none) × (get world (pos 200) s' [] "ann" ≡ some (s'', woken, none))))
unfolding program
update_wakes_once_example =
    update_wakes_once world (pos 103) (pos 104) (pos 200) (record start { wake = some fade }) slept
      [] "ann" (λ n. n + 1) fade (100 ∷ 8 ∷ []) (record { state = 8 ∷ []; last_active = pos 100 }) 8
      (start-StoreOk []).residency_ok refl refl refl refl refl

insert_lem_example :
    (r' : Residency ℕ) × (insert_entry start.residency "ann" 3 ≡ some r')
    × Inserted start.residency r' "ann" 3
unfolding program
insert_lem_example = insert_lem start.residency "ann" 3 (start-StoreOk []).residency_ok refl
