-- ===== src/Tests/Sharing.antt =====
-- persist/store.go with two stores of two types in one bucket.
use Prim.Native.String.{count}
use text.Mathlib.TextLemmas.{length-append}
use imps.Base.{
  ℕ, ◌+◌, String, ◌<>◌, pos, ◌≢◌, ◌↔◌, none, some, List, [], ◌∷◌, ◌≡◌, refl, ap, eq_iff, Option,
  arith,
}
use imps.Persist.Store.{World, Store, key}
use imps.Persist.Store.Writes.{Faithful}
use imps.Persist.Store.Keys.{Meet, Separate, key_iff}
use imps.Persist.Store.Delete.{empty_store, empty-StoreOk}
use imps.Persist.Store.History.{reads, updates, deletes, Answer, serve}
use imps.Persist.Store.History.Beside.{
  Turn, first, second, Both, serve_both, Served, serve_both_lem,
}
use imps.Tests.Durable.{Bucket, Failure, world, world-Faithful, program}

-- The second store keeps lists of numbers, as they are.
abbrev listing : World (List ℕ) Bucket Failure
listing = record {
  zero = [];
  codec = record { marshal = λ l. (l, none); unmarshal = λ raw. (raw, none) };
  json = world.json;
  backend = world.backend;
  is = world.is;
}

listing-Faithful : Faithful listing
listing-Faithful = record {
  codec_ok = λ v raw h. ground arith;
  json_ok = world-Faithful.json_ok;
  get_put = world-Faithful.get_put;
  get_put_ne = world-Faithful.get_put_ne;
  get_put_failed = world-Faithful.get_put_failed;
  get_delete = world-Faithful.get_delete;
  get_delete_ne = world-Faithful.get_delete_ne;
  get_delete_failed = world-Faithful.get_delete_failed;
}

abbrev moods : Store ℕ
moods = empty_store "mood" (pos 1)

abbrev trails : Store (List ℕ)
trails = empty_store "path" (pos 2)

-- A name of the length of another is not the other with more after it.
longer : (n m : String) → count n ≡ count m → (q : String) → m ≢ (n <> ".") <> q
longer n m h q p = omega (arith, h, ap count p, length-append (n <> ".") q, length-append n ".")

moods_trails : Separate "mood" "path"
moods_trails =
    (ground (arith, eq_iff "mood" "path"), longer "mood" "path" refl, longer "path" "mood" refl)

abbrev both_stores : List (Turn ℕ (List ℕ))
both_stores =
    first (updates (pos 5) (pos 6) "ann" (λ n. n + 1))
    ∷ second (updates (pos 7) (pos 8) "ann" (λ l. 4 ∷ l))
    ∷ first (reads (pos 9) "ann")
    ∷ second (deletes "ann")
    ∷ first (reads (pos 9) "ann")
    ∷ second (reads (pos 9) "ann")
    ∷ []

abbrev start : Both ℕ (List ℕ) Bucket
start = record { left = moods; right = trails; bucket = [] }

abbrev answers : Option (List (Answer ℕ Failure) × List (Answer (List ℕ) Failure))
answers = elim (serve_both world listing start both_stores) [
  | none ↦ none
  | some (end, got, got') ↦ some (got, got')
]

both_answered :
    answers
    ≡ some ((1, none) ∷ (1, none) ∷ (1, none) ∷ [], (4 ∷ [], none) ∷ ([], none) ∷ ([], none) ∷ [])
unfolding program serve serve_both
both_answered = refl

serve_both_lem_example : Served world listing start both_stores
unfolding empty_store
serve_both_lem_example =
    serve_both_lem world listing world-Faithful listing-Faithful refl moods trails [] both_stores
      moods_trails (empty-StoreOk world "mood" (pos 1) [] (omega arith))
      (empty-StoreOk listing "path" (pos 2) [] (omega arith))

-- One name is the other with a dot and a text after it.
key_iff_example :
    (key moods "old.ann" ≡ key (empty_store {T = List ℕ} "mood.old" (pos 2)) "ann")
    ↔ Meet moods.name (empty_store {T = List ℕ} "mood.old" (pos 2)).name "old.ann" "ann"
key_iff_example = key_iff moods (empty_store "mood.old" (pos 2)) "old.ann" "ann"
