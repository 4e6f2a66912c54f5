-- ===== src/Tests/Ledgers.antt =====
-- persist/store.go over several calls: one store with room for one entity and one with room for five.
use imps.Base.{ℕ, suc, ◌+◌, pos, ◌≤ℤ◌, none, some, List, [], ◌∷◌, ◌≡◌, refl, arith}
use imps.Persist.Lru.{Residency}
use imps.Persist.Lru.Insert.{ResidencyOk}
use imps.Persist.Store.{Store, resident_count}
use imps.Persist.Store.View.{StoreOk, with_residency}
use imps.Persist.Store.Writes.{view}
use imps.Persist.Store.Delete.{empty_store, empty-StoreOk}
use imps.Persist.Store.History.{Call, reads, updates, deletes, Answer, serve, serve_all, Follows}
use imps.Persist.Store.History.Maps.{history_lem}
use imps.Persist.Store.History.Resident.{serve_all-resident}
use imps.Persist.Store.History.Bound.{Fine, serve_all-bound}
use imps.Tests.Durable.{Bucket, Failure, world, world-Faithful, program}

abbrev small : Store ℕ
small = empty_store "mood" (pos 1)

abbrev large : Store ℕ
large = empty_store "mood" (pos 5)

abbrev calls : List (Call ℕ)
calls =
    updates (pos 5) (pos 6) "ann" (λ n. n + 1)
    ∷ updates (pos 7) (pos 8) "bob" (λ n. n + 4)
    ∷ reads (pos 9) "ann"
    ∷ deletes "bob"
    ∷ reads (pos 9) "bob"
    ∷ []

-- Where the calls on a store end, and what they return.
abbrev end_of : Store ℕ → Store ℕ × Bucket
end_of s = elim (serve_all world s [] calls) [ none ↦ (s, []) | some (end, got) ↦ end ]

abbrev answers_of : Store ℕ → List (Answer ℕ Failure)
answers_of s = elim (serve_all world s [] calls) [ none ↦ [] | some (end, got) ↦ got ]

small_served : serve_all world small [] calls ≡ some (end_of small, answers_of small)
unfolding program serve serve_all
small_served = refl

large_served :
    serve_all world (with_residency small large.residency) [] calls
    ≡ some (end_of large, answers_of large)
unfolding program serve serve_all
large_served = refl

small_answers : answers_of small ≡ (1, none) ∷ (4, none) ∷ (1, none) ∷ (0, none) ∷ (0, none) ∷ []
unfolding program serve serve_all
small_answers = refl

small-Fine : Fine (answers_of small)
unfolding program serve serve_all
small-Fine = (refl, (refl, (refl, (refl, (refl, tt)))))

large-Fine : Fine (answers_of large)
unfolding program serve serve_all
large-Fine = (refl, (refl, (refl, (refl, (refl, tt)))))

small-StoreOk : (n : ℕ) → StoreOk world (empty_store "mood" (pos (suc n))) []
small-StoreOk n = empty-StoreOk world "mood" (pos (suc n)) [] (omega arith)

history_lem_example :
    (r : Residency ℕ) × (b' : Bucket) × (got : List (Answer ℕ Failure)) × (serve_all world small []
        calls
      ≡ some ((with_residency small r, b'), got))
    × StoreOk world (with_residency small r) b'
    × Follows 0 (view world small []) calls got (view world small b')
history_lem_example = history_lem world world-Faithful small [] calls (small-StoreOk 0)

large-StoreOk : StoreOk world (with_residency small large.residency) []
unfolding empty_store
large-StoreOk = small-StoreOk 4

serve_all-bound_example : answers_of small ≡ answers_of large
serve_all-bound_example =
    serve_all-bound world world-Faithful small large.residency [] calls (end_of small)
      (end_of large) (answers_of small) (answers_of large) (small-StoreOk 0) large-StoreOk
      small_served large_served small-Fine large-Fine

-- A store that adds one to what it wakes, on a bucket with an envelope that does not decode.
abbrev waking : Store ℕ
waking = record small { wake = some (λ e elapsed n. n + 1) }

abbrev torn : Bucket
torn = ("mood.ann", []) ∷ ("mood.bob", 3 ∷ []) ∷ []

serve_all-resident_example :
    (s' : Store ℕ) × (b' : Bucket) × (got : List (Answer ℕ Failure)) × (serve_all world waking torn
        calls
      ≡ some ((s', b'), got))
    × ResidencyOk s'.residency
    × (pos (resident_count s') ≤ℤ pos 1)
unfolding empty_store
serve_all-resident_example =
    serve_all-resident world waking torn calls ((small-StoreOk 0).residency_ok)
