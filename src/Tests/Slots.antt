-- ===== src/Tests/Slots.antt =====
-- registry.go on one shape with room for two entities.
use imps.Base.{
  ℕ, String, ℤ, pos, ◌≤ℤ◌, ◌+ℤ◌, none, some, List, [], ◌∷◌, ◌≡◌, refl, ◌↔◌, arith, length, inl,
  lookup, insert,
}
use imps.Registry.{Shape, Memory, ref_in, alloc, load_or_store}
use imps.Registry.Calls.{ShapeOk, grown, Outcome, ref_in-Outcome}
use imps.Registry.Race.{got, over_cap, Call, System, quiet, Event, start, turn, step, advance, run}
use imps.Base.{get_elem?, set as set_elem}
use imps.Registry.Race.Safety.{run_slots_bounded, run_one_slot, run_no_leak}
use imps.Registry.Race.Solo.{overtaken, run-overtaken}

abbrev visits : ℤ → Shape ℕ
visits cap = record {
  name = "visits";
  cap = cap;
  factory = some (λ _. 7);
  count = pos 0;
  slots = [];
}

abbrev fresh_memory : Memory ℕ
fresh_memory = record { next = 0; cell = λ _. none }

visits-ShapeOk : (cap : ℕ) → ShapeOk fresh_memory (visits (pos cap))
unfolding lookup
visits-ShapeOk cap = record {
  counted = refl;
  capped = omega arith;
  held = λ e a q. cc;
  apart = λ d e a p q. cc;
}

-- Two calls for "ann" and one for "bob", all of them between their reads and their writes.
abbrev storm : List Event
storm =
    start "ann"
    ∷ start "ann"
    ∷ start "bob"
    ∷ turn 0
    ∷ turn 1
    ∷ turn 2
    ∷ turn 0
    ∷ turn 1
    ∷ turn 0
    ∷ turn 1
    ∷ turn 1
    ∷ turn 1
    ∷ turn 0
    ∷ turn 1
    ∷ turn 1
    ∷ turn 0
    ∷ turn 1
    ∷ turn 0
    ∷ turn 0
    ∷ turn 2
    ∷ turn 2
    ∷ turn 2
    ∷ turn 2
    ∷ turn 2
    ∷ []

program : Unit {0}
unfolding run step advance ref_in load_or_store ◌+ℤ◌ get_elem? set_elem lookup insert
program = tt

abbrev after : System ℕ
after = run (quiet (visits (pos 2)) fresh_memory) storm

storm_calls :
    after.calls
    ≡ (record { entity = "ann"; point = got 1 })
      ∷ (record { entity = "ann"; point = got 1 })
      ∷ (record { entity = "bob"; point = got 2 })
      ∷ []
unfolding program
storm_calls = refl

-- The same run as the goroutines see it: never more than two slots.
run_slots_bounded_example : pos (length after.shape.slots) ≤ℤ after.shape.cap
run_slots_bounded_example = run_slots_bounded (visits (pos 2)) fresh_memory storm (visits-ShapeOk 2)

abbrev first : Call
first = record { entity = "ann"; point = got 1 }

abbrev third : Call
third = record { entity = "bob"; point = got 2 }

run_one_slot_example : (first.entity ≡ third.entity) ↔ (◌≡◌ {A = ℕ} 1 2)
unfolding program
run_one_slot_example =
    run_one_slot (visits (pos 2)) fresh_memory storm 0 2 first third 1 2 (visits-ShapeOk 2) refl
      refl refl refl

run_no_leak_example : ShapeOk after.memory after.shape
unfolding program
run_no_leak_example =
    run_no_leak (visits (pos 2)) fresh_memory storm (visits-ShapeOk 2)
      (inl (1, refl), (inl (1, refl), (inl (2, refl), tt)))

run-overtaken_example : run (quiet (visits (pos 1)) fresh_memory) (overtaken "ann") ≡ record {
  shape = grown (visits (pos 1)) "ann" 0;
  memory = (alloc fresh_memory 7).0;
  calls =
      (record { entity = "ann"; point = got 0 })
      ∷ (record { entity = "ann"; point = over_cap })
      ∷ [];
}
unfolding lookup
run-overtaken_example =
    run-overtaken (visits (pos 1)) fresh_memory (visits-ShapeOk 1) refl "ann" refl refl

ref_in-Outcome_example :
    Outcome
      (visits (pos 0))
      "ann"
      String
      fresh_memory
      (ref_in {E = String} (visits (pos 0)) fresh_memory "ann")
ref_in-Outcome_example =
    ref_in-Outcome (visits (pos 0)) "ann" String fresh_memory (visits-ShapeOk 0) (λ q. cc)
