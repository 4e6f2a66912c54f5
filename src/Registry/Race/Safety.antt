-- ===== src/Registry/Race/Safety.antt =====
-- What holds of `ref` under every interleaving of any number of calls.
use mathlib.Core.Path.{subst}
use imps.Base.{ℕ, pos, ◌≤ℤ◌, some, List, [], ◌∷◌, lookup, ◌≡◌, refl, ◌↔◌, ◌⊎◌, arith, length, All}
use imps.Registry.{Shape, Memory}
use imps.Registry.Calls.{ShapeOk}
use imps.Base.{get_elem?, total}
use imps.Registry.Race.Steps.{pending, PointOk}
use imps.Registry.Race.Invariant.{Inv, run-Inv}
use imps.Registry.Race.{got, over_cap, Call, System, quiet, Event, run}

-- A call that has returned without a panic.
abbrev pub Returned : Call → Type 0
Returned c = ((a : ℕ) × (c.point ≡ got a)) ⊎ (c.point ≡ over_cap)

none_pending : (cs : List Call) → All Returned cs → total pending cs ≡ 0
unfolding total
none_pending [] h = refl
none_pending (c ∷ cs) h = ground (arith, none_pending cs h.1, h.0)

module _ {Any : Type 0} (sh : Shape Any) (m : Memory Any) where
  quiet-Inv : ShapeOk m sh → Inv (quiet sh m)
  unfolding total get_elem?
  quiet-Inv h = record {
    covered = ground (arith, h.counted);
    capped = h.capped;
    slots_ok = record { held = h.held; apart = h.apart };
    points_ok = λ i c q. absurd (ground arith);
    owned = λ i j c d a q r x y. absurd (ground arith);
  }

  -- On a shape that is well formed when the calls start, whatever calls of ref are started and
  -- however they interleave, at most cap slots are ever stored.
  pub run_slots_bounded :
      (events : List Event)
      → ShapeOk m sh
      → pos (length (run (quiet sh m) events).shape.slots) ≤ℤ (run (quiet sh m) events).shape.cap
  run_slots_bounded events h =
      let v = run-Inv (quiet sh m) events (quiet-Inv h) in ground (arith, v.covered, v.capped)

  -- On a shape that is well formed when the calls start, under every interleaving, two calls of
  -- ref that have returned refer to the same slot exactly when they are for the same entity.
  pub run_one_slot :
      (events : List Event) (i j : ℕ) (c d : Call) (a b : ℕ)
      → ShapeOk m sh
      → get_elem? (run (quiet sh m) events).calls i ≡ some c
      → get_elem? (run (quiet sh m) events).calls j ≡ some d
      → c.point ≡ got a
      → d.point ≡ got b
      → (c.entity ≡ d.entity) ↔ (a ≡ b)
  run_one_slot events i j c d a b h at_i at_j returned returned' = (
    λ same. ground (arith, found, found'),
    λ same. v.slots_ok.apart c.entity d.entity a found (rw same found'),
  )
    where
      s : System Any
      s = run (quiet sh m) events

      v : Inv s
      v = run-Inv (quiet sh m) events (quiet-Inv h)

      found : lookup c.entity s.shape.slots ≡ some a
      found = subst (PointOk s.shape s.memory c.entity) returned (v.points_ok i c at_i)

      found' : lookup d.entity s.shape.slots ≡ some b
      found' = subst (PointOk s.shape s.memory d.entity) returned' (v.points_ok j d at_j)

  -- On a shape that is well formed when the calls start, once every call of ref has returned, the
  -- shape is well formed again: the counter is the number of its slots, within the cap, and
  -- entities are apart.
  pub run_no_leak :
      (events : List Event)
      → ShapeOk m sh
      → All Returned (run (quiet sh m) events).calls
      → ShapeOk (run (quiet sh m) events).memory (run (quiet sh m) events).shape
  run_no_leak events h done =
      let v = run-Inv (quiet sh m) events (quiet-Inv h) in
      record {
        counted = ground (arith, v.covered, none_pending (run (quiet sh m) events).calls done);
        capped = v.capped;
        held = v.slots_ok.held;
        apart = v.slots_ok.apart;
      }
