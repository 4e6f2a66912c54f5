-- ===== src/Registry/Race/Invariant.antt =====
-- What every interleaving keeps: the counter covers the stored slots and the reservations in
-- progress, and each address belongs to one entity or to one call that has not stored it yet.
use imps.Base.{
  ℕ, ◌+◌, ◌-◌, String, pos, ◌≤ℤ◌, some, List, [], ◌∷◌, ◌++◌, ◌≡◌, refl, sym, ◌≢◌, ◌⊎◌, arith,
  length, Option-cases, inl, inr,
}
use mathlib.Core.Path.{subst}
use imps.Registry.{Shape, Memory}
use imps.Base.{
  get_elem?, set, total, get_elem?-set, get_elem?-snoc, total-set, total-snoc, le-total,
}
use imps.Registry.Race.Steps.{
  pending, PointOk, SlotsOk, advance-covered, advance-le-cap, advance-SlotsOk, advance-made,
  advance-PointOk, advance-PointOk_other,
}
use imps.Registry.Race.{Point, entering, made, Call, advance, System, Event, start, turn, step, run}

pub record Inv {Any : Type 0} (s : System Any) : Type 0 where
  pub covered : s.shape.count ≡ pos (length s.shape.slots + total pending s.calls)
  pub capped : s.shape.count ≤ℤ s.shape.cap
  pub slots_ok : SlotsOk s.shape s.memory
  pub points_ok :
      (i : ℕ) (c : Call) → get_elem? s.calls i ≡ some c → PointOk s.shape s.memory c.entity c.point
  pub owned :
      (i j : ℕ) (c d : Call) (a : ℕ)
      → get_elem? s.calls i ≡ some c
      → get_elem? s.calls j ≡ some d
      → c.point ≡ made a
      → d.point ≡ made a
      → i ≡ j

-- A call in the list after one was added, or after one was replaced.
at_snoc :
    (cs : List Call) (v : Call) (i : ℕ) {c : Call}
    → get_elem? (cs ++ v ∷ []) i ≡ some c
    → ((c ≡ v) × (i ≡ length cs)) ⊎ (get_elem? cs i ≡ some c)
at_snoc cs v i q = ground (arith, get_elem?-snoc cs i v)

at_set :
    (cs : List Call) (v : Call) (i j : ℕ) {b c : Call}
    → get_elem? cs i ≡ some b
    → get_elem? (set cs i v) j ≡ some c
    → ((c ≡ v) × (i ≡ j)) ⊎ ((get_elem? cs j ≡ some c) × (i ≢ j))
at_set cs v i j here q = ground (arith, get_elem?-set cs i j v here)

module _ {Any : Type 0} where
  start-Inv : (s : System Any) (e : String) → Inv s → Inv (step s (start e))
  unfolding step
  start-Inv s e h = record {
    covered = ground (arith, h.covered, total-snoc pending s.calls new);
    capped = h.capped;
    slots_ok = h.slots_ok;
    points_ok = λ i c q. elim (at_snoc s.calls new i q) [
      | inl (is, _) ↦ subst (λ x. PointOk s.shape s.memory x.entity x.point) (sym is) tt
      | inr old ↦ h.points_ok i c old
    ];
    owned = λ i j c d a q r m n.
        ground (arith, at_snoc s.calls new i q, at_snoc s.calls new j r, h.owned i j c d a);
  }
    where
      new : Call
      new = record { entity = e; point = entering }

  -- The call `b` at place `i` moves.
  module _ (s : System Any) (i : ℕ) (b : Call) (here : get_elem? s.calls i ≡ some b)
      (h : Inv s) where
    open h use {covered, capped, slots_ok, points_ok, owned}

    abbrev next : Shape Any × Memory Any × Point
    next = advance s.shape s.memory b.entity b.point

    abbrev moved : Call
    moved = record b { point = next.2 }

    moved-covered : next.0.count ≡ pos (length next.0.slots + total pending (set s.calls i moved))
    moved-covered = ground (
      arith,
      covered,
      le-total pending s.calls i here,
      total-set pending s.calls i moved here,
      advance-covered s.shape s.memory b.entity b.point (total pending s.calls - pending b),
    )

    moved-points :
        (j : ℕ) (c : Call)
        → get_elem? (set s.calls i moved) j ≡ some c
        → PointOk next.0 next.1 c.entity c.point
    moved-points j c q = elim (at_set s.calls moved i j here q) [
      | inl (is, _) ↦
          subst (λ x. PointOk next.0 next.1 x.entity x.point) (sym is)
            (advance-PointOk s.shape s.memory b.entity slots_ok b.point next.2 refl
              (points_ok i b here))
      | inr (old, apart) ↦
          advance-PointOk_other s.shape s.memory b.entity slots_ok b.point c.entity c.point
            (points_ok j c old) (λ a m n. apart (owned i j b c a here old m n))
    ]

    -- A fresh address is above those of the other calls.
    moved_above :
        (j : ℕ) (c : Call) (a : ℕ)
        → next.2 ≡ made a
        → get_elem? s.calls j ≡ some c
        → c.point ≢ made a
    moved_above j c a m q n = omega (
      arith,
      (advance-made s.shape s.memory b.entity b.point a m).1,
      (subst (PointOk s.shape s.memory c.entity) n (points_ok j c q)).0,
    )

    moved-owned :
        (j k : ℕ) (c d : Call) (a : ℕ)
        → get_elem? (set s.calls i moved) j ≡ some c
        → get_elem? (set s.calls i moved) k ≡ some d
        → c.point ≡ made a
        → d.point ≡ made a
        → j ≡ k
    moved-owned j k c d a q r m n = ground (
      arith,
      at_set s.calls moved i j here q,
      at_set s.calls moved i k here r,
      owned j k c d a,
      moved_above j c a,
      moved_above k d a,
    )

  step-Inv : (s : System Any) (v : Event) → Inv s → Inv (step s v)
  unfolding step
  step-Inv s (start e) h = start-Inv s e h
  step-Inv s (turn i) h = elim (Option-cases (get_elem? s.calls i)) [
    | inl none_there ↦ rw (none_there, step) h
    | inr (b, here) ↦
        rw (here, step)
          (record {
            covered = moved-covered s i b here h;
            capped =
                advance-le-cap s.shape s.memory b.entity b.point (h.points_ok i b here) h.capped;
            slots_ok =
                advance-SlotsOk s.shape s.memory b.entity h.slots_ok b.point (h.points_ok i b here);
            points_ok = moved-points s i b here h;
            owned = moved-owned s i b here h;
          })
  ]

  pub run-Inv : (s : System Any) (events : List Event) → Inv s → Inv (run s events)
  unfolding run
  run-Inv s [] h = h
  run-Inv s (v ∷ vs) h = run-Inv (step s v) vs (step-Inv s v h)
