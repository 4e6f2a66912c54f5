-- ===== src/Registry/Race/Solo.antt =====
-- registry.go: two calls of `ref` for one entity that end as no sequential order of them does.
use imps.Base.{
  ℕ, suc, String, pos, ◌+ℤ◌, leb_ℤ, none, some, List, [], ◌∷◌, lookup, insert, ◌≡◌, arith, length,
  true, false,
}
use imps.Registry.{Shape, Memory, load_or_store, reserve, alloc}
use imps.Registry.Calls.{ShapeOk, grown}
use imps.Base.{get_elem?, set}
use imps.Registry.Race.{
  entering, missed, counted, reserved, made, got, over_cap, advance, quiet, Event, start, turn,
  step, run,
}

module _ {Any : Type 0} (e : String) where
  -- The steps of a call with the slots as they stand.
  module _ (sh : Shape Any) (m : Memory Any) where
    advance_miss : lookup e sh.slots ≡ none → advance sh m e entering ≡ (sh, m, missed)
    unfolding advance
    advance_miss h = ground arith

    advance_full : leb_ℤ sh.cap sh.count ≡ true → advance sh m e missed ≡ (sh, m, over_cap)
    unfolding advance
    advance_full h = ground arith

    advance_room : leb_ℤ sh.cap sh.count ≡ false → advance sh m e missed ≡ (sh, m, counted sh.count)
    unfolding advance
    advance_room h = ground arith

    advance_win : advance sh m e (counted sh.count) ≡ (reserve sh, m, reserved)
    unfolding advance
    advance_win = ground arith

    advance_build :
        {make : Unit {0} → Any}
        → sh.factory ≡ some make
        → advance sh m e reserved ≡ (sh, (alloc m (make tt)).0, made m.next)
    unfolding advance
    advance_build h = ground arith

    advance_store :
        (a : ℕ)
        → lookup e sh.slots ≡ none
        → advance sh m e (made a) ≡ (record sh { slots = insert e a sh.slots }, m, got a)
    unfolding advance load_or_store
    advance_store a h = ground arith

-- The first of two calls for one new entity reserves the last place before the second reads the
-- counter.
abbrev pub overtaken : String → List Event
overtaken e = start e ∷ start e ∷ turn 0 ∷ turn 1 ∷ turn 0 ∷ turn 0 ∷ turn 1 ∷ turn 0 ∷ turn 0 ∷ []

module _ {Any : Type 0} (sh : Shape Any) (m : Memory Any) (h : ShapeOk m sh)
    (last : sh.cap ≡ pos (suc (length sh.slots))) where
  room_left : leb_ℤ sh.cap sh.count ≡ false
  room_left = ground (arith, h.counted)

  none_left : leb_ℤ (reserve sh).cap (reserve sh).count ≡ true
  unfolding ◌+ℤ◌
  none_left = ground (arith, h.counted)

  -- On a well-formed shape with a factory and one place left, there is an interleaving of two
  -- calls for one new entity in which the second is refused, although the entity has its slot in
  -- the end.
  pub run-overtaken :
      (e : String) {make : Unit {0} → Any}
      → lookup e sh.slots ≡ none
      → sh.factory ≡ some make
      → run (quiet sh m) (overtaken e) ≡ record {
        shape = grown sh e m.next;
        memory = (alloc m (make tt)).0;
        calls =
            (record { entity = e; point = got m.next })
            ∷ (record { entity = e; point = over_cap })
            ∷ [];
      }
  unfolding run step get_elem? set
  run-overtaken e {make} new is =
      let r = reserve sh in
      simp (
        advance_miss e sh m new,
        advance_room e sh m room_left,
        advance_win e sh m,
        advance_build e r m is,
        advance_full e r m none_left,
        advance_store e r (alloc m (make tt)).0 m.next new,
      )
