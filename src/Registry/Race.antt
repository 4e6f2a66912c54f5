-- ===== src/Registry/Race.antt =====
-- registry.go, `ref` under concurrency: any number of goroutines, each at a point of its call, and
-- each access to the shared counter or the `sync.Map` as one step.
pub mod Steps
pub mod Invariant
pub mod Safety
pub mod Solo
use imps.Base.{
  ℕ, zero, suc, ◌+◌, String, ℤ, pos, ◌+ℤ◌, eqb_ℤ, leb_ℤ, Option, none, some, List, [], ◌∷◌, ◌++◌,
  lookup, if◌then◌else◌,
}
use imps.Registry.{Shape, Memory, load_or_store, reserve, give_back, alloc}
use imps.Base.{get_elem?, set}

-- Where a call of `ref` stands.
pub data Point : Type 0 where
  -- before `slots.Load`
  entering : Point
  -- before `count.Load`
  missed : Point
  -- before `CompareAndSwap`, with the count that was read
  counted : ℤ → Point
  -- before the factory is called
  reserved : Point
  -- before `LoadOrStore`, with the address of the fresh slot
  made : ℕ → Point
  -- before `count.Add(-1)`, with the slot that another call stored
  lost : ℕ → Point
  -- returned a `StateRef`, `*ErrCapExceeded`, or panicked on a nil factory
  got : ℕ → Point
  over_cap : Point
  panicked : Point

pub record Call : Type 0 where
  pub entity : String
  pub point : Point

module _ {Any : Type 0} where
  -- The next step of a call, on the shape and the memory as they are now.
  unfoldable pub advance : Shape Any → Memory Any → String → Point → Shape Any × Memory Any × Point
  unfolding load_or_store ◌+ℤ◌
  advance sh m e entering = elim (lookup e sh.slots) [
    | some existing ↦ (sh, m, got existing)
    | none ↦ (sh, m, missed)
  ]
  advance sh m e missed =
      if leb_ℤ sh.cap sh.count then (sh, m, over_cap) else (sh, m, counted sh.count)
  advance sh m e (counted current) =
      if eqb_ℤ sh.count current then (reserve sh, m, reserved) else (sh, m, missed)
  advance sh m e reserved = elim sh.factory [
    | none ↦ (sh, m, panicked)
    | some make ↦ let (m', fresh) = alloc m (make tt) in (sh, m', made fresh)
  ]
  advance sh m e (made fresh) =
      let (sh', actual) = load_or_store sh e fresh in
      elim actual [ none ↦ (sh', m, got fresh) | some old ↦ (sh', m, lost old) ]
  advance sh m e (lost old) = (give_back sh, m, got old)
  advance sh m e p = (sh, m, p)

pub record System (Any : Type 0) : Type 0 where
  pub shape : Shape Any
  pub memory : Memory Any
  pub calls : List Call

-- A shape that no call is using.
abbrev pub quiet : {Any : Type 0} → Shape Any → Memory Any → System Any
quiet sh m = record { shape = sh; memory = m; calls = [] }

-- Other goroutines start calls, and the scheduler picks the call that moves.
pub data Event : Type 0 where
  start : String → Event
  turn : ℕ → Event

module _ {Any : Type 0} where
  unfoldable pub step : System Any → Event → System Any
  step s (start e) = record s { calls = s.calls ++ (record { entity = e; point = entering }) ∷ [] }
  step s (turn i) = elim (get_elem? s.calls i) [
    | none ↦ s
    | some c ↦
        let (sh, m, p) = advance s.shape s.memory c.entity c.point in
        record { shape = sh; memory = m; calls = set s.calls i (record c { point = p }) }
  ]

  unfoldable pub run : System Any → List Event → System Any
  run s [] = s
  run s (e ∷ es) = run (step s e) es
