-- ===== src/Registry.antt =====
-- registry.go: the per-entity state slots of an imp. A `*slot` is an address; the slots of all
-- shapes live in one memory. The functions here are one call at a time; `Registry.Race` has the
-- calls of many goroutines interleaved.
pub mod Calls
pub mod Race
pub mod Shapes
use imps.Base.{
  ℕ, suc, ◌+◌, String, ℤ, pos, negsuc, ◌+ℤ◌, leb_ℤ, Option, none, some, List, [], ◌∷◌, eqb, lookup,
  insert, if◌then◌else◌,
}
use imps.Errors.{ImpError, unknown_state_shape, cap_exceeded}
use imps.Spec.{StateShape}

-- `type shape struct`; `count` is an int64 that reserves a place before a slot is stored.
pub record Shape (Any : Type 0) : Type 0 where
  pub name : String
  pub cap : ℤ
  pub factory : Option (Unit {0} → Any)
  pub count : ℤ
  pub slots : List (String × ℕ)

-- The values of the slots by address. Addresses below `next` are taken.
pub record Memory (Any : Type 0) : Type 0 where
  pub next : ℕ
  pub cell : ℕ → Option Any

pub record Registry (Any : Type 0) : Type 0 where
  pub shapes : List (String × Shape Any)
  pub memory : Memory Any

-- What a call of `ref` returns: a `StateRef`, an error, or a panic of the nil factory.
pub data Ref (E : Type 0) : Type 0 where
  ref_to : ℕ → Ref E
  refused : ImpError E → Ref E
  nil_factory : Ref E

module _ {Any : Type 0} where
  abbrev pub store : Memory Any → ℕ → Any → Memory Any
  store m a v = record m { cell = λ b. if eqb a b then some v else m.cell b }

  -- `&slot{val: v}`
  abbrev pub alloc : Memory Any → Any → Memory Any × ℕ
  alloc m v = (
    record m { next = m.next + 1; cell = λ b. if eqb m.next b then some v else m.cell b },
    m.next,
  )

  abbrev new_shape : StateShape Any → Shape Any
  new_shape s = record {
    name = s.name;
    cap = s.cap;
    factory = s.factory;
    count = pos 0;
    slots = [];
  }

  -- The loop of `newRegistry`.
  unfoldable pub add_shapes :
      List (String × Shape Any) → List (StateShape Any) → List (String × Shape Any)
  add_shapes shapes [] = shapes
  add_shapes shapes (s ∷ ss) = add_shapes (insert s.name (new_shape s) shapes) ss

  unfoldable pub new_registry : List (StateShape Any) → Registry Any
  unfolding add_shapes
  new_registry ss = record {
    shapes = add_shapes [] ss;
    memory = record { next = 0; cell = λ _. none };
  }

  -- `sh.slots.LoadOrStore(entity, fresh)`: the address that is stored, and whether it was there.
  unfoldable pub load_or_store : Shape Any → String → ℕ → Shape Any × Option ℕ
  load_or_store sh entity fresh = elim (lookup entity sh.slots) [
    | none ↦ (record sh { slots = insert entity fresh sh.slots }, none)
    | some actual ↦ (sh, some actual)
  ]

  -- `sh.count.CompareAndSwap(current, current + 1)` and `sh.count.Add(-1)`
  abbrev pub reserve : Shape Any → Shape Any
  reserve sh = record sh { count = sh.count +ℤ pos 1 }

  abbrev pub give_back : Shape Any → Shape Any
  give_back sh = record sh { count = sh.count +ℤ negsuc 0 }

  -- The part of `ref` behind the reservation.
  publish : {E : Type 0} → Shape Any → Memory Any → String → Shape Any × Memory Any × Ref E
  publish sh m entity = elim sh.factory [
    | none ↦ (sh, m, nil_factory)
    | some make ↦
        let (m', fresh) = alloc m (make tt) in
        let (sh', actual) = load_or_store sh entity fresh in
        elim actual [ none ↦ (sh', m', ref_to fresh) | some old ↦ (give_back sh', m', ref_to old) ]
  ]

  -- `ref` from the point where the shape is known. With no other goroutine the loop around
  -- `CompareAndSwap` runs once: the count is the one that was just read.
  unfoldable pub ref_in :
      {E : Type 0} → Shape Any → Memory Any → String → Shape Any × Memory Any × Ref E
  unfolding publish load_or_store ◌+ℤ◌
  ref_in sh m entity = elim (lookup entity sh.slots) [
    | some existing ↦ (sh, m, ref_to existing)
    | none ↦
        if leb_ℤ sh.cap sh.count
        then (sh, m, refused (cap_exceeded sh.name sh.cap))
        else publish (reserve sh) m entity
  ]

  unfoldable pub ref : {E : Type 0} → Registry Any → String → String → Registry Any × Ref E
  ref r name entity = elim (lookup name r.shapes) [
    | none ↦ (r, refused (unknown_state_shape name))
    | some sh ↦
        let (sh', m', result) = ref_in sh r.memory entity in
        (record { shapes = insert name sh' r.shapes; memory = m' }, result)
  ]

  -- `stateRef.Get`, `Set` and `Update`: each holds the slot's lock, so it is one step. Get of an
  -- address that was never allocated is `none`.
  unfoldable pub get : Registry Any → ℕ → Option Any
  get r a = r.memory.cell a

  unfoldable pub set : Registry Any → ℕ → Any → Registry Any
  set r a v = record r { memory = store r.memory a v }

  unfoldable pub update : Registry Any → ℕ → (Any → Any) → Registry Any
  update r a f = elim (r.memory.cell a) [
    | none ↦ r
    | some v ↦ record r { memory = store r.memory a (f v) }
  ]
