-- ===== src/Persist/Beacon.antt =====
-- persist/beacon.go: the restart clock of an imp. The backend, the clock, and the printing and
-- parsing of times in RFC 3339 are parameters; times are nanoseconds.
pub mod Shared
use imps.Base.{
  ℕ, String, ◌==◌, ℤ, pos, ◌-ℤ◌, Bool, true, false, Option, none, some, List, if◌then◌else◌,
}
use imps.Errors.{ImpError, passed, wrapped, Sentinel, persist_not_found}
use imps.Persist.Store.{Backend}

-- `type Beacon struct`; the backend is an argument of the methods.
pub record Beacon : Type 0 where
  pub name : String

-- `NewBeacon`; `none` is the panic on an empty name.
unfoldable pub new_beacon : String → Option Beacon
new_beacon name = if name == "" then none else some (record { name = name })

-- `Format` and `Parse` of package time, in the layout of the beacon.
pub record Layout (E : Type 0) : Type 0 where
  pub format : ℤ → List ℕ
  pub parse : List ℕ → ℤ × Option E

module _ {B E : Type 0} (layout : Layout E) (backend : Backend B E) where
  -- `Stamp`
  unfoldable pub stamp : ℤ → Beacon → B → B × Option E
  stamp now bc b = backend.put b bc.name (layout.format now)

  -- `SleptFor`
  unfoldable pub slept_for : (E → Sentinel → Bool) → ℤ → Beacon → B → ℤ × Bool × Option (ImpError E)
  slept_for is now bc b =
      let (raw, err) = backend.get b bc.name in
      let (last, bad) = layout.parse raw in
      elim err [
        | some e ↦
            if is e persist_not_found then (pos 0, false, none) else (pos 0, false, some (passed e))
        | none ↦ elim bad [
          | some e ↦ (pos 0, false, some (wrapped "persist: decode beacon stamp" e))
          | none ↦ (now -ℤ last, true, none)
        ]
      ]
