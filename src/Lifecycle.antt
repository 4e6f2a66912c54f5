-- ===== src/Lifecycle.antt =====
-- internal/lifecycle/state.go: the state of an imp and its atomic holder, whose operations are one
-- step each.
use imps.Base.{ℕ, String, Bool, true, false, eqb, if◌then◌else◌}

-- `type State`
pub data State : Type 0 where
  created starting running draining stopped failed : State

-- The integer that the holder stores.
abbrev pub code : State → ℕ
code created = 0
code starting = 1
code running = 2
code draining = 3
code stopped = 4
code failed = 5

-- `State.String`; the holder has no other integer.
unfoldable pub to_string : State → String
to_string created = "Created"
to_string starting = "Starting"
to_string running = "Running"
to_string draining = "Draining"
to_string stopped = "Stopped"
to_string failed = "Failed"

-- `New`
abbrev pub new_machine : State
new_machine = created

-- `Machine.Get`
abbrev pub get : State → State
get current = current

-- `Machine.Set`, with the state before.
abbrev pub set : State → State → State × State
set current s = (s, current)

-- `Machine.CompareAndSwap`
abbrev pub compare_and_swap : State → State → State → State × Bool
compare_and_swap current prev next =
    if eqb (code current) (code prev) then (next, true) else (current, false)
