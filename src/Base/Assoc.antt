-- ===== src/Base/Assoc.antt =====
-- Go's `map[string]V` and `sync.Map`, as association lists with text keys.
use Prim.Native.Nat.{suc}
use Prim.Native.String.{String}
use mathlib.Core.Path.{◌≡◌, refl}
use mathlib.Core.Bool.{Bool, false, ◌||◌}
use mathlib.Core.Option.{Option, none, some}
use mathlib.Core.List.{List, [], ◌∷◌}
use native.Mathlib.Omega.{arith}
use text.Mathlib.Text.{◌==◌}
use text.Mathlib.TextEquality.{eq_iff}
use imps.Base.Tests.{if◌then◌else◌}
use imps.Base.Lists.{length}

-- The test of `_, dup := seen[name]` over the names seen.
unfoldable pub contains : String → List String → Bool
contains k [] = false
contains k (x ∷ xs) = (x == k) || contains k xs

-- A map over the values `V`; the first entry of a key is the one that counts.
module _ {ℓ} {V : Type ℓ} where
  -- `v, ok := table[name]`
  unfoldable pub lookup : String → List (String × V) → Option V
  lookup name [] = none
  lookup name (entry ∷ table) =
      let later = lookup name table in if entry.0 == name then some entry.1 else later

  -- `table[name] = value`: a name that is there keeps its place.
  unfoldable pub insert : String → V → List (String × V) → List (String × V)
  insert name value [] = (name, value) ∷ []
  insert name value (entry ∷ table) =
      let later = insert name value table in
      if entry.0 == name then (name, value) ∷ table else entry ∷ later

  -- `delete(table, name)`
  unfoldable pub erase : String → List (String × V) → List (String × V)
  erase name [] = []
  erase name (entry ∷ table) =
      let later = erase name table in if entry.0 == name then later else entry ∷ later

  -- What a name reads as after a write, and after a deletion.
  module _ (name other : String) where
    pub lookup-insert :
        (value : V) (table : List (String × V))
        → lookup other (insert name value table)
          ≡ (if name == other then some value else lookup other table)
    unfolding lookup insert
    lookup-insert value [] = ground arith
    lookup-insert value (entry ∷ table) = ground (
      arith,
      lookup-insert value table,
      eq_iff entry.0 name,
      eq_iff entry.0 other,
      eq_iff name other,
    )

    pub lookup-erase :
        (table : List (String × V))
        → lookup other (erase name table) ≡ (if name == other then none else lookup other table)
    unfolding lookup erase
    lookup-erase [] = ground arith
    lookup-erase (entry ∷ table) =
        ground
          (arith, lookup-erase table, eq_iff entry.0 name, eq_iff entry.0 other, eq_iff name other)

  -- A fresh name adds one entry.
  pub length-insert_absent :
      (name : String) (value : V) (table : List (String × V))
      → lookup name table ≡ none
      → length (insert name value table) ≡ suc (length table)
  unfolding lookup insert
  length-insert_absent name value [] h = refl
  length-insert_absent name value (entry ∷ table) h =
      ground (arith, length-insert_absent name value table)
