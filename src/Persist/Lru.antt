-- ===== src/Persist/Lru.antt =====
-- persist/store.go: the resident entries of a `Store`. `resident` maps an entity to a
-- `*list.Element`, an address here; the entry behind it is in `entries`, and `lru` is the list of
-- the addresses, hottest first.
pub mod Addresses
pub mod Coherence
pub mod Evict
pub mod Insert
use imps.Base.{
  ℕ, zero, suc, ◌+◌, String, ℤ, pos, leb_ℤ, Bool, Option, none, some, List, [], ◌∷◌, eqb, length,
  lookup, insert as map_insert, erase, if◌then◌else◌,
}

-- `type entry`
pub record Entry (T : Type 0) : Type 0 where
  pub entity : String
  pub state : T

pub record Residency (T : Type 0) : Type 0 where
  pub bound : ℤ
  pub next : ℕ
  pub entries : ℕ → Option (Entry T)
  pub resident : List (String × ℕ)
  pub lru : List ℕ

-- `container/list` on addresses: `Remove`, `MoveToFront`, `Back`.
unfoldable pub remove : ℕ → List ℕ → List ℕ
remove a [] = []
remove a (b ∷ l) = let rest = remove a l in if eqb a b then rest else b ∷ rest

unfoldable pub member : ℕ → List ℕ → Bool
member a [] = Bool.false
member a (b ∷ l) = let rest = member a l in if eqb a b then Bool.true else rest

-- An element that is not in the list is not moved.
unfoldable pub move_to_front : ℕ → List ℕ → List ℕ
unfolding remove member
move_to_front a l = if member a l then a ∷ remove a l else l

unfoldable pub back : List ℕ → Option ℕ
back [] = none
back (a ∷ []) = some a
back (a ∷ b ∷ l) = back (b ∷ l)

module _ {T : Type 0} where
  -- `s.resident[entity]`, with the entry that the element points to.
  unfoldable pub find : Residency T → String → Option (ℕ × Entry T)
  find r entity = elim (lookup entity r.resident) [
    | none ↦ none
    | some a ↦ elim (r.entries a) [ none ↦ none | some x ↦ some (a, x) ]
  ]

  unfoldable pub touch : Residency T → ℕ → Residency T
  unfolding move_to_front
  touch r a = record r { lru = move_to_front a r.lru }

  -- `el.Value.(*entry[T]).state = next`
  unfoldable pub write : Residency T → ℕ → T → Residency T
  write r a next = elim (r.entries a) [
    | none ↦ r
    | some x ↦ record r {
      entries = λ b. if eqb a b then some (record x { state = next }) else r.entries b;
    }
  ]

  -- `s.lru.Remove(el); delete(s.resident, entity)`
  unfoldable pub drop : Residency T → ℕ → String → Residency T
  unfolding remove
  drop r a entity = record r { lru = remove a r.lru; resident = erase entity r.resident }

  -- The loop of `insert`, on fuel; `none` is the nil dereference at an empty list.
  unfoldable pub evict : ℕ → Residency T → Option (Residency T)
  unfolding back
  evict zero r = none
  evict (suc fuel) r = elim (leb_ℤ r.bound (pos (length r.lru))) [
    | Bool.false ↦ some r
    | Bool.true ↦ elim (back r.lru) [
      | none ↦ none
      | some coldest ↦ elim (r.entries coldest) [
        | none ↦ none
        | some x ↦ evict fuel (drop r coldest x.entity)
      ]
    ]
  ]

  unfoldable pub push_front : Residency T → String → T → Residency T
  push_front r entity state = record r {
    next = r.next + 1;
    entries =
        λ b. if eqb r.next b then some (record { entity = entity; state = state }) else r.entries b;
    resident = map_insert entity r.next r.resident;
    lru = r.next ∷ r.lru;
  }

  -- Each round removes one element, so one round more than the length is fuel enough.
  unfoldable pub insert : Residency T → String → T → Option (Residency T)
  insert r entity state = elim (evict (suc (length r.lru)) r) [
    | none ↦ none
    | some r' ↦ some (push_front r' entity state)
  ]
