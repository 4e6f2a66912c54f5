-- ===== src/Persist/Beacon/Shared.antt =====
-- The beacon in a bucket that it shares with a store.
use imps.Base.{String, ℤ, ◌-ℤ◌, true, none, some, List, [], ◌∷◌, ◌≡◌, refl, ◌∙◌, arith, ◌≢◌}
use imps.Persist.Lru.{Residency}
use imps.Persist.Store.{World, Store, key}
use imps.Persist.Store.Writes.{Faithful}
use imps.Persist.Store.View.{StoreOk, with_residency}
use imps.Persist.Store.History.{Call, Answer, serve_all}
use imps.Persist.Store.History.Maps.{serve_all-cons}
use imps.Persist.Store.History.Elsewhere.{serve_lem}
use imps.Persist.Beacon.{Beacon, Layout, stamp, slept_for}

module _ {T B E : Type 0} (w : World T B E) (law : Faithful w) (layout : Layout E) where
  -- What `SleptFor` reads depends on the beacon's key alone.
  slept_same :
      (now : ℤ) (bc : Beacon) (b b' : B)
      → w.backend.get b' bc.name ≡ w.backend.get b bc.name
      → slept_for layout w.backend w.is now bc b' ≡ slept_for layout w.backend w.is now bc b
  unfolding slept_for
  slept_same now bc b b' h = ground arith

  slept_for-stamp :
      (t now : ℤ) (bc : Beacon) (b : B)
      → layout.parse (layout.format t) ≡ (t, none)
      → (stamp layout w.backend t bc b).1 ≡ none
      → slept_for layout w.backend w.is now bc (stamp layout w.backend t bc b).0
        ≡ (now -ℤ t, true, none)
  unfolding slept_for stamp
  slept_for-stamp t now bc b p h = ground (arith, law.get_put b bc.name (layout.format t) h)

  serve_all_lem :
      (s : Store T) (b : B) (cs : List (Call T)) (k : String)
      → StoreOk w s b
      → ((e : String) → key s e ≢ k)
      → (r : Residency T) × (b' : B) × (got : List (Answer T E)) × (serve_all w s b cs
          ≡ some ((with_residency s r, b'), got))
        × (w.backend.get b' k ≡ w.backend.get b k)
  unfolding serve_all key
  serve_all_lem s b [] k h n = (s.residency, b, [], refl, refl)
  serve_all_lem s b (c ∷ cs) k h n =
      let (r, b1, a, now, h', same) = serve_lem w law s b c h in
      let (r2, b2, got, end, same2) = serve_all_lem (with_residency s r) b1 cs k h' n in
      let all =
        serve_all-cons w s (with_residency s r) b b1 c cs a (with_residency s r2, b2) got now end in
      (r2, b2, a ∷ got, all, same2 ∙ same k n)

  -- A backend that keeps its promises is shared by a beacon and a store without a wake hook, none of
  -- whose keys is the beacon's name, and times parse as they were printed. If the beacon was stamped
  -- without an error, then any calls of the store's Get, Update and Delete run without a panic, and
  -- SleptFor then tells the time since the stamp, without an error.
  pub slept_for-serve_all :
      (t now : ℤ) (bc : Beacon) (s : Store T) (b : B) (cs : List (Call T))
      → layout.parse (layout.format t) ≡ (t, none)
      → (stamp layout w.backend t bc b).1 ≡ none
      → StoreOk w s (stamp layout w.backend t bc b).0
      → ((e : String) → key s e ≢ bc.name)
      → (r : Residency T) × (b' : B) × (got : List (Answer T E)) × (serve_all w s
            (stamp layout w.backend t bc b).0
            cs
          ≡ some ((with_residency s r, b'), got))
        × (slept_for layout w.backend w.is now bc b' ≡ (now -ℤ t, true, none))
  slept_for-serve_all t now bc s b cs p h ok n =
      let b1 = (stamp layout w.backend t bc b).0 in
      let (r, b', got, end, same) = serve_all_lem s b1 cs bc.name ok n in
      (r, b', got, end, slept_same now bc b1 b' same ∙ slept_for-stamp t now bc b p h)
