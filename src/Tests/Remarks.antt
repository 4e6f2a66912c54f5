-- ===== src/Tests/Remarks.antt =====
-- soulstream/notebridge.go on three notes: a complete one, one without a body, and one that is not
-- for the bridge. The world that the callbacks change is a list of what they were told.
use imps.Base.{ℕ, String, Option, none, some, List, [], ◌∷◌, ◌++◌, All, ◌≡◌, refl}
use imps.Errors.{ImpError}
use imps.Soulstream.Bridge.{Participant, Noted, Payload, noted, plain, Comment, bridge, fail}
use imps.Soulstream.Bridge.Posts.{wanted, IsComplete, hear, hear_lem}

abbrev takes_all : ℕ → Comment → Option ℕ
takes_all client c = none

abbrev next : Option (String → Payload ℕ → List String → List String)
next = some (λ entity x told. told ++ entity ∷ [])

abbrev on_error : Option (String → Noted → ImpError ℕ → List String → List String)
on_error = some (λ entity n err told. told ++ "error" ∷ [])

abbrev imp : Participant ℕ
imp = record { client = 1 }

abbrev notes : List (String × Payload ℕ)
notes =
    ("tea", noted (record { anchor_op = "op1"; body = "yes" }))
    ∷ ("tea", noted (record { anchor_op = "op2"; body = "" }))
    ∷ ("garden", plain 4)
    ∷ []

heard :
    hear takes_all next on_error imp notes []
    ≡ ((record { path = "tea"; body = "yes"; anchor = "op1" }) ∷ [], "error" ∷ "garden" ∷ [])
unfolding hear bridge fail
heard = refl

hear_lem_example :
    ((hear takes_all next on_error imp notes []).0 ≡ wanted notes)
    × All IsComplete (hear takes_all next on_error imp notes []).0
hear_lem_example = hear_lem takes_all next on_error imp notes []
