-- ===== src/Soulstream/Bridge/Posts.antt =====
-- The comments that a note bridge posts over a history of notes.
use mathlib.Core.Path.{ap₂, subst⁻¹}
use imps.Base.{
  String, ◌==◌, eq_iff, Bool, true, false, not, ◌&&◌, Option, List, [], ◌∷◌, ◌++◌, All,
  if◌then◌else◌, ◌≡◌, refl, ◌≢◌, arith,
}
use imps.Errors.{ImpError}
use imps.Soulstream.Bridge.{Participant, Noted, Payload, noted, plain, Comment, bridge}

-- The comment that a note asks for, if it asks for a complete one.
unfoldable pub asked : {P : Type 0} → String × Payload P → List Comment
asked (entity, plain x) = []
asked (entity, noted n) =
    if not (n.anchor_op == "") && (not (n.body == "") && not (entity == ""))
    then (record { path = entity; body = n.body; anchor = n.anchor_op }) ∷ []
    else []

unfoldable pub wanted : {P : Type 0} → List (String × Payload P) → List Comment
wanted [] = []
wanted (note ∷ notes) = asked note ++ wanted notes

pub record IsComplete (c : Comment) : Type 0 where
  pub path_given : c.path ≢ ""
  pub body_given : c.body ≢ ""
  pub anchored : c.anchor ≢ ""

All-if :
    (b : Bool) (c : Comment) (rest : List Comment)
    → (b ≡ true → IsComplete c)
    → All IsComplete rest
    → All IsComplete ((if b then c ∷ [] else []) ++ rest)
All-if true c rest f h = (f refl, h)
All-if false c rest f h = h

All-asked :
    {P : Type 0} (note : String × Payload P) (rest : List Comment)
    → All IsComplete rest
    → All IsComplete (asked note ++ rest)
unfolding asked
All-asked (entity, plain x) rest h = h
All-asked (entity, noted n) rest h =
    let full = not (n.anchor_op == "") && (not (n.body == "") && not (entity == "")) in
    All-if full (record { path = entity; body = n.body; anchor = n.anchor_op }) rest
      (λ q. record {
        path_given = λ z. ground (arith, eq_iff entity "");
        body_given = λ z. ground (arith, eq_iff n.body "");
        anchored = λ z. ground (arith, eq_iff n.anchor_op "");
      })
      h

All-wanted : {P : Type 0} (notes : List (String × Payload P)) → All IsComplete (wanted notes)
unfolding wanted
All-wanted [] = tt
All-wanted (note ∷ notes) = All-asked note (wanted notes) (All-wanted notes)

module _ {C P H E : Type 0} (add_comment : C → Comment → Option E)
    (next : Option (String → Payload P → H → H))
    (on_error : Option (String → Noted → ImpError E → H → H)) (p : Participant C) where
  -- One note after the other, with all the comments that are posted.
  unfoldable pub hear : List (String × Payload P) → H → List Comment × H
  hear [] h = ([], h)
  hear (note ∷ notes) h =
      let (posts, h') = bridge add_comment next on_error p note.0 note.1 h in
      let (rest, h2) = hear notes h' in (posts ++ rest, h2)

  bridge-asked :
      (note : String × Payload P) (h : H)
      → (bridge add_comment next on_error p note.0 note.1 h).0 ≡ asked note
  unfolding bridge asked
  bridge-asked (entity, plain x) h = ground arith
  bridge-asked (entity, noted n) h = ground arith

  hear-wanted : (notes : List (String × Payload P)) (h : H) → (hear notes h).0 ≡ wanted notes
  unfolding hear wanted
  hear-wanted [] h = refl
  hear-wanted (note ∷ notes) h =
      let h' = (bridge add_comment next on_error p note.0 note.1 h).1 in
      ap₂ (λ l r. l ++ r) (bridge-asked note h) (hear-wanted notes h')

  -- Over any notes, the comments that the bridge hands to the topics are those that the notes ask
  -- for, each once and in order, and complete ones only; what the two callbacks do and whether a
  -- comment was taken makes no difference to that.
  pub hear_lem :
      (notes : List (String × Payload P)) (h : H)
      → ((hear notes h).0 ≡ wanted notes) × All IsComplete (hear notes h).0
  hear_lem notes h =
      (hear-wanted notes h, subst⁻¹ (All IsComplete) (hear-wanted notes h) (All-wanted notes))
