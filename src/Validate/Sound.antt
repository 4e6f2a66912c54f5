-- ===== src/Validate/Sound.antt =====
-- What an accepted `ImpSpec` satisfies, stated without the loops and their sets of seen names.
use imps.Base.{
  ◌<◌, String, eq_iff, pos_part, false, Option, none, some, List, [], ◌∷◌, ◌++◌, map, All, contains,
  ◌≡◌, refl, ◌≢◌, ◌↔◌, inl, inr, arith, Option-cases, ap,
}
use imps.Errors.{ImpError}
use imps.Spec.{
  Source, subject_source, stream_source, nil_source, other_source, ChannelSpec, StateShape, ImpSpec,
}
use imps.Validate.{
  ◌or_else◌, validate_source, check_source, validate_channel, validate_channels, validate_state,
  validate_states, validate_spec,
}

-- No name stands twice.
abbrev pub Distinct : List String → Type 0
Distinct [] = Unit
Distinct (x ∷ xs) = All (λ y. x ≢ y) xs × Distinct xs

abbrev pub IsSound : {C : Type 0} → Source C → Type 0
IsSound (subject_source subject) = subject ≢ ""
IsSound (stream_source stream filter durable config) = (stream ≢ "") × (filter ≢ "")
IsSound nil_source = ⊥
IsSound other_source = ⊥

module _ {Any E C : Type 0} where
  pub record ChannelOk (c : ChannelSpec Any E C) : Type 0 where
    pub named : c.name ≢ ""
    pub decodes : c.decode ≢ none
    pub extracts : c.extract_entity ≢ none
    pub sound : IsSound c.source

pub record StateOk {Any : Type 0} (s : StateShape Any) : Type 0 where
  pub named : s.name ≢ ""
  pub makes : s.factory ≢ none
  pub bounded : 0 < pos_part s.cap

pub record IsWellFormed {Any E C Aw Th On : Type 0} (spec : ImpSpec Any E C Aw Th On) : Type 0 where
  pub named : spec.name ≢ ""
  pub versioned : spec.version ≢ ""
  pub aware : spec.awareness ≢ none
  pub thinks : spec.thinking ≢ none
  pub states_ok : All StateOk spec.states
  pub states_distinct : Distinct (map (λ s. s.name) spec.states)
  pub channels_ok : All ChannelOk spec.channels
  pub channels_distinct : Distinct (map (λ c. c.name) spec.channels)

-- Names that are new to the loop, one after the other.
abbrev Fresh : List String → List String → Type 0
Fresh seen [] = Unit
Fresh seen (x ∷ xs) = (contains x seen ≡ false) × Fresh (x ∷ seen) xs

abbrev Unseen : List String → List String → Type 0
Unseen seen = All (λ x. contains x seen ≡ false)

Unseen-cons :
    (x : String) (seen xs : List String)
    → Unseen (x ∷ seen) xs ↔ (All (λ y. x ≢ y) xs × Unseen seen xs)
unfolding contains
Unseen-cons x seen [] = (λ h. (tt, tt), λ h. tt)
Unseen-cons x seen (y ∷ ys) = (
  λ h. ground (arith, eq_iff x y, (Unseen-cons x seen ys).0 h.1),
  λ h. ground (arith, eq_iff x y, (Unseen-cons x seen ys).1 (h.0.1, h.1.1)),
)

Fresh-iff : (seen xs : List String) → Fresh seen xs ↔ (Distinct xs × Unseen seen xs)
Fresh-iff seen [] = (λ h. (tt, tt), λ h. tt)
Fresh-iff seen (x ∷ xs) =
    let rest = Fresh-iff (x ∷ seen) xs in
    let split = Unseen-cons x seen xs in
    (
      λ h. let d = rest.0 h.1 in let u = split.0 d.1 in ((u.0, d.0), (h.0, u.1)),
      λ h. (h.1.0, rest.1 (h.0.1, split.1 (h.0.0, h.1.1))),
    )

Distinct-iff : (xs : List String) → Fresh [] xs ↔ Distinct xs
unfolding contains
Distinct-iff xs = (λ h. ((Fresh-iff [] xs).0 h).0, λ d. (Fresh-iff [] xs).1 (d, none_seen xs))
  where
    none_seen : (ys : List String) → Unseen [] ys
    none_seen [] = tt
    none_seen (y ∷ ys) = (refl, none_seen ys)

or_else-eq-none : {A : Type 0} (a b : Option A) → ((a or_else b) ≡ none) ↔ ((a ≡ none) × (b ≡ none))
or_else-eq-none none b = (λ h. (refl, h), λ h. h.1)
or_else-eq-none (some e) b = (λ h. (h, cc), λ h. h.0)

check_source_iff :
    {E C : Type 0} (name : String) (src : Source C)
    → (check_source {E = E} name src ≡ none) ↔ IsSound src
unfolding check_source validate_source
check_source_iff name (subject_source s) = ground (arith, eq_iff s "")
check_source_iff name (stream_source s f d c) = ground (arith, eq_iff s "", eq_iff f "")
check_source_iff name nil_source = ground arith
check_source_iff name other_source = ground arith

module _ {Any E C : Type 0} where
  validate_channel_iff :
      (seen : List String) (c : ChannelSpec Any E C)
      → (validate_channel seen c ≡ none) ↔ (ChannelOk c × (contains c.name seen ≡ false))
  unfolding validate_channel
  validate_channel_iff seen c =
      ground (arith, eq_iff c.name "", check_source_iff {E = E} c.name c.source)

validate_state_iff :
    {Any E : Type 0} (seen : List String) (s : StateShape Any)
    → (validate_state {E = E} seen s ≡ none) ↔ (StateOk s × (contains s.name seen ≡ false))
unfolding validate_state
validate_state_iff seen s = ground (arith, eq_iff s.name "")

module _ {Any E C : Type 0} where
  validate_channels_iff :
      (seen : List String) (cs : List (ChannelSpec Any E C))
      → (validate_channels seen cs ≡ none) ↔ (All ChannelOk cs × Fresh seen (map (λ c. c.name) cs))
  unfolding validate_channels
  validate_channels_iff seen [] = (λ h. (tt, tt), λ h. refl)
  validate_channels_iff seen (c ∷ cs) = ground (
    arith,
    or_else-eq-none (validate_channel seen c) (validate_channels (c.name ∷ seen) cs),
    validate_channel_iff seen c,
    validate_channels_iff (c.name ∷ seen) cs,
  )

module _ {Any E : Type 0} where
  validate_states_iff :
      (seen : List String) (ss : List (StateShape Any))
      → (validate_states {E = E} seen ss ≡ none)
        ↔ (All StateOk ss × Fresh seen (map (λ s. s.name) ss))
  unfolding validate_states
  validate_states_iff seen [] = (λ h. (tt, tt), λ h. refl)
  validate_states_iff seen (s ∷ ss) = ground (
    arith,
    or_else-eq-none (validate_state {E = E} seen s) (validate_states (s.name ∷ seen) ss),
    validate_state_iff {E = E} seen s,
    validate_states_iff (s.name ∷ seen) ss,
  )

-- `validateSpec` reports no error exactly for the well-formed specs.
pub validate_spec_iff :
    {Any E C Aw Th On : Type 0} (spec : ImpSpec Any E C Aw Th On)
    → (validate_spec spec ≡ none) ↔ IsWellFormed spec
unfolding validate_spec
validate_spec_iff {E = E} spec = ground (
  arith,
  eq_iff spec.name "",
  eq_iff spec.version "",
  validate_states_iff {E = E} [] spec.states,
  validate_channels_iff [] spec.channels,
  Distinct-iff (map (λ s. s.name) spec.states),
  Distinct-iff (map (λ c. c.name) spec.channels),
)

-- The names that the loop has seen after the channels of a list.
abbrev pub seen_after : {Any E C : Type 0} → List String → List (ChannelSpec Any E C) → List String
seen_after seen [] = seen
seen_after seen (c ∷ cs) = seen_after (c.name ∷ seen) cs

-- The error of `validateChannels` is that of the first channel that fails its own round.
pub validate_channels_first :
    {Any E C : Type 0} (seen : List String) (cs : List (ChannelSpec Any E C)) {e : ImpError E}
    → validate_channels seen cs ≡ some e
    → (pre : List (ChannelSpec Any E C)) × (c : ChannelSpec Any E C) × (post : List
        (ChannelSpec Any E C))
      × (cs ≡ pre ++ c ∷ post)
      × (validate_channels seen pre ≡ none)
      × (validate_channel (seen_after seen pre) c ≡ some e)
unfolding validate_channels
validate_channels_first seen [] h = cc
validate_channels_first seen (c ∷ cs) h = elim (Option-cases (validate_channel seen c)) [
  | inl fine ↦
      let (pre, bad, post, split, before, fails) =
        validate_channels_first (c.name ∷ seen) cs (ground arith) in
      (c ∷ pre, bad, post, ap (◌∷◌ c) split, ground arith, fails)
  | inr (e', fails) ↦ ([], c, cs, refl, refl, ground arith)
]
