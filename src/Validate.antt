-- ===== src/Validate.antt =====
-- validate.go: the checks that `NewImp` makes of an `ImpSpec`. `none` is Go's nil error.
pub mod Sound
use imps.Base.{
  String, ◌<>◌, ◌==◌, pos, leb_ℤ, Option, none, some, List, [], ◌∷◌, if◌then◌else◌, contains,
}
use imps.Errors.{ImpError, spec_invalid, duplicate_state_shape}
use imps.Spec.{
  Source, subject_source, stream_source, nil_source, other_source, ChannelSpec, StateShape, ImpSpec,
}

-- `if err := …; err != nil { return err }`
infixr 20 ◌or_else◌
abbrev pub ◌or_else◌ : {A : Type 0} → Option A → Option A → Option A
none or_else k = k
some e or_else k = some e

-- `x == nil`
abbrev pub if_nil : {F A : Type 0} → Option F → A → Option A
if_nil none e = some e
if_nil (some f) e = none

abbrev pub if_empty : {A : Type 0} → String → A → Option A
if_empty s e = if s == "" then some e else none

module _ {E : Type 0} where
  abbrev pub channel_error : String → String → String → Option (ImpError E)
  channel_error field reason name = some (spec_invalid field (reason <> name))

  validate_source : {C : Type 0} → String → Source C → Option (ImpError E)
  validate_source name (subject_source subject) =
      if_empty subject (spec_invalid "SubjectSource.Subject" ("empty for channel " <> name))
  validate_source name (stream_source stream filter durable config) =
      if_empty stream (spec_invalid "StreamSource.Stream" ("empty for channel " <> name))
      or_else if_empty filter
          (spec_invalid "StreamSource.FilterSubject" ("empty for channel " <> name))
  validate_source name nil_source =
      channel_error "ChannelSpec.Source" "unknown source kind for channel " name
  validate_source name other_source =
      channel_error "ChannelSpec.Source" "unknown source kind for channel " name

  -- The test `c.Source == nil`, before the switch on the kind of source.
  check_source : {C : Type 0} → String → Source C → Option (ImpError E)
  check_source name nil_source = channel_error "ChannelSpec.Source" "nil for channel " name
  check_source name source = validate_source name source

  -- One round of the loop of `validateChannels`.
  pub validate_channel : {Any C : Type 0} → List String → ChannelSpec Any E C → Option (ImpError E)
  unfolding check_source validate_source
  validate_channel seen c =
      if_empty c.name (spec_invalid "ChannelSpec.Name" "empty")
      or_else (if contains c.name seen
          then channel_error "ChannelSpec.Name" "duplicate channel name " c.name
          else none)
      or_else if_nil c.decode (spec_invalid "ChannelSpec.Decode" ("nil for channel " <> c.name))
      or_else if_nil c.extract_entity
          (spec_invalid "ChannelSpec.ExtractEntity" ("nil for channel " <> c.name))
      or_else check_source c.name c.source

  -- The loop, over the names seen so far.
  pub validate_channels :
      {Any C : Type 0} → List String → List (ChannelSpec Any E C) → Option (ImpError E)
  validate_channels seen [] = none
  validate_channels seen (c ∷ cs) =
      validate_channel seen c or_else validate_channels (c.name ∷ seen) cs

  -- One round of the loop of `validateStates`.
  validate_state : {Any : Type 0} → List String → StateShape Any → Option (ImpError E)
  validate_state seen s =
      if_empty s.name (spec_invalid "StateShape.Name" "empty")
      or_else (if contains s.name seen then some (duplicate_state_shape s.name) else none)
      or_else if_nil s.factory (spec_invalid "StateShape.Factory" ("nil for shape " <> s.name))
      or_else (if leb_ℤ s.cap (pos 0)
          then some (spec_invalid "StateShape.Cap" ("must be > 0 for shape " <> s.name))
          else none)

  validate_states : {Any : Type 0} → List String → List (StateShape Any) → Option (ImpError E)
  validate_states seen [] = none
  validate_states seen (s ∷ ss) = validate_state seen s or_else validate_states (s.name ∷ seen) ss

  unfoldable pub validate_spec :
      {Any C Aw Th On : Type 0} → ImpSpec Any E C Aw Th On → Option (ImpError E)
  unfolding validate_channel validate_channels validate_state validate_states
  validate_spec spec =
      if_empty spec.name (spec_invalid "Name" "empty")
      or_else if_empty spec.version (spec_invalid "Version" "empty")
      or_else if_nil spec.awareness (spec_invalid "Awareness" "nil")
      or_else if_nil spec.thinking (spec_invalid "Thinking" "nil")
      or_else validate_states [] spec.states
      or_else validate_channels [] spec.channels
