-- ===== src/Tests/Specs.antt =====
-- validate.go on small specs.
use imps.Base.{ℕ, String, ℤ, pos, negsuc, none, some, List, [], ◌∷◌, ◌≡◌, refl, ◌↔◌, contains}
use imps.Errors.{spec_invalid, duplicate_state_shape}
use imps.Spec.{Source, subject_source, stream_source, ChannelSpec, StateShape, ImpSpec}
use imps.Validate.{validate_spec, validate_channels}
use imps.Validate.Sound.{IsWellFormed, validate_spec_iff}

abbrev channel : String → Source ℕ → ChannelSpec ℕ ℕ ℕ
channel name source = record {
  name = name;
  source = source;
  decode = some (λ m. (1, none));
  extract_entity = some (λ d. ("singleton", none));
}

abbrev shape : String → ℤ → StateShape ℕ
shape name cap = record { name = name; factory = some (λ _. 0); cap = cap }

abbrev echo : ImpSpec ℕ ℕ ℕ ℕ ℕ ℕ
echo = record {
  name = "echo";
  version = "0.1.0";
  channels = channel "inbound" (subject_source "messages.in") ∷ [];
  awareness = some 0;
  thinking = some 0;
  states = shape "visits" (pos 10) ∷ shape "mood" (pos 1) ∷ [];
  on_note = none;
}

echo_accepted : validate_spec echo ≡ none
unfolding validate_spec contains
echo_accepted = refl

zero_cap :
    validate_spec (record echo { states = shape "visits" (pos 0) ∷ [] })
    ≡ some (spec_invalid "StateShape.Cap" "must be > 0 for shape visits")
unfolding validate_spec contains
zero_cap = refl

same_shape :
    validate_spec (record echo { states = shape "a" (pos 1) ∷ shape "a" (negsuc 0) ∷ [] })
    ≡ some (duplicate_state_shape "a")
unfolding validate_spec contains
same_shape = refl

abbrev twice : List (ChannelSpec ℕ ℕ ℕ)
twice = channel "in" (subject_source "a") ∷ channel "in" (stream_source "S" "" "" 0) ∷ []

twice_refused :
    validate_channels [] twice ≡ some (spec_invalid "ChannelSpec.Name" "duplicate channel name in")
unfolding validate_spec contains
twice_refused = refl

validate_spec_iff_example : (validate_spec echo ≡ none) ↔ IsWellFormed echo
validate_spec_iff_example = validate_spec_iff echo
