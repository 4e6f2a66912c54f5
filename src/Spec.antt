-- ===== src/Spec.antt =====
-- spec.go, channel.go, verdict.go: the declarative description of an imp. `Any` stands for Go's
-- `any`, `E` for errors from elsewhere, and `C` for the JetStream consumer settings of a channel.
-- A function field that may be nil is an `Option`.
use imps.Base.{String, ℤ, ℕ, List, Option}

-- verdict.go; the kind is the constructor, and the fields are those that dispatch reads. `unset` is
-- the zero value `Verdict{}`, which callers can write although no function returns it.
pub data Verdict (Any : Type 0) : Type 0 where
  unset : Verdict Any
  ignore : Verdict Any
  note : Any → Verdict Any
  think : Any → String → Verdict Any

-- channel.go: `Source`, with the zero interface value and a foreign implementation, which
-- `validateSource` tests for.
pub data Source (C : Type 0) : Type 0 where
  subject_source : String → Source C
  stream_source : String → String → String → C → Source C
  nil_source : Source C
  other_source : Source C

-- channel.go: `Message`; headers are a list of names and values.
pub record Message : Type 0 where
  pub subject : String
  pub reply : String
  pub headers : List (String × String)
  pub payload : List ℕ

-- channel.go: `ChannelSpec`. A Go function's result and error are a pair.
pub record ChannelSpec (Any E C : Type 0) : Type 0 where
  pub name : String
  pub source : Source C
  pub decode : Option (Message → Any × Option E)
  pub extract_entity : Option (Any → String × Option E)

-- spec.go: `StateShape`.
pub record StateShape (Any : Type 0) : Type 0 where
  pub name : String
  pub factory : Option (Unit {0} → Any)
  pub cap : ℤ

-- spec.go: `ImpSpec`. `Aw`, `Th` and `On` are the types of the callbacks, which differ by the
-- contexts that they are handed.
pub record ImpSpec (Any E C Aw Th On : Type 0) : Type 0 where
  pub name : String
  pub version : String
  pub channels : List (ChannelSpec Any E C)
  pub awareness : Option Aw
  pub thinking : Option Th
  pub states : List (StateShape Any)
  pub on_note : Option On
