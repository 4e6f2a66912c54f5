-- ===== src/Echo.antt =====
-- examples/echo/main.go: the worked example, an imp that publishes what it hears. The connection is a
-- parameter, with what `Run` needs; of Go's `any` it uses one dynamic type.
pub mod Published
pub mod Main
pub mod Ends
use imps.Base.{ℕ, String, Option, none, some, List, [], ◌∷◌}
use imps.Spec.{Message, Verdict, think, ChannelSpec, ImpSpec, subject_source}
use imps.Dispatch.{Callbacks}
use imps.Contexts.{Surroundings, AwarenessCtx}
use imps.Contexts.Code.{AwarenessCode, ThinkingCode, run_awareness}

-- The dynamic types that the assertion `reason.(string)` tells apart; a Go string is its bytes.
pub data Value : Type 0 where
  text : List ℕ → Value
  foreign : Value

module _ {E : Type 0} where
  -- `Decode`, `ExtractEntity`, `Awareness` and `Thinking` of the spec.
  abbrev pub decode_text : Message → Value × Option E
  decode_text msg = (text msg.payload, none)

  abbrev pub singleton : Value → String × Option E
  singleton decoded = ("singleton", none)

  abbrev pub always_think : Value → String → AwarenessCode Value E
  always_think decoded entity = AwarenessCode.judge (think decoded entity)

  abbrev pub publish_back : Value → String → ThinkingCode Value E
  publish_back (text payload) entity =
      ThinkingCode.publish_to "actions.out" payload (λ err. ThinkingCode.finish err)
  publish_back foreign entity = ThinkingCode.crash

  -- `spec`
  unfoldable pub echo_spec :
      {C : Type 0}
      → ImpSpec Value E C
          (Value → String → AwarenessCode Value E)
          (Value → String → ThinkingCode Value E)
          (String → Value → Unit {0})
  echo_spec = record {
    name = "echo";
    version = "0.1.0";
    channels =
        (record {
          name = "inbound";
          source = subject_source "messages.in";
          decode = some decode_text;
          extract_entity = some singleton;
        })
        ∷ [];
    awareness = some always_think;
    thinking = some publish_back;
    states = [];
    on_note = none;
  }

  -- The callbacks as the harness calls them, with a context for awareness.
  abbrev pub echo_callbacks : AwarenessCtx E → Callbacks (Surroundings Value) Value E
  echo_callbacks a = record {
    decode = decode_text;
    extract_entity = singleton;
    awareness = λ decoded entity s. run_awareness a (always_think decoded entity) s;
    on_note = none;
  }
