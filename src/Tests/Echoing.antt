-- ===== src/Tests/Echoing.antt =====
-- examples/echo/main.go, and callbacks over a registry with one shape.
use imps.Base.{
  contains, get_elem?, set as set_elem, ℕ, ◌+◌, pos, none, some, List, [], ◌∷◌, ◌≡◌, refl, arith,
  lookup, insert, ◌+ℤ◌, false,
}
use imps.Spec.{StateShape, Message, ignore}
use imps.Validate.{validate_spec}
use imps.Metrics.{new_metrics}
use imps.Dispatch.Gauge.{idle}
use imps.Registry.{new_registry, ref_to, ref, ref_in, add_shapes, load_or_store, set, update}
use imps.Registry.Shapes.{RegistryOk}
use imps.Request.{Requests}
use imps.Contexts.{Connection, Surroundings, AwarenessCtx, ThinkingCtx, state}
use imps.Contexts.Code.{AwarenessCode, ThinkingCode}
use imps.Contexts.Steps.{
  aware, thinks, Callers, Move, called, turn, step_awareness, step_thinking, step, interleave,
}
use imps.Contexts.Memory.{interleave-RegistryOk}
use imps.Echo.{echo_spec}
use imps.Echo.Published.{hear_all, published, hear_all-published}

abbrev conn : Connection ℕ
conn = record {
  is = λ e s. false;
  request_with_context = λ limit subject payload. ([], none);
  chan_subscribe = none;
  publish_msg = λ subject payload. none;
  arrivals = λ window. [];
  publish = λ subject payload. none;
}

abbrev awareness : AwarenessCtx ℕ
awareness = record { conn = conn; default_request_timeout = pos 5 }

abbrev thinking : ThinkingCtx ℕ
thinking = record {
  conn = conn;
  default_request_timeout = pos 5;
  default_request_many_window = pos 1;
}

abbrev none_made : Requests
none_made = record { calls = 0; many_calls = 0; unanswered = 0; timeouts = 0 }

abbrev around : {Any : Type 0} → List (StateShape Any) → Surroundings Any
around ss = record { registry = new_registry ss; requests = none_made; metrics = new_metrics }

echo_accepted : validate_spec (echo_spec {E = ℕ} {C = ℕ}) ≡ none
unfolding validate_spec echo_spec contains
echo_accepted = refl

abbrev says : List ℕ → Message
says payload = record { subject = "messages.in"; reply = ""; headers = []; payload = payload }

hear_all-published_example :
    published thinking
      (around [])
      (hear_all awareness (says (104 ∷ []) ∷ says (105 ∷ []) ∷ []) (idle (around []))).running
    ≡ (("actions.out", 104 ∷ []) ∷ []) ∷ (("actions.out", 105 ∷ []) ∷ []) ∷ []
hear_all-published_example =
    hear_all-published awareness thinking (around []) (around [])
      (says (104 ∷ []) ∷ says (105 ∷ []) ∷ [])

-- Awareness counts the visits of an entity, and thinking resets them.
abbrev visits : List (StateShape ℕ)
visits = (record { name = "visits"; factory = some (λ _. 0); cap = pos 1 }) ∷ []

abbrev counts : AwarenessCode ℕ ℕ
counts = AwarenessCode.ask_state "visits" "ann" (λ r. elim r [
  | ref_to a ↦ AwarenessCode.update_slot a (λ n. n + 1) (AwarenessCode.judge ignore)
  | _ ↦ AwarenessCode.crash
])

abbrev resets : ThinkingCode ℕ ℕ
resets = ThinkingCode.ask_state "visits" "bob" (λ r. elim r [
  | ref_to a ↦ ThinkingCode.set_slot a 9 (ThinkingCode.finish none)
  | _ ↦ ThinkingCode.crash
])

-- The second callback counts between the two steps of the first, and thinking resets at the end.
abbrev two_visits : List (Move ℕ ℕ)
two_visits =
    called (aware counts)
    ∷ called (aware counts)
    ∷ turn 0
    ∷ turn 1
    ∷ turn 1
    ∷ turn 0
    ∷ called (thinks resets)
    ∷ turn 2
    ∷ []

abbrev callers : Callers ℕ ℕ
callers = record { around = around visits; sent = []; callbacks = [] }

counted_twice :
    (interleave awareness thinking two_visits callers).around.registry.memory.cell 0 ≡ some 2
unfolding interleave step step_awareness step_thinking state ref ref_in new_registry add_shapes
    load_or_store lookup insert ◌+ℤ◌ update set get_elem? set_elem
counted_twice = refl

interleave-RegistryOk_example :
    RegistryOk (interleave awareness thinking two_visits callers).around.registry
interleave-RegistryOk_example =
    interleave-RegistryOk awareness thinking visits none_made new_metrics two_visits
      (record { named = λ q. cc; makes = λ q. cc; bounded = omega arith }, tt)
