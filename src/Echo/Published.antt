-- ===== src/Echo/Published.antt =====
-- What the echo example publishes.
use mathlib.Core.List.{append-nil, append_assoc, map-map}
use imps.Base.{ℕ, String, List, [], ◌∷◌, ◌++◌, map, ◌≡◌, refl, ap, ◌∙◌, sym}
use imps.Spec.{Message}
use imps.Dispatch.{Harness, Thinker, at_work, dispatch, act, launch_thinking}
use imps.Dispatch.Gauge.{idle}
use imps.Contexts.{Surroundings, AwarenessCtx, ThinkingCtx}
use imps.Contexts.Code.{run_awareness, run_thinking}
use imps.Echo.{Value, text, publish_back, echo_callbacks}

module _ {E : Type 0} where
  -- What thinking goroutines publish, each in the same surroundings.
  abbrev pub published :
      ThinkingCtx E → Surroundings Value → List (Thinker Value) → List (List (String × List ℕ))
  published t s ts =
      map (λ (x : Thinker Value). (run_thinking t (publish_back x.reason x.entity) s).1) ts

module _ {E : Type 0} (a : AwarenessCtx E) where
  -- Messages on the channel, one after the other.
  unfoldable pub hear_all :
      List Message → Harness (Surroundings Value) Value → Harness (Surroundings Value) Value
  hear_all [] h = h
  hear_all (m ∷ ms) h = hear_all ms (dispatch (echo_callbacks a) m h).0

  abbrev thinker : Message → Thinker Value
  thinker m = record { reason = text m.payload; entity = "singleton"; stage = at_work }

  dispatch-thinker :
      (m : Message) (h : Harness (Surroundings Value) Value)
      → (dispatch (echo_callbacks a) m h).0.running ≡ h.running ++ thinker m ∷ []
  unfolding dispatch act launch_thinking run_awareness
  dispatch-thinker m h = refl

  hear_all-running :
      (ms : List Message) (h : Harness (Surroundings Value) Value)
      → (hear_all ms h).running ≡ h.running ++ map thinker ms
  unfolding hear_all
  hear_all-running [] h = sym (append-nil h.running)
  hear_all-running (m ∷ ms) h =
      hear_all-running ms (dispatch (echo_callbacks a) m h).0
      ∙ ap (λ l. l ++ map thinker ms) (dispatch-thinker m h)
      ∙ append_assoc h.running (thinker m ∷ []) (map thinker ms)

  -- Over any messages, the thinking goroutines that the echo example has running are one for each
  -- message, in order, and each publishes the payload of its message to actions.out, once, and
  -- nothing else.
  pub hear_all-published :
      (t : ThinkingCtx E) (s s' : Surroundings Value) (ms : List Message)
      → published t s' (hear_all ms (idle s)).running
        ≡ map (λ (m : Message). ("actions.out", m.payload) ∷ []) ms
  unfolding run_thinking
  hear_all-published t s s' ms =
      ap (published t s') (hear_all-running ms (idle s))
      ∙ map-map (λ (x : Thinker Value). (run_thinking t (publish_back x.reason x.entity) s').1)
          thinker ms
