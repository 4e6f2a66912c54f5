-- ===== src/Contexts/Memory.antt =====
-- What the callbacks of an imp leave of its registry, however their calls interleave.
use imps.Base.{String, inl, inr, Option-cases, List, [], ◌∷◌, All, get_elem?}
use imps.Spec.{StateShape}
use imps.Validate.Sound.{StateOk}
use imps.Request.{Requests}
use imps.Metrics.{Metrics}
use imps.Registry.{new_registry}
use imps.Registry.Shapes.{
  RegistryOk, ref-RegistryOk, set-RegistryOk, update-RegistryOk, new_registry-RegistryOk,
}
use imps.Contexts.{
  Surroundings, AwarenessCtx, ThinkingCtx, state, awareness_request, thinking_request,
  thinking_request_many,
}
use imps.Contexts.Code.{AwarenessCode, ThinkingCode}
use imps.Contexts.Steps.{
  aware, thinks, blocked, Callers, Move, called, turn, step_awareness, step_thinking, step,
  interleave,
}

abbrev pub Kept : {Any : Type 0} → Surroundings Any → Type 0
Kept s = RegistryOk s.registry

state-Kept :
    {Any : Type 0} (E : Type 0) (name entity : String) (s : Surroundings Any)
    → Kept s
    → Kept (state {E = E} name entity s).0
unfolding state
state-Kept E name entity s h = ref-RegistryOk E s.registry name entity h

module _ {Any E : Type 0} where
  step_awareness-Kept :
      (a : AwarenessCtx E) (c : AwarenessCode Any E) (s : Surroundings Any)
      → Kept s
      → Kept (step_awareness a c s).0
  unfolding step_awareness awareness_request
  step_awareness-Kept a (AwarenessCode.judge v) s h = h
  step_awareness-Kept a AwarenessCode.crash s h = h
  step_awareness-Kept a (AwarenessCode.ask_state name entity k) s h = state-Kept E name entity s h
  step_awareness-Kept a (AwarenessCode.get_slot x k) s h = h
  step_awareness-Kept a (AwarenessCode.set_slot x v k) s h = set-RegistryOk s.registry x v h
  step_awareness-Kept a (AwarenessCode.update_slot x f k) s h = update-RegistryOk s.registry x f h
  step_awareness-Kept a (AwarenessCode.ask cerr subject payload opts k) s h = h

  step_thinking-Kept :
      (t : ThinkingCtx E) (c : ThinkingCode Any E) (s : Surroundings Any)
      → Kept s
      → Kept (step_thinking t c s).0
  unfolding step_thinking thinking_request thinking_request_many
  step_thinking-Kept t (ThinkingCode.finish err) s h = h
  step_thinking-Kept t ThinkingCode.crash s h = h
  step_thinking-Kept t (ThinkingCode.ask_state name entity k) s h = state-Kept E name entity s h
  step_thinking-Kept t (ThinkingCode.get_slot x k) s h = h
  step_thinking-Kept t (ThinkingCode.set_slot x v k) s h = set-RegistryOk s.registry x v h
  step_thinking-Kept t (ThinkingCode.update_slot x f k) s h = update-RegistryOk s.registry x f h
  step_thinking-Kept t (ThinkingCode.ask cerr subject payload opts k) s h = h
  step_thinking-Kept t (ThinkingCode.ask_many subject payload opts k) s h = h
  step_thinking-Kept t (ThinkingCode.publish_to subject payload k) s h = h
  step_thinking-Kept t (ThinkingCode.count_in_flight k) s h = h

  module _ (a : AwarenessCtx E) (t : ThinkingCtx E) where
    step-Kept : (c : Callers Any E) (m : Move Any E) → Kept c.around → Kept (step a t c m).around
    unfolding step
    step-Kept c (called x) h = h
    step-Kept c (turn i) h = elim (Option-cases (get_elem? c.callbacks i)) [
      | inl q ↦ rw (step, q) h
      | inr (blocked, q) ↦ rw (step, q) h
      | inr (aware x, q) ↦ rw (step, q) (step_awareness-Kept a x c.around h)
      | inr (thinks x, q) ↦ rw (step, q) (step_thinking-Kept t x c.around h)
    ]

    interleave-Kept :
        (ms : List (Move Any E)) (c : Callers Any E)
        → Kept c.around
        → Kept (interleave a t ms c).around
    unfolding interleave
    interleave-Kept [] c h = h
    interleave-Kept (m ∷ ms) c h = interleave-Kept ms (step a t c m) (step-Kept c m h)

  -- For an imp with states that NewImp accepts and no callbacks yet, after any sequence of steps, each
  -- a new callback of awareness or of thinking or the next call of one of those under way, whatever
  -- they do with their contexts: in every shape the counter is the number of slots and at most the
  -- cap, and every slot is of one entity of one shape.
  pub interleave-RegistryOk :
      (a : AwarenessCtx E) (t : ThinkingCtx E) (ss : List (StateShape Any)) (m : Requests)
      (g : Metrics) (ms : List (Move Any E))
      → All StateOk ss
      → RegistryOk
          (interleave a t ms (record {
            around = record { registry = new_registry ss; requests = m; metrics = g };
            sent = [];
            callbacks = [];
          })).around.registry
  interleave-RegistryOk a t ss m g ms ok =
      interleave-Kept a t ms
        (record {
          around = record { registry = new_registry ss; requests = m; metrics = g };
          sent = [];
          callbacks = [];
        })
        (new_registry-RegistryOk ss ok)
