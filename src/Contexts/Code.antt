-- ===== src/Contexts/Code.antt =====
-- context.go: the callbacks of an imp as the calls that they make. The two types of code have the
-- methods of `AwarenessContext` and of `ThinkingContext`, and those of the `StateRef` that State
-- returns; the raw connection of `Conn` is left out. What a callback computes by itself is in the
-- functions that take the results.
use imps.Base.{ℕ, String, ℤ, Option, none, some, List, [], ◌∷◌}
use imps.Spec.{Verdict}
use imps.Errors.{ImpError}
use imps.Registry.{Ref, ref_to, refused, nil_factory, get, set, update}
use imps.Request.{RequestOptions, RequestManyOptions}
use imps.Contexts.{
  Surroundings, AwarenessCtx, ThinkingCtx, state, awareness_request, thinking_request,
  thinking_request_many, publish, in_flight,
}

-- `AwarenessContext`. `crash` is a panic of the callback itself.
pub data AwarenessCode (Any E : Type 0) : Type 0 where
  judge : Verdict Any → AwarenessCode Any E
  crash : AwarenessCode Any E
  ask_state : String → String → (Ref E → AwarenessCode Any E) → AwarenessCode Any E
  get_slot : ℕ → (Option Any → AwarenessCode Any E) → AwarenessCode Any E
  set_slot : ℕ → Any → AwarenessCode Any E → AwarenessCode Any E
  update_slot : ℕ → (Any → Any) → AwarenessCode Any E → AwarenessCode Any E
  ask :
      Option E
      → String
      → List ℕ
      → List (RequestOptions → RequestOptions)
      → (List ℕ → Option (ImpError E) → AwarenessCode Any E)
      → AwarenessCode Any E

-- `ThinkingContext`
pub data ThinkingCode (Any E : Type 0) : Type 0 where
  finish : Option (ImpError E) → ThinkingCode Any E
  crash : ThinkingCode Any E
  ask_state : String → String → (Ref E → ThinkingCode Any E) → ThinkingCode Any E
  get_slot : ℕ → (Option Any → ThinkingCode Any E) → ThinkingCode Any E
  set_slot : ℕ → Any → ThinkingCode Any E → ThinkingCode Any E
  update_slot : ℕ → (Any → Any) → ThinkingCode Any E → ThinkingCode Any E
  ask :
      Option E
      → String
      → List ℕ
      → List (RequestOptions → RequestOptions)
      → (List ℕ → Option (ImpError E) → ThinkingCode Any E)
      → ThinkingCode Any E
  ask_many :
      String
      → List ℕ
      → List (RequestManyOptions → RequestManyOptions)
      → (List (List ℕ) → Option (ImpError E) → ThinkingCode Any E)
      → ThinkingCode Any E
  publish_to : String → List ℕ → (Option (ImpError E) → ThinkingCode Any E) → ThinkingCode Any E
  count_in_flight : (ℤ → ThinkingCode Any E) → ThinkingCode Any E

-- How a run of thinking ends; `waiting` is a `RequestMany` that has not returned.
pub data Finish (E : Type 0) : Type 0 where
  finished : Option (ImpError E) → Finish E
  panicked waiting : Finish E

module _ {Any E : Type 0} where
  -- A run of awareness; `none` is a panic, of the callback or of a nil factory.
  unfoldable pub run_awareness :
      AwarenessCtx E
      → AwarenessCode Any E
      → Surroundings Any
      → Surroundings Any × Option (Verdict Any)
  run_awareness a (AwarenessCode.judge v) s = (s, some v)
  run_awareness a AwarenessCode.crash s = (s, none)
  run_awareness a (AwarenessCode.ask_state name entity k) s =
      let (s', r) = state name entity s in
      elim r [
        | ref_to x ↦ run_awareness a (k (ref_to x)) s'
        | refused e ↦ run_awareness a (k (refused e)) s'
        | nil_factory ↦ (s', none)
      ]
  run_awareness a (AwarenessCode.get_slot x k) s = run_awareness a (k (get s.registry x)) s
  run_awareness a (AwarenessCode.set_slot x v k) s =
      run_awareness a k (record s { registry = set s.registry x v })
  run_awareness a (AwarenessCode.update_slot x f k) s =
      run_awareness a k (record s { registry = update s.registry x f })
  run_awareness a (AwarenessCode.ask cerr subject payload opts k) s =
      let (s', reply, err) = awareness_request a cerr subject payload opts s in
      run_awareness a (k reply err) s'

  -- A run of thinking, with what it hands to `Publish`.
  unfoldable pub run_thinking :
      ThinkingCtx E
      → ThinkingCode Any E
      → Surroundings Any
      → Surroundings Any × List (String × List ℕ) × Finish E
  run_thinking t (ThinkingCode.finish err) s = (s, [], finished err)
  run_thinking t ThinkingCode.crash s = (s, [], panicked)
  run_thinking t (ThinkingCode.ask_state name entity k) s =
      let (s', r) = state name entity s in
      elim r [
        | ref_to x ↦ run_thinking t (k (ref_to x)) s'
        | refused e ↦ run_thinking t (k (refused e)) s'
        | nil_factory ↦ (s', [], panicked)
      ]
  run_thinking t (ThinkingCode.get_slot x k) s = run_thinking t (k (get s.registry x)) s
  run_thinking t (ThinkingCode.set_slot x v k) s =
      run_thinking t k (record s { registry = set s.registry x v })
  run_thinking t (ThinkingCode.update_slot x f k) s =
      run_thinking t k (record s { registry = update s.registry x f })
  run_thinking t (ThinkingCode.ask cerr subject payload opts k) s =
      let (s', reply, err) = thinking_request t cerr subject payload opts s in
      run_thinking t (k reply err) s'
  run_thinking t (ThinkingCode.ask_many subject payload opts k) s =
      let (s', acts, out) = thinking_request_many t subject payload opts s in
      elim out [
        | none ↦ (s', [], waiting)
        | some (replies, err) ↦ run_thinking t (k replies err) s'
      ]
  run_thinking t (ThinkingCode.publish_to subject payload k) s =
      let (s', sent, end) = run_thinking t (k (publish t subject payload)) s in
      (s', (subject, payload) ∷ sent, end)
  run_thinking t (ThinkingCode.count_in_flight k) s = run_thinking t (k (in_flight t s)) s
