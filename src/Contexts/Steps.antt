-- ===== src/Contexts/Steps.antt =====
-- context.go: the callbacks of an imp at once, one call of a context at a time. The dispatch path and
-- every thinking goroutine have a callback of their own, and the scheduler moves any of them. A call
-- of State is one step here; Registry.Race takes it apart.
use imps.Base.{ℕ, String, none, some, List, [], ◌∷◌, ◌++◌, get_elem?, set as set_elem, ◌≡◌, refl}
use imps.Registry.{Ref, ref_to, refused, nil_factory, get, set, update}
use imps.Contexts.{
  Surroundings, AwarenessCtx, ThinkingCtx, state, awareness_request, thinking_request,
  thinking_request_many, publish, in_flight,
}
use imps.Contexts.Code.{AwarenessCode, ThinkingCode, run_awareness}

-- A callback by the calls that it has yet to make; `blocked` is in a `RequestMany` that does not
-- return.
pub data Callback (Any E : Type 0) : Type 0 where
  aware : AwarenessCode Any E → Callback Any E
  thinks : ThinkingCode Any E → Callback Any E
  blocked : Callback Any E

-- The surroundings, what was handed to `Publish`, and the callbacks.
pub record Callers (Any E : Type 0) : Type 0 where
  pub around : Surroundings Any
  pub sent : List (String × List ℕ)
  pub callbacks : List (Callback Any E)

-- The harness calls a callback, or the scheduler moves one.
pub data Move (Any E : Type 0) : Type 0 where
  called : Callback Any E → Move Any E
  turn : ℕ → Move Any E

module _ {Any E : Type 0} where
  -- The next call of awareness.
  unfoldable pub step_awareness :
      AwarenessCtx E
      → AwarenessCode Any E
      → Surroundings Any
      → Surroundings Any × AwarenessCode Any E
  step_awareness a (AwarenessCode.judge v) s = (s, AwarenessCode.judge v)
  step_awareness a AwarenessCode.crash s = (s, AwarenessCode.crash)
  step_awareness a (AwarenessCode.ask_state name entity k) s =
      let (s', r) = state name entity s in
      (
        s',
        elim r [
          | ref_to x ↦ k (ref_to x)
          | refused e ↦ k (refused e)
          | nil_factory ↦ AwarenessCode.crash
        ],
      )
  step_awareness a (AwarenessCode.get_slot x k) s = (s, k (get s.registry x))
  step_awareness a (AwarenessCode.set_slot x v k) s =
      (record s { registry = set s.registry x v }, k)
  step_awareness a (AwarenessCode.update_slot x f k) s =
      (record s { registry = update s.registry x f }, k)
  step_awareness a (AwarenessCode.ask cerr subject payload opts k) s =
      let (s', reply, err) = awareness_request a cerr subject payload opts s in (s', k reply err)

  -- The next call of thinking, with what it publishes.
  unfoldable pub step_thinking :
      ThinkingCtx E
      → ThinkingCode Any E
      → Surroundings Any
      → Surroundings Any × List (String × List ℕ) × Callback Any E
  step_thinking t (ThinkingCode.finish err) s = (s, [], thinks (ThinkingCode.finish err))
  step_thinking t ThinkingCode.crash s = (s, [], thinks ThinkingCode.crash)
  step_thinking t (ThinkingCode.ask_state name entity k) s =
      let (s', r) = state name entity s in
      (
        s',
        [],
        thinks (elim r [
          | ref_to x ↦ k (ref_to x)
          | refused e ↦ k (refused e)
          | nil_factory ↦ ThinkingCode.crash
        ]),
      )
  step_thinking t (ThinkingCode.get_slot x k) s = (s, [], thinks (k (get s.registry x)))
  step_thinking t (ThinkingCode.set_slot x v k) s =
      (record s { registry = set s.registry x v }, [], thinks k)
  step_thinking t (ThinkingCode.update_slot x f k) s =
      (record s { registry = update s.registry x f }, [], thinks k)
  step_thinking t (ThinkingCode.ask cerr subject payload opts k) s =
      let (s', reply, err) = thinking_request t cerr subject payload opts s in
      (s', [], thinks (k reply err))
  step_thinking t (ThinkingCode.ask_many subject payload opts k) s =
      let (s', acts, out) = thinking_request_many t subject payload opts s in
      (s', [], elim out [ none ↦ blocked | some (replies, err) ↦ thinks (k replies err) ])
  step_thinking t (ThinkingCode.publish_to subject payload k) s =
      (s, (subject, payload) ∷ [], thinks (k (publish t subject payload)))
  step_thinking t (ThinkingCode.count_in_flight k) s = (s, [], thinks (k (in_flight t s)))

  unfoldable pub step : AwarenessCtx E → ThinkingCtx E → Callers Any E → Move Any E → Callers Any E
  step a t c (called x) = record c { callbacks = c.callbacks ++ x ∷ [] }
  step a t c (turn i) = elim (get_elem? c.callbacks i) [
    | none ↦ c
    | some blocked ↦ c
    | some (aware x) ↦
        let (s, next) = step_awareness a x c.around in
        record c { around = s; callbacks = set_elem c.callbacks i (aware next) }
    | some (thinks x) ↦
        let (s, sent, next) = step_thinking t x c.around in
        record { around = s; sent = c.sent ++ sent; callbacks = set_elem c.callbacks i next }
  ]

  unfoldable pub interleave :
      AwarenessCtx E → ThinkingCtx E → List (Move Any E) → Callers Any E → Callers Any E
  interleave a t [] c = c
  interleave a t (m ∷ ms) c = interleave a t ms (step a t c m)

  -- What follows a call of State, for a run of all of it and for a run of what the step leaves.
  after_state-run_awareness :
      (a : AwarenessCtx E) (k : Ref E → AwarenessCode Any E) (s : Surroundings Any) (r : Ref E)
      → run_awareness a
          (elim r [
            | ref_to x ↦ k (ref_to x)
            | refused e ↦ k (refused e)
            | nil_factory ↦ AwarenessCode.crash
          ])
          s
        ≡ (elim r [
          | ref_to x ↦ run_awareness a (k (ref_to x)) s
          | refused e ↦ run_awareness a (k (refused e)) s
          | nil_factory ↦ (s, none)
        ])
  unfolding run_awareness
  after_state-run_awareness a k s (ref_to x) = refl
  after_state-run_awareness a k s (refused e) = refl
  after_state-run_awareness a k s nil_factory = refl

  -- A step leaves the result of awareness that runs alone as it is.
  run_awareness-step_awareness :
      (a : AwarenessCtx E) (x : AwarenessCode Any E) (s : Surroundings Any)
      → run_awareness a (step_awareness a x s).1 (step_awareness a x s).0 ≡ run_awareness a x s
  unfolding run_awareness step_awareness
  run_awareness-step_awareness a (AwarenessCode.judge v) s = refl
  run_awareness-step_awareness a AwarenessCode.crash s = refl
  run_awareness-step_awareness a (AwarenessCode.ask_state name entity k) s =
      let (s', r) = state {E = E} name entity s in after_state-run_awareness a k s' r
  run_awareness-step_awareness a (AwarenessCode.get_slot x k) s = refl
  run_awareness-step_awareness a (AwarenessCode.set_slot x v k) s = refl
  run_awareness-step_awareness a (AwarenessCode.update_slot x f k) s = refl
  run_awareness-step_awareness a (AwarenessCode.ask cerr subject payload opts k) s = refl
