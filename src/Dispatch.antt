-- ===== src/Dispatch.antt =====
-- dispatch.go, note.go, thinking.go, and `dispatchStream` of stream.go: what happens to a message
-- between its arrival and the start of thinking. `W` is what the callbacks can change: the state
-- slots, the request counters and whatever they reach by themselves. A callback takes the world and
-- returns it changed; a panic of awareness is `none`, and a panic of the note hook is `true`.
pub mod Agree
pub mod Gauge
pub mod Counted
pub mod Answers
use imps.Base.{
  ℕ, zero, suc, String, ◌==◌, ℤ, pos, negsuc, ◌+ℤ◌, Bool, true, false, Option, none, some, List, [],
  ◌∷◌, ◌++◌, if◌then◌else◌,
}
use imps.Spec.{Verdict, unset, ignore, note, think, Message}
use imps.Base.{get_elem?, set, remove}
use imps.Metrics.{
  Metrics, move_gauge, mark_decode_failure, mark_extraction_failure, mark_awareness_panic,
  mark_thinking_panic, mark_thinking_error, mark_note, mark_think, mark_ignored, mark_nak,
}

-- `type dispatchOutcome`
pub data Outcome : Type 0 where
  dispatch_ok dispatch_decode_fail dispatch_extract_fail dispatch_awareness_panic : Outcome

-- What the path does to the outside, in order: the answer to JetStream, a call of the note hook,
-- and the start of a goroutine.
pub data Effect (Any : Type 0) : Type 0 where
  ack : Effect Any
  nak : Effect Any
  noted : String → Any → Effect Any
  launched : Any → String → Effect Any

-- The fields of the spec and the channel that the path calls, validated to be there.
pub record Callbacks (W Any E : Type 0) : Type 0 where
  pub decode : Message → Any × Option E
  pub extract_entity : Any → String × Option E
  pub awareness : Any → String → W → W × Option (Verdict Any)
  pub on_note : Option (String → Any → W → W × Bool)

-- Where a thinking goroutine stands: at the user's function, before the gauge is lowered, before
-- `thinkingWG.Done`.
pub data Stage : Type 0 where
  at_work lowering leaving : Stage

pub record Thinker (Any : Type 0) : Type 0 where
  pub reason : Any
  pub entity : String
  pub stage : Stage

-- How the user's thinking function ended.
pub data Ending : Type 0 where
  returned failed panicked : Ending

-- What the goroutine counts when the user's function has ended.
abbrev pub ended : Ending → Metrics → Metrics
ended returned m = m
ended failed m = mark_thinking_error m
ended panicked m = mark_thinking_panic m

-- The part of `type runtime` that the path moves; `running` has the thinking goroutines that have
-- not ended, and `waiting` is the counter of `thinkingWG`.
pub record Harness (W Any : Type 0) : Type 0 where
  pub world : W
  pub metrics : Metrics
  pub waiting : ℤ
  pub running : List (Thinker Any)
  pub effects : List (Effect Any)

module _ {W Any : Type 0} where
  -- A counter's `Add(1)`, given as what it does to all of them.
  abbrev pub count : (Metrics → Metrics) → Harness W Any → Harness W Any
  count f h = record h { metrics = f h.metrics }

  abbrev pub emit : Effect Any → Harness W Any → Harness W Any
  emit x h = record h { effects = h.effects ++ x ∷ [] }

  -- `launchThinking`, up to the `go` statement.
  unfoldable pub launch_thinking : Any → String → Harness W Any → Harness W Any
  unfolding ◌+ℤ◌
  launch_thinking reason entity h = record h {
    metrics = move_gauge (pos 1) h.metrics;
    waiting = h.waiting +ℤ pos 1;
    running = h.running ++ (record { reason = reason; entity = entity; stage = at_work }) ∷ [];
    effects = h.effects ++ launched reason entity ∷ [];
  }

  -- The next step of thinking goroutine `i` and its deferred calls, in the order that they run.
  unfoldable pub work : ℕ → Ending → Harness W Any → Harness W Any
  unfolding ◌+ℤ◌
  work i ending h = elim (get_elem? h.running i) [
    | none ↦ h
    | some t ↦ elim t.stage [
      | at_work ↦ record h {
        metrics = ended ending h.metrics;
        running = set h.running i (record t { stage = lowering });
      }
      | lowering ↦ record h {
        metrics = move_gauge (negsuc 0) h.metrics;
        running = set h.running i (record t { stage = leaving });
      }
      | leaving ↦ record h { waiting = h.waiting +ℤ negsuc 0; running = remove h.running i }
    ]
  ]

-- `err != nil || entity == ""`
abbrev pub no_entity : {E : Type 0} → String × Option E → Bool
no_entity (entity, none) = entity == ""
no_entity (entity, some e) = true

module _ {W Any E : Type 0} (c : Callbacks W Any E) where
  -- `invokeNote`
  unfoldable pub invoke_note : String → Any → Harness W Any → Harness W Any
  invoke_note entity payload h = elim c.on_note [
    | none ↦ h
    | some hook ↦
        let (w, broke) = hook entity payload h.world in
        let h' = emit (noted entity payload) (record h { world = w }) in
        if broke then count mark_awareness_panic h' else h'
  ]

  -- The `switch` on the verdict, in `dispatch` and in `dispatchStream`.
  unfoldable pub act : String → Verdict Any → Harness W Any → Harness W Any
  unfolding invoke_note launch_thinking
  act entity ignore h = count mark_ignored h
  act entity (note payload) h = invoke_note entity payload (count mark_note h)
  act entity (think reason target) h = launch_thinking reason target (count mark_think h)
  act entity unset h = h

  -- `dispatch`
  unfoldable pub dispatch : Message → Harness W Any → Harness W Any × Outcome
  unfolding act
  dispatch msg h =
      let (decoded, bad) = c.decode msg in
      let found = c.extract_entity decoded in
      let (w, verdict) = c.awareness decoded found.0 h.world in
      elim bad [
        | some e ↦ (count mark_decode_failure h, dispatch_decode_fail)
        | none ↦
            if no_entity found
            then (count mark_extraction_failure h, dispatch_extract_fail)
            else elim verdict [
              | none ↦
                  (count mark_awareness_panic (record h { world = w }), dispatch_awareness_panic)
              | some v ↦ (act found.0 v (record h { world = w }), dispatch_ok)
            ]
      ]

  -- `dispatchStream`; the errors of `Ack` and `Nak` are only logged.
  unfoldable pub dispatch_stream : Message → Harness W Any → Harness W Any
  unfolding act
  dispatch_stream msg h =
      let (decoded, bad) = c.decode msg in
      let found = c.extract_entity decoded in
      let (w, verdict) = c.awareness decoded found.0 h.world in
      elim bad [
        | some e ↦ emit nak (count mark_nak (count mark_decode_failure h))
        | none ↦
            if no_entity found
            then emit nak (count mark_nak (count mark_extraction_failure h))
            else elim verdict [
              | none ↦
                  emit nak (count mark_nak (count mark_awareness_panic (record h { world = w })))
              | some v ↦ act found.0 v (emit ack (record h { world = w }))
            ]
      ]
