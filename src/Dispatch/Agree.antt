-- ===== src/Dispatch/Agree.antt =====
-- dispatch.go and stream.go: `dispatch` and `dispatchStream` beside each other and beside a
-- description of what a message asks for.
use mathlib.Core.List.{append_assoc, append-nil}
use imps.Base.{
  String, Option, none, some, List, [], ◌∷◌, ◌++◌, ◌≡◌, refl, sym, ap, ◌≢◌, ◌↔◌, arith,
  if◌then◌else◌, Option-cases, Bool-cases, inl, inr,
}
use imps.Metrics.{Metrics, mark_nak, mark_think}
use imps.Spec.{Verdict, unset, ignore, note, think, Message}
use imps.Dispatch.{
  Outcome, dispatch_ok, Effect, ack, nak, noted, launched, Callbacks, Harness, emit, count,
  invoke_note, act, no_entity, dispatch, dispatch_stream, launch_thinking,
}

-- `nakAndLog` comes with a count.
abbrev pub tallied : Outcome → Metrics → Metrics
tallied dispatch_ok m = m
tallied o m = mark_nak m

-- How JetStream is answered.
abbrev pub answer : {Any : Type 0} → Outcome → Effect Any
answer dispatch_ok = ack
answer o = nak

module _ {W Any E : Type 0} (c : Callbacks W Any E) where
  -- The verdict that a message gets, if it gets to one, and the entity it is about.
  unfoldable pub judged : Message → W → Option (String × Verdict Any)
  judged msg w =
      let decoded = c.decode msg in
      let found = c.extract_entity decoded.0 in
      elim decoded.1 [
        | some e ↦ none
        | none ↦ if no_entity found then none else elim ((c.awareness decoded.0 found.0 w).1) [
          | none ↦ none
          | some v ↦ some (found.0, v)
        ]
      ]

  -- What a verdict makes the imp do.
  unfoldable pub performed : Option (String × Verdict Any) → List (Effect Any)
  performed none = []
  performed (some (e, unset)) = []
  performed (some (e, ignore)) = []
  performed (some (e, note payload)) = elim c.on_note [
    | none ↦ []
    | some hook ↦ noted e payload ∷ []
  ]
  performed (some (e, think reason target)) = launched reason target ∷ []

  act-effects :
      (e : String) (v : Verdict Any) (h : Harness W Any)
      → (act c e v h).effects ≡ h.effects ++ performed (some (e, v))
  unfolding act performed invoke_note launch_thinking
  act-effects e unset h = sym (append-nil h.effects)
  act-effects e ignore h = sym (append-nil h.effects)
  act-effects e (note payload) h = elim (Option-cases c.on_note) [
    | inl q ↦ rw (q, append-nil h.effects) refl
    | inr (hook, q) ↦ elim (Bool-cases (hook e payload h.world).1) [
      | inl p ↦ rw (q, p) refl
      | inr p ↦ rw (q, p) refl
    ]
  ]
  act-effects e (think reason target) h = refl

  -- Effects that stand before a verdict stay before what it does.
  act-emit :
      (e : String) (v : Verdict Any) (x : Effect Any) (h : Harness W Any)
      → act c e v (emit x h)
        ≡ record (act c e v h) { effects = h.effects ++ x ∷ performed (some (e, v)) }
  unfolding act performed invoke_note launch_thinking
  act-emit e unset x h = refl
  act-emit e ignore x h = refl
  act-emit e (note payload) x h = elim (Option-cases c.on_note) [
    | inl q ↦ rw q refl
    | inr (hook, q) ↦ elim (Bool-cases (hook e payload h.world).1) [
      | inl p ↦ rw (q, p, append_assoc h.effects (x ∷ []) (noted e payload ∷ [])) refl
      | inr p ↦ rw (q, p, append_assoc h.effects (x ∷ []) (noted e payload ∷ [])) refl
    ]
  ]
  act-emit e (think reason target) x h =
      ap (λ l. record (launch_thinking reason target (count mark_think h)) { effects = l })
        (append_assoc h.effects (x ∷ []) (launched reason target ∷ []))

  -- What `dispatch_stream` is to `dispatch`, and both to the verdict.
  pub record Answered (msg : Message) (h : Harness W Any) : Type 0 where
    pub plain : (dispatch c msg h).0.effects ≡ h.effects ++ performed (judged msg h.world)
    pub streamed : dispatch_stream c msg h ≡ record ((dispatch c msg h).0) {
      metrics = tallied (dispatch c msg h).1 (dispatch c msg h).0.metrics;
      effects = h.effects ++ answer (dispatch c msg h).1 ∷ performed (judged msg h.world);
    }
    pub accepted : ((dispatch c msg h).1 ≡ dispatch_ok) ↔ (judged msg h.world ≢ none)

  -- `dispatchStream` does what `dispatch` does and answers JetStream exactly once, before the note
  -- hook is called and before thinking is launched: an ACK if the message got a verdict, a NAK that
  -- is counted otherwise. A message without a verdict has no other effect.
  pub dispatch-Answered : (msg : Message) (h : Harness W Any) → Answered msg h
  unfolding dispatch dispatch_stream judged performed
  dispatch-Answered msg h =
      let decoded = c.decode msg in
      let found = c.extract_entity decoded.0 in
      elim (Option-cases decoded.1) [
        | inr (x, q) ↦ record {
          plain = rw (dispatch, judged, q, append-nil h.effects) refl;
          streamed = rw (dispatch, dispatch_stream, q, judged) refl;
          accepted = ground arith;
        }
        | inl q ↦ elim (Bool-cases (no_entity found)) [
          | inl r ↦ record {
            plain = rw (dispatch, judged, q, r, append-nil h.effects) refl;
            streamed = rw (dispatch, dispatch_stream, judged, q, r) refl;
            accepted = ground arith;
          }
          | inr r ↦ elim (Option-cases (c.awareness decoded.0 found.0 h.world).1) [
            | inl s ↦ record {
              plain = rw (dispatch, judged, q, r, s, append-nil h.effects) refl;
              streamed = rw (dispatch, dispatch_stream, judged, q, r, s) refl;
              accepted = ground arith;
            }
            | inr (v, s) ↦ record {
              plain =
                  rw (dispatch, judged, q, r, s)
                    (act-effects found.0 v
                      (record h { world = (c.awareness decoded.0 found.0 h.world).0 }));
              streamed =
                  rw (dispatch, dispatch_stream, judged, q, r, s)
                    (act-emit found.0 v ack
                      (record h { world = (c.awareness decoded.0 found.0 h.world).0 }));
              accepted = ground arith;
            }
          ]
        ]
      ]
