-- ===== src/Dispatch/Answers.antt =====
-- dispatch.go and stream.go over time: the answers to JetStream beside the messages from it.
use imps.Base.{
  ℕ, ◌+◌, Option, none, some, List, [], ◌∷◌, ◌≡◌, refl, arith, Option-cases, inl, inr, get_elem?,
  total, total-append, String,
}
use imps.Spec.{Verdict, unset, ignore, note, think, Message}
use imps.Dispatch.{
  Effect, ack, nak, Callbacks, Harness, Ending, dispatch, dispatch_stream, work, Outcome,
  dispatch_ok, dispatch_decode_fail, dispatch_extract_fail, dispatch_awareness_panic,
}
use imps.Dispatch.Agree.{dispatch-Answered, performed, judged, answer}
use imps.Dispatch.Gauge.{Event, arrive, arrive_stream, turn, change, step, run, Stage-cases}

abbrev pub answers : {Any : Type 0} → Effect Any → ℕ
answers x = elim x [ ack ↦ 1 | nak ↦ 1 | _ ↦ 0 ]

module _ {W Any : Type 0} where
  work-effects : (i : ℕ) (e : Ending) (h : Harness W Any) → (work i e h).effects ≡ h.effects
  unfolding work
  work-effects i e h = elim (Option-cases (get_elem? h.running i)) [
    | inl q ↦ rw (work, q) refl
    | inr (t, q) ↦ elim (Stage-cases t.stage) [
      | inl r ↦ rw (work, q, r) refl
      | inr (inl r) ↦ rw (work, q, r) refl
      | inr (inr r) ↦ rw (work, q, r) refl
    ]
  ]

answers-answer : (Any : Type 0) (o : Outcome) → answers {Any = Any} (answer o) ≡ 1
answers-answer Any dispatch_ok = refl
answers-answer Any dispatch_decode_fail = refl
answers-answer Any dispatch_extract_fail = refl
answers-answer Any dispatch_awareness_panic = refl

module _ {W Any E : Type 0} where
  -- No answer comes from a verdict.
  performed-answers :
      (c : Callbacks W Any E) (o : Option (String × Verdict Any))
      → total answers (performed c o) ≡ 0
  unfolding performed total
  performed-answers c none = refl
  performed-answers c (some (e, unset)) = refl
  performed-answers c (some (e, ignore)) = refl
  performed-answers c (some (e, note payload)) = elim (Option-cases c.on_note) [
    | inl q ↦ rw (performed, q) refl
    | inr (hook, q) ↦ rw (performed, q) refl
  ]
  performed-answers c (some (e, think reason target)) = refl

  -- The messages among the events that came from JetStream.
  unfoldable pub streamed : List (Event W Any E) → ℕ
  streamed [] = 0
  streamed (arrive_stream c msg ∷ es) = streamed es + 1
  streamed (arrive c msg ∷ es) = streamed es
  streamed (turn i ending ∷ es) = streamed es
  streamed (change w ∷ es) = streamed es

  act-answers :
      (c : Callbacks W Any E) (msg : Message) (h : Harness W Any)
      → (total answers (dispatch c msg h).0.effects ≡ total answers h.effects)
        × (total answers (dispatch_stream c msg h).effects ≡ total answers h.effects + 1)
  unfolding total
  act-answers c msg h =
      let both = dispatch-Answered c msg h in
      let tail = performed c (judged c msg h.world) in
      let o = (dispatch c msg h).1 in
      let none = performed-answers c (judged c msg h.world) in
      (
        rw (both.plain) (ground (arith, none, total-append answers h.effects tail)),
        rw (both.streamed) (
            ground (
              arith,
              none,
              answers-answer Any o,
              total-append answers h.effects (answer o ∷ tail),
            )),
      )

  step-answers :
      (h : Harness W Any) (e : Event W Any E)
      → total answers (step h e).effects ≡ total answers h.effects + streamed (e ∷ [])
  unfolding step streamed
  step-answers h (arrive c msg) = ground (arith, (act-answers c msg h).0)
  step-answers h (arrive_stream c msg) = ground (arith, (act-answers c msg h).1)
  step-answers h (turn i ending) = ground (arith, work-effects i ending h)
  step-answers h (change w) = ground arith

  streamed_cons :
      (e : Event W Any E) (es : List (Event W Any E))
      → streamed (e ∷ es) ≡ streamed es + streamed (e ∷ [])
  unfolding streamed
  streamed_cons (arrive c msg) es = ground arith
  streamed_cons (arrive_stream c msg) es = ground arith
  streamed_cons (turn i ending) es = ground arith
  streamed_cons (change w) es = ground arith

  -- Every message that came from JetStream is answered, once.
  pub run-answers :
      (h : Harness W Any) (es : List (Event W Any E))
      → total answers (run h es).effects ≡ total answers h.effects + streamed es
  unfolding run streamed
  run-answers h [] = ground arith
  run-answers h (e ∷ es) =
      ground (arith, run-answers (step h e) es, step-answers h e, streamed_cons e es)
