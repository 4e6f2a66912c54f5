-- ===== src/Dispatch/Gauge.antt =====
-- dispatch.go, stream.go and thinking.go over time: messages that arrive on any channel, and the
-- thinking goroutines, each moved one step by the scheduler. The two counters that `launchThinking`
-- moves before the `go` statement move together.
use imps.Base.{
  ℕ, ◌≤◌, List, [], ◌∷◌, ◌≡◌, refl, ap, ◌∙◌, arith, length, pos, ◌+ℤ◌, ◌≤ℤ◌, Option-cases,
  Bool-cases, ◌⊎◌, inl, inr, get_elem?, total, length-append, total-snoc, total-set, total-remove,
  length-set, length-remove, String,
}
use imps.Metrics.{Metrics, new_metrics, mark_think}
use imps.Spec.{Verdict, unset, ignore, note, think, Message}
use imps.Dispatch.{
  Callbacks, Harness, Thinker, Stage, at_work, lowering, leaving, Ending, invoke_note, act,
  no_entity, dispatch, dispatch_stream, launch_thinking, work, count, Outcome, dispatch_ok,
  dispatch_decode_fail, dispatch_extract_fail, dispatch_awareness_panic,
}
use imps.Dispatch.Agree.{dispatch-Answered, tallied}

-- A message on a subject channel or a stream channel, with the functions of its channel; a step of
-- a goroutine; and a change of the world by a user's function.
pub data Event (W Any E : Type 0) : Type 0 where
  arrive : Callbacks W Any E → Message → Event W Any E
  arrive_stream : Callbacks W Any E → Message → Event W Any E
  turn : ℕ → Ending → Event W Any E
  change : W → Event W Any E

abbrev pub raised : {Any : Type 0} → Thinker Any → ℕ
raised t = elim t.stage [ leaving ↦ 0 | _ ↦ 1 ]

pub Stage-cases : (s : Stage) → (s ≡ at_work) ⊎ ((s ≡ lowering) ⊎ (s ≡ leaving))
Stage-cases at_work = inl refl
Stage-cases lowering = inr (inl refl)
Stage-cases leaving = inr (inr refl)

tallied-inflight :
    (o : Outcome) (m : Metrics) → (tallied o m).inflight_thinking ≡ m.inflight_thinking
tallied-inflight dispatch_ok m = refl
tallied-inflight dispatch_decode_fail m = refl
tallied-inflight dispatch_extract_fail m = refl
tallied-inflight dispatch_awareness_panic m = refl

length-zero : {A : Type 0} (xs : List A) → length xs ≡ 0 → xs ≡ []
length-zero [] q = refl
length-zero (x ∷ xs) q = ground (arith, q)

total-raised : {Any : Type 0} (ts : List (Thinker Any)) → total raised ts ≤ length ts
unfolding total
total-raised [] = ground arith
total-raised (t ∷ ts) = ground (arith, total-raised ts, Stage-cases t.stage)

module _ {W Any : Type 0} where
  abbrev pub idle : W → Harness W Any
  idle w = record { world = w; metrics = new_metrics; waiting = pos 0; running = []; effects = [] }

  -- `thinkingWG` counts the goroutines, and the gauge those that have not lowered it.
  abbrev pub Gauged : Harness W Any → Type 0
  Gauged h =
      (h.waiting ≡ pos (length h.running))
      × (h.metrics.inflight_thinking ≡ pos (total raised h.running))

  -- The gauge besides within its bounds.
  pub record Metered (h : Harness W Any) : Type 0 where
    pub waiting : h.waiting ≡ pos (length h.running)
    gauge : h.metrics.inflight_thinking ≡ pos (total raised h.running)
    low : pos 0 ≤ℤ h.metrics.inflight_thinking
    high : h.metrics.inflight_thinking ≤ℤ h.waiting

  launch_thinking-Gauged :
      (reason : Any) (entity : String) (h : Harness W Any)
      → Gauged h
      → Gauged (launch_thinking reason entity h)
  unfolding launch_thinking ◌+ℤ◌ total
  launch_thinking-Gauged reason entity h (g, k) =
      let t : Thinker Any = record { reason = reason; entity = entity; stage = at_work } in
      (
        ground (arith, g, length-append h.running (t ∷ [])),
        ground (arith, k, total-snoc raised h.running t),
      )

  work-Gauged : (i : ℕ) (e : Ending) (h : Harness W Any) → Gauged h → Gauged (work i e h)
  unfolding work ◌+ℤ◌
  work-Gauged i e h (g, k) = elim (Option-cases (get_elem? h.running i)) [
    | inl q ↦ rw (work, q) (g, k)
    | inr (t, q) ↦ elim (Stage-cases t.stage) [
      | inl r ↦
          rw (work, q, r)
            (
              ground (arith, g, length-set h.running i (record t { stage = lowering })),
              ground (arith, k, r, total-set raised h.running i (record t { stage = lowering }) q),
            )
      | inr (inl r) ↦
          rw (work, q, r)
            (
              ground (arith, g, length-set h.running i (record t { stage = leaving })),
              ground (arith, k, r, total-set raised h.running i (record t { stage = leaving }) q),
            )
      | inr (inr r) ↦
          rw (work, q, r)
            (
              ground (arith, g, length-remove h.running i q),
              ground (arith, k, r, total-remove raised h.running i q),
            )
    ]
  ]

module _ {W Any E : Type 0} where
  act-Gauged :
      (c : Callbacks W Any E) (e : String) (v : Verdict Any) (h : Harness W Any)
      → Gauged h
      → Gauged (act c e v h)
  unfolding act invoke_note
  act-Gauged c e unset h g = g
  act-Gauged c e ignore h g = g
  act-Gauged c e (note payload) h g = elim (Option-cases c.on_note) [
    | inl q ↦ rw (act, invoke_note, q) g
    | inr (hook, q) ↦ elim (Bool-cases (hook e payload h.world).1) [
      | inl r ↦ rw (act, invoke_note, q, r) g
      | inr r ↦ rw (act, invoke_note, q, r) g
    ]
  ]
  act-Gauged c e (think reason target) h g =
      launch_thinking-Gauged reason target (count mark_think h) g

  dispatch-Gauged :
      (c : Callbacks W Any E) (msg : Message) (h : Harness W Any)
      → Gauged h
      → Gauged ((dispatch c msg h).0)
  unfolding dispatch
  dispatch-Gauged c msg h g =
      let decoded = c.decode msg in
      let found = c.extract_entity decoded.0 in
      let judged = c.awareness decoded.0 found.0 h.world in
      elim (Option-cases decoded.1) [
        | inr (x, q) ↦ rw (dispatch, q) g
        | inl q ↦ elim (Bool-cases (no_entity found)) [
          | inl r ↦ rw (dispatch, q, r) g
          | inr r ↦ elim (Option-cases judged.1) [
            | inl s ↦ rw (dispatch, q, r, s) g
            | inr (v, s) ↦
                rw (dispatch, q, r, s) (act-Gauged c found.0 v (record h { world = judged.0 }) g)
          ]
        ]
      ]

  -- What an event does.
  unfoldable pub step : Harness W Any → Event W Any E → Harness W Any
  step h (arrive c msg) = (dispatch c msg h).0
  step h (arrive_stream c msg) = dispatch_stream c msg h
  step h (turn i ending) = work i ending h
  step h (change w) = record h { world = w }

  unfoldable pub run : Harness W Any → List (Event W Any E) → Harness W Any
  run h [] = h
  run h (e ∷ es) = run (step h e) es

  dispatch_stream-Gauged :
      (c : Callbacks W Any E) (msg : Message) (h : Harness W Any)
      → Gauged h
      → Gauged (dispatch_stream c msg h)
  dispatch_stream-Gauged c msg h g =
      let both = dispatch-Answered c msg h in
      let d = dispatch-Gauged c msg h g in
      rw (both.streamed)
        (d.0, tallied-inflight (dispatch c msg h).1 (dispatch c msg h).0.metrics ∙ d.1)

  pub step-Gauged : (h : Harness W Any) (e : Event W Any E) → Gauged h → Gauged (step h e)
  unfolding step
  step-Gauged h (arrive c msg) g = dispatch-Gauged c msg h g
  step-Gauged h (arrive_stream c msg) g = dispatch_stream-Gauged c msg h g
  step-Gauged h (turn i ending) g = work-Gauged i ending h g
  step-Gauged h (change w) g = g

  run-Gauged : (h : Harness W Any) (es : List (Event W Any E)) → Gauged h → Gauged (run h es)
  unfolding run
  run-Gauged h [] g = g
  run-Gauged h (e ∷ es) g = run-Gauged (step h e) es (step-Gauged h e g)

  -- After any messages on any channels, in any order with the steps of the thinking goroutines,
  -- `thinkingWG` counts the goroutines that have not ended, and the gauge of inflight thinking is
  -- the number of those that have not lowered it: it is never negative, and at most the counter.
  pub run_gauge : (w : W) (es : List (Event W Any E)) → Metered (run (idle w) es)
  unfolding total
  run_gauge w es =
      let g = run-Gauged (idle w) es (refl, refl) in
      record {
        waiting = g.0;
        gauge = g.1;
        low = rw (g.1) (ground arith);
        high = rw (g.0, g.1) (ground (arith, total-raised (run (idle w) es).running));
      }

  -- When the wait of `Shutdown` on `thinkingWG` ends, that is when the counter is zero, no thinking
  -- goroutine is left and the gauge is zero.
  pub run_drained :
      (w : W) (es : List (Event W Any E))
      → (run (idle w) es).waiting ≡ pos 0
      → ((run (idle w) es).running ≡ []) × ((run (idle w) es).metrics.inflight_thinking ≡ pos 0)
  unfolding total
  run_drained w es done =
      let g = run-Gauged (idle w) es (refl, refl) in
      let none_left = length-zero (run (idle w) es).running (ground (arith, g.0, done)) in
      (none_left, g.1 ∙ ap (λ ts. pos (total raised ts)) none_left)
