-- ===== src/Dispatch/Counted.antt =====
-- dispatch.go and stream.go over time: the counters beside what was done.
use imps.Base.{
  ℕ, ◌%◌, ◌^◌, List, [], ◌∷◌, ◌≡◌, refl, ◌∙◌, arith, Option-cases, Bool-cases, inl, inr, get_elem?,
  total, total-snoc, String,
}
use imps.Metrics.{
  Metrics, mark_note, mark_think, mark_nak, mark_decode_failure, mark_extraction_failure,
  mark_awareness_panic,
}
use imps.Spec.{Verdict, unset, ignore, note, think, Message}
use imps.Dispatch.{
  Effect, ack, nak, noted, launched, Callbacks, Harness, Ending, returned, failed, panicked,
  invoke_note, act, no_entity, dispatch, dispatch_stream, launch_thinking, work, ended, count, emit,
}
use imps.Dispatch.Gauge.{Event, arrive, arrive_stream, turn, change, idle, step, run, Stage-cases}

abbrev pub naks : {Any : Type 0} → Effect Any → ℕ
naks x = elim x [ nak ↦ 1 | _ ↦ 0 ]

abbrev pub launches : {Any : Type 0} → Effect Any → ℕ
launches x = elim x [ launched _ _ ↦ 1 | _ ↦ 0 ]

ended-counts :
    (e : Ending) (m : Metrics)
    → ((ended e m).nak_total ≡ m.nak_total) × ((ended e m).thinks_dispatched ≡ m.thinks_dispatched)
ended-counts returned m = (refl, refl)
ended-counts failed m = (refl, refl)
ended-counts panicked m = (refl, refl)

module _ {W Any : Type 0} where
  -- The counters are what was done, in 64 bits.
  abbrev pub Counted : Harness W Any → Type 0
  Counted h =
      (h.metrics.nak_total ≡ total naks h.effects % 2 ^ 64)
      × (h.metrics.thinks_dispatched ≡ total launches h.effects % 2 ^ 64)

  emit-Counted :
      (x : Effect Any) (h : Harness W Any)
      → naks x ≡ 0
      → launches x ≡ 0
      → Counted h
      → Counted (emit x h)
  unfolding total
  emit-Counted x h a b (k, l) = (
    ground (arith, k, a, total-snoc naks h.effects x),
    ground (arith, l, b, total-snoc launches h.effects x),
  )

  nak-Counted : (h : Harness W Any) → Counted h → Counted (emit nak (count mark_nak h))
  unfolding total
  nak-Counted h (k, l) = (
    ground (arith, k, total-snoc naks h.effects nak),
    ground (arith, l, total-snoc launches h.effects nak),
  )

  launch_thinking-Counted :
      (reason : Any) (entity : String) (h : Harness W Any)
      → Counted h
      → Counted (launch_thinking reason entity (count mark_think h))
  unfolding launch_thinking
  launch_thinking-Counted reason entity h (k, l) =
      let x : Effect Any = launched reason entity in
      (
        ground (arith, k, total-snoc naks h.effects x),
        ground (arith, l, total-snoc launches h.effects x),
      )

  work-Counted : (i : ℕ) (e : Ending) (h : Harness W Any) → Counted h → Counted (work i e h)
  unfolding work
  work-Counted i e h g = elim (Option-cases (get_elem? h.running i)) [
    | inl q ↦ rw (work, q) g
    | inr (t, q) ↦ elim (Stage-cases t.stage) [
      | inl r ↦ rw (work, q, r) (let k = ended-counts e h.metrics in (k.0 ∙ g.0, k.1 ∙ g.1))
      | inr (inl r) ↦ rw (work, q, r) g
      | inr (inr r) ↦ rw (work, q, r) g
    ]
  ]

module _ {W Any E : Type 0} where
  act-Counted :
      (c : Callbacks W Any E) (e : String) (v : Verdict Any) (h : Harness W Any)
      → Counted h
      → Counted (act c e v h)
  unfolding act invoke_note
  act-Counted c e unset h g = g
  act-Counted c e ignore h g = g
  act-Counted c e (note payload) h g = elim (Option-cases c.on_note) [
    | inl q ↦ rw (act, invoke_note, q) g
    | inr (hook, q) ↦
        let (w, broke) = hook e payload h.world in
        let r =
          emit-Counted (noted e payload)
            (record (count mark_note h) { world = (hook e payload h.world).0 }) refl refl g in
        elim (Bool-cases (hook e payload h.world).1) [
          | inl p ↦ rw (act, invoke_note, q, p) r
          | inr p ↦ rw (act, invoke_note, q, p) r
        ]
  ]
  act-Counted c e (think reason target) h g = launch_thinking-Counted reason target h g

  dispatch-Counted :
      (c : Callbacks W Any E) (msg : Message) (h : Harness W Any)
      → Counted h
      → Counted ((dispatch c msg h).0) × Counted (dispatch_stream c msg h)
  unfolding dispatch dispatch_stream
  dispatch-Counted c msg h g =
      let decoded = c.decode msg in
      let found = c.extract_entity decoded.0 in
      let judged = c.awareness decoded.0 found.0 h.world in
      elim (Option-cases decoded.1) [
        | inr (x, q) ↦
            rw (dispatch, dispatch_stream, q) (g, nak-Counted (count mark_decode_failure h) g)
        | inl q ↦ elim (Bool-cases (no_entity found)) [
          | inl r ↦
              rw (dispatch, dispatch_stream, q, r)
                (g, nak-Counted (count mark_extraction_failure h) g)
          | inr r ↦ elim (Option-cases judged.1) [
            | inl s ↦
                rw (dispatch, dispatch_stream, q, r, s)
                  (g, nak-Counted (count mark_awareness_panic (record h { world = judged.0 })) g)
            | inr (v, s) ↦
                let h' : Harness W Any = record h { world = judged.0 } in
                rw (dispatch, dispatch_stream, q, r, s)
                  (
                    act-Counted c found.0 v h' g,
                    act-Counted c found.0 v (emit ack h') (emit-Counted ack h' refl refl g),
                  )
          ]
        ]
      ]

  step-Counted : (h : Harness W Any) (e : Event W Any E) → Counted h → Counted (step h e)
  unfolding step
  step-Counted h (arrive c msg) g = (dispatch-Counted c msg h g).0
  step-Counted h (arrive_stream c msg) g = (dispatch-Counted c msg h g).1
  step-Counted h (turn i ending) g = work-Counted i ending h g
  step-Counted h (change w) g = g

  run-Counted : (h : Harness W Any) (es : List (Event W Any E)) → Counted h → Counted (run h es)
  unfolding run
  run-Counted h [] g = g
  run-Counted h (e ∷ es) g = run-Counted (step h e) es (step-Counted h e g)

  -- After any messages and any steps of goroutines, the NAK counter is the number of NAKs that were
  -- sent and the counter of dispatched thinks is the number of goroutines that were started, both
  -- in 64 bits.
  pub run_counts :
      (w : W) (es : List (Event W Any E))
      → ((run (idle w) es).metrics.nak_total ≡ total naks (run (idle w) es).effects % 2 ^ 64)
        × ((run (idle w) es).metrics.thinks_dispatched
            ≡ total launches (run (idle w) es).effects % 2 ^ 64)
  unfolding total
  run_counts w es = run-Counted (idle w) es (refl, refl)
