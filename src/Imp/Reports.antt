-- ===== src/Imp/Reports.antt =====
-- imp.go: what an imp says of itself, `Ready`, `Identity` and `Metrics`.
use imps.Base.{
  ℕ, String, ℤ, pos, Bool, false, eqb, none, some, List, ◌≡◌, refl, arith, Option-cases, inl, inr,
}
use imps.Channels.{Substrate}
use imps.Metrics.{Metrics}
use imps.Request.{Requests}
use imps.Lifecycle.{running, code, get}
use imps.Imp.Booted.{AsBooted, run-Booted}
use imps.Imp.{Plan, Shared, Event, fresh, run}

-- `Metrics`, the copy of all counters
pub record Snapshot : Type 0 where
  pub inflight_thinking : ℤ
  pub decode_failures : ℕ
  pub extraction_failures : ℕ
  pub awareness_panics : ℕ
  pub thinking_panics : ℕ
  pub thinking_errors : ℕ
  pub notes_delivered : ℕ
  pub thinks_dispatched : ℕ
  pub ignored_verdicts : ℕ
  pub nak_total : ℕ
  pub request_calls : ℕ
  pub request_many_calls : ℕ
  pub request_no_responders : ℕ
  pub request_timeouts : ℕ

-- `snapshot`: one load for each counter, here all of one moment.
abbrev pub snapshot : Metrics → Requests → Snapshot
snapshot m r = record {
  inflight_thinking = m.inflight_thinking;
  decode_failures = m.decode_failures;
  extraction_failures = m.extraction_failures;
  awareness_panics = m.awareness_panics;
  thinking_panics = m.thinking_panics;
  thinking_errors = m.thinking_errors;
  notes_delivered = m.notes_delivered;
  thinks_dispatched = m.thinks_dispatched;
  ignored_verdicts = m.ignored_verdicts;
  nak_total = m.nak_total;
  request_calls = r.calls;
  request_many_calls = r.many_calls;
  request_no_responders = r.unanswered;
  request_timeouts = r.timeouts;
}

-- `Metrics{}`
abbrev pub no_metrics : Snapshot
no_metrics = record {
  inflight_thinking = pos 0;
  decode_failures = 0;
  extraction_failures = 0;
  awareness_panics = 0;
  thinking_panics = 0;
  thinking_errors = 0;
  notes_delivered = 0;
  thinks_dispatched = 0;
  ignored_verdicts = 0;
  nak_total = 0;
  request_calls = 0;
  request_many_calls = 0;
  request_no_responders = 0;
  request_timeouts = 0;
}

module _ {W Any E : Type 0} where
  -- `Ready`
  unfoldable pub ready : Shared W Any E → Bool
  ready sh = elim sh.runtime [ none ↦ false | some rt ↦ eqb (code (get rt.machine)) (code running) ]

  -- `Identity`
  unfoldable pub identity : Plan Any E → Shared W Any E → String × String
  identity plan sh = elim sh.runtime [ none ↦ (plan.name, plan.version) | some rt ↦ rt.identity ]

  -- `Imp.Metrics`; the request counters, which the contexts move, are beside the model of the imp.
  unfoldable pub metrics : Requests → Shared W Any E → Snapshot
  metrics requests sh = elim sh.runtime [
    | none ↦ no_metrics
    | some rt ↦ snapshot rt.thinking.metrics requests
  ]

module _ {W Any E : Type 0} (w : Substrate E) (plan : Plan Any E) (world : W) where
  -- Whatever calls of Run and Shutdown, messages and thinking goroutines do, Identity returns the name
  -- and the version of the spec.
  pub run-identity :
      (es : List (Event W Any E))
      → identity plan (run w plan world fresh es).shared ≡ (plan.name, plan.version)
  unfolding identity
  run-identity es = elim (Option-cases (run w plan world fresh es).shared.runtime) [
    | inl q ↦ rw (identity, q) refl
    | inr (rt, q) ↦
        let h = run-Booted w plan world fresh es tt in
        let k : AsBooted w plan world rt = ground (arith, h) in ground (arith, k.named)
  ]
