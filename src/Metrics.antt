-- ===== src/Metrics.antt =====
-- metrics_internal.go: the counters that the dispatch path and the thinking goroutines move. The
-- four request counters are moved by the request functions alone and stand with those.
use imps.Base.{ℕ, ◌+◌, ◌%◌, ◌^◌, ℤ, pos, ◌+ℤ◌}

pub record Metrics : Type 0 where
  pub inflight_thinking : ℤ
  pub decode_failures : ℕ
  pub extraction_failures : ℕ
  pub awareness_panics : ℕ
  pub thinking_panics : ℕ
  pub thinking_errors : ℕ
  pub notes_delivered : ℕ
  pub thinks_dispatched : ℕ
  pub ignored_verdicts : ℕ
  pub nak_total : ℕ

-- `atomic.Uint64.Add(1)`
abbrev pub bump : ℕ → ℕ
bump n = (n + 1) % 2 ^ 64

abbrev pub new_metrics : Metrics
new_metrics = record {
  inflight_thinking = pos 0;
  decode_failures = 0;
  extraction_failures = 0;
  awareness_panics = 0;
  thinking_panics = 0;
  thinking_errors = 0;
  notes_delivered = 0;
  thinks_dispatched = 0;
  ignored_verdicts = 0;
  nak_total = 0;
}

abbrev pub mark_decode_failure : Metrics → Metrics
mark_decode_failure m = record m { decode_failures = bump m.decode_failures }

abbrev pub mark_extraction_failure : Metrics → Metrics
mark_extraction_failure m = record m { extraction_failures = bump m.extraction_failures }

abbrev pub mark_awareness_panic : Metrics → Metrics
mark_awareness_panic m = record m { awareness_panics = bump m.awareness_panics }

abbrev pub mark_thinking_panic : Metrics → Metrics
mark_thinking_panic m = record m { thinking_panics = bump m.thinking_panics }

abbrev pub mark_thinking_error : Metrics → Metrics
mark_thinking_error m = record m { thinking_errors = bump m.thinking_errors }

abbrev pub mark_note : Metrics → Metrics
mark_note m = record m { notes_delivered = bump m.notes_delivered }

abbrev pub mark_think : Metrics → Metrics
mark_think m = record m { thinks_dispatched = bump m.thinks_dispatched }

abbrev pub mark_ignored : Metrics → Metrics
mark_ignored m = record m { ignored_verdicts = bump m.ignored_verdicts }

abbrev pub mark_nak : Metrics → Metrics
mark_nak m = record m { nak_total = bump m.nak_total }

abbrev pub move_gauge : ℤ → Metrics → Metrics
move_gauge d m = record m { inflight_thinking = m.inflight_thinking +ℤ d }
