-- ===== src/Imp/Drain.antt =====
-- imp.go: the `select` of `waitDrain`, and what `Shutdown` returns of it.
use imps.Base.{pos, ◌≤ℤ◌, true, false, none, some, ◌≡◌, ◌⊎◌, All}
use imps.Errors.{drain_exceeded}
use imps.Dispatch.Gauge.{step as happen}
use imps.Imp.{Plan, Runtime, Shared, Point, down_drained, down_stopped, Life, step}
use imps.Imp.Single.{Guarded}

module _ {W Any E : Type 0} (plan : Plan Any E) where
  -- The drain window has passed since `waitDrain` started its timer.
  abbrev Overdue : Runtime W Any E → Type 0
  Overdue rt = plan.drain_window ≤ℤ pos rt.elapsed

  -- The error of the drain is settled by the branch that the `select` took.
  abbrev Settled : Runtime W Any E → Type 0
  Settled rt =
      ((rt.drained ≡ none) × (rt.done ≡ true)) ⊎ ((rt.drained ≡ some drain_exceeded) × Overdue rt)

  abbrev Decided : Shared W Any E → Type 0
  Decided sh = elim sh.runtime [ none ↦ ⊥ | some rt ↦ Settled rt ]

  abbrev Sealed : Shared W Any E → Type 0
  Sealed sh = elim sh.runtime [ none ↦ Unit {0} | some rt ↦ (rt.closed ≡ false) ⊎ Settled rt ]

  -- A call of `Shutdown` that is past its `waitDrain`.
  abbrev Past : Shared W Any E → Point Any E → Type 0
  Past sh p = elim p [ down_drained ↦ Decided sh | down_stopped ↦ Decided sh | _ ↦ Unit {0} ]

module _ {W Any E : Type 0} (plan : Plan Any E) where
  record Fair (l : Life W Any E) : Type 0 where
    guarded : Guarded l.shared
    sealed : Sealed plan l.shared
    past : All (Past plan l.shared) l.calls
