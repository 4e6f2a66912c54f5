-- ===== src/Imp/Unbooted.antt =====
-- imp.go: an imp whose default timeouts `bootRuntime` refuses.
use imps.Base.{
  ℕ, pos, leb_ℤ, true, false, none, some, ◌≡◌, refl, ◌⊎◌, inl, inr, arith, Bool-cases, set,
  if◌then◌else◌,
}
use imps.Errors.{ImpError, config_invalid}
use imps.Channels.{Substrate}
use imps.Imp.{Plan, Shared, run_returned, boot_runtime, Life}

module _ {Any E : Type 0} (plan : Plan Any E) where
  abbrev pub BadTimeouts : Type 0
  BadTimeouts =
      (leb_ℤ plan.request_timeout (pos 0) ≡ true) ⊎ (leb_ℤ plan.request_many_window (pos 0) ≡ true)

  -- The error for the first of the two that is not positive.
  abbrev pub refusal : ImpError E
  refusal =
      config_invalid
        (if leb_ℤ plan.request_timeout (pos 0)
          then "default_request_timeout"
          else "default_request_many_window")
        "non-positive"

module _ {W Any E : Type 0} (w : Substrate E) (plan : Plan Any E) (world : W) where
  abbrev Unbooted : Shared W Any E → Type 0
  Unbooted sh = sh.runtime ≡ none

  boot_refused :
      (sh : Shared W Any E)
      → BadTimeouts plan
      → sh.once ≡ false
      → boot_runtime w plan world sh ≡ (record sh { once = true }, some (refusal plan))
  unfolding boot_runtime
  boot_refused sh bad first = ground (arith, bad)

  boot_again : (sh : Shared W Any E) → sh.once ≡ true → boot_runtime w plan world sh ≡ (sh, none)
  unfolding boot_runtime
  boot_again sh again = rw again refl

  boot-Unbooted :
      (sh : Shared W Any E)
      → BadTimeouts plan
      → Unbooted sh
      → Unbooted (boot_runtime w plan world sh).0
  boot-Unbooted sh bad h = elim (Bool-cases sh.once) [
    | inl again ↦ rw (boot_again sh again) h
    | inr first ↦ rw (boot_refused sh bad first) h
  ]

  -- The life after the call `i` was refused.
  abbrev refused_first : Life W Any E → ℕ → Life W Any E
  refused_first l i = record {
    shared = record { once = true; runtime = none };
    calls = set l.calls i (run_returned (some (refusal plan)));
  }
