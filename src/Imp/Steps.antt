-- ===== src/Imp/Steps.antt =====
-- imp.go: single steps of a history, where what a step does is known.
use imps.Base.{
  ℕ, pos, leb_ℤ, false, true, none, some, List, [], ◌∷◌, ◌++◌, ◌≡◌, refl, get_elem?, set,
}
use imps.Channels.{Substrate}
use imps.Imp.{
  Plan, Shared, Point, run_entering, run_booted, Choice, inside, advance, boot_runtime, new_runtime,
  Life, Event, turn, step, run,
}

module _ {W Any E : Type 0} (w : Substrate E) (plan : Plan Any E) (world : W) where
  -- `bootRuntime` the first time, and the first step of the first `Run`.
  booted :
      leb_ℤ plan.request_timeout (pos 0) ≡ false
      → leb_ℤ plan.request_many_window (pos 0) ≡ false
      → boot_runtime w plan world (record { once = false; runtime = none })
        ≡ (record { once = true; runtime = some (new_runtime w plan world) }, none)
  unfolding boot_runtime
  booted a b = rw (a, b) refl

  pub enter :
      leb_ℤ plan.request_timeout (pos 0) ≡ false
      → leb_ℤ plan.request_many_window (pos 0) ≡ false
      → advance w plan world inside run_entering (record { once = false; runtime = none })
        ≡ (record { once = true; runtime = some (new_runtime w plan world) }, run_booted)
  unfolding advance
  enter a b = rw (advance, booted a b) (rw (booted a b) refl)

  -- One step of a call, where what it does is known.
  pub run-turn :
      (l : Life W Any E) (i : ℕ) (ch : Choice) (p p' : Point Any E) (sh : Shared W Any E)
      (es : List (Event W Any E))
      → get_elem? l.calls i ≡ some p
      → advance w plan world ch p l.shared ≡ (sh, p')
      → run w plan world l (turn i ch ∷ es)
        ≡ run w plan world (record { shared = sh; calls = set l.calls i p' }) es
  unfolding run step
  run-turn l i ch p p' sh es q e = rw (step, q, e) refl

  pub run-append :
      (l : Life W Any E) (xs ys : List (Event W Any E))
      → run w plan world l (xs ++ ys) ≡ run w plan world (run w plan world l xs) ys
  unfolding run
  run-append l [] ys = refl
  run-append l (x ∷ xs) ys = run-append (step w plan world l x) xs ys
