-- ===== src/Tests/Inbox.antt =====
-- dispatch.go, stream.go and thinking.go on one channel. The decoder takes the first byte, the
-- entity is the subject, and awareness counts its calls: byte 1 is noted, 2 makes the imp think, 3
-- breaks awareness, and any other is ignored.
use imps.Base.{
  ℕ, zero, suc, ◌+◌, String, ◌+ℤ◌, true, Option, none, some, List, [], ◌∷◌, ◌≡◌, refl, get_elem?,
  set, remove, total,
}
use imps.Spec.{Message, Verdict, ignore, note, think}
use imps.Dispatch.{
  Callbacks, returned, failed, panicked, ack, nak, noted, launched, invoke_note, act, dispatch,
  dispatch_stream, launch_thinking, work,
}
use imps.Dispatch.Agree.{Answered, dispatch-Answered}
use imps.Dispatch.Gauge.{
  Event, arrive, arrive_stream, turn, change, idle, step, run, Metered, run_gauge,
}
use imps.Dispatch.Answers.{streamed}

abbrev first_byte : Message → ℕ × Option String
first_byte m = elim m.payload [ [] ↦ (0, some "empty") | b ∷ _ ↦ (b, none) ]

abbrev aware : ℕ → String → ℕ → ℕ × Option (Verdict ℕ)
aware (suc zero) e w = (w + 1, some (note 1))
aware (suc (suc zero)) e w = (w + 1, some (think 2 e))
aware (suc (suc (suc zero))) e w = (w + 1, none)
aware n e w = (w + 1, some ignore)

abbrev pub calls : Callbacks ℕ ℕ String
calls = record {
  decode = first_byte;
  extract_entity = λ b. ("ann", none);
  awareness = aware;
  on_note = some (λ e p w. (w, true));
}

abbrev pub byte : List ℕ → Message
byte bs = record { subject = "in"; reply = ""; headers = []; payload = bs }

-- Five messages from JetStream, one without it, and two goroutines that end.
abbrev day : List (Event ℕ ℕ String)
day =
    arrive_stream calls (byte (2 ∷ []))
    ∷ arrive_stream calls (byte [])
    ∷ arrive calls (byte (2 ∷ []))
    ∷ turn 1 failed
    ∷ arrive_stream calls (byte (1 ∷ []))
    ∷ turn 0 returned
    ∷ turn 0 returned
    ∷ arrive_stream calls (byte (3 ∷ []))
    ∷ turn 0 returned
    ∷ turn 0 panicked
    ∷ turn 0 panicked
    ∷ change 9
    ∷ []

unfoldable pub program : Unit {0}
unfolding act invoke_note dispatch dispatch_stream launch_thinking work step run get_elem? set
    remove total ◌+ℤ◌ streamed
program = tt

day_effects :
    (run (idle 0) day).effects
    ≡ ack ∷ launched 2 "ann" ∷ nak ∷ launched 2 "ann" ∷ ack ∷ noted "ann" 1 ∷ nak ∷ []
unfolding program
day_effects = refl

dispatch-Answered_example : Answered calls (byte (2 ∷ [])) (idle 0)
dispatch-Answered_example = dispatch-Answered calls (byte (2 ∷ [])) (idle 0)

run_gauge_example : Metered (run (idle 0) day)
run_gauge_example = run_gauge 0 day
