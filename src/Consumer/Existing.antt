-- ===== src/Consumer/Existing.antt =====
-- stream.go: the check of a durable consumer that exists, in words of its own: `Compatible` against
-- `compatDiff` and what `resolveConsumer` makes of it.
use imps.Base.{String, ◌==◌, pos, ◌≤ℤ◌, ltb_ℤ, eqb_ℤ, Bool, not, ◌&&◌, List, ◌≡◌, ◌⊎◌}
use imps.Consumer.Diffs.{six}
use imps.Consumer.{Desired, Printing, format_diff, format_diff_int, itoa}

-- A consumer that an imp may use: every setting that was declared is the one that it has, it waits
-- at least as long for an acknowledgement, it is acknowledged explicitly, and its filter is that of
-- the channel. Settings that were left at zero are not compared.
pub record Compatible (p : Printing) (existing desired : Desired) : Type 0 where
  pub deliveries :
      (desired.settings.max_deliver ≡ pos 0)
      ⊎ (existing.settings.max_deliver ≡ desired.settings.max_deliver)
  pub waits :
      (desired.settings.ack_wait ≤ℤ pos 0)
      ⊎ (desired.settings.ack_wait ≤ℤ existing.settings.ack_wait)
  pub replays :
      (desired.settings.replay_policy ≡ pos 0)
      ⊎ (existing.settings.replay_policy ≡ desired.settings.replay_policy)
  pub delivers :
      (desired.settings.deliver_policy ≡ pos 0)
      ⊎ (existing.settings.deliver_policy ≡ desired.settings.deliver_policy)
  pub acks : existing.settings.ack_policy ≡ p.explicit
  pub filters : existing.filter_subject ≡ desired.filter_subject

module _ (p : Printing) (existing desired : Desired) where
  abbrev tests : Bool × Bool × Bool × Bool × Bool × Bool
  tests =
      let got = existing.settings in
      let want = desired.settings in
      (
        not (eqb_ℤ want.max_deliver (pos 0)) && not (eqb_ℤ got.max_deliver want.max_deliver),
        ltb_ℤ (pos 0) want.ack_wait && ltb_ℤ got.ack_wait want.ack_wait,
        not (eqb_ℤ want.replay_policy (pos 0)) && not (eqb_ℤ got.replay_policy want.replay_policy),
        not (eqb_ℤ want.deliver_policy (pos 0))
            && not (eqb_ℤ got.deliver_policy want.deliver_policy),
        not (eqb_ℤ got.ack_policy p.explicit),
        not (existing.filter_subject == desired.filter_subject),
      )

  abbrev texts : String × String × String × String × String × String
  texts =
      let got = existing.settings in
      let want = desired.settings in
      (
        format_diff_int "max_deliver" (itoa got.max_deliver) (itoa want.max_deliver),
        format_diff "ack_wait" (p.duration got.ack_wait) (p.duration want.ack_wait),
        format_diff "replay_policy" (p.replay_name got.replay_policy)
            (p.replay_name want.replay_policy),
        format_diff "deliver_policy" (p.deliver_name got.deliver_policy)
            (p.deliver_name want.deliver_policy),
        format_diff "ack_policy" (p.ack_name got.ack_policy) "explicit",
        format_diff "filter_subject" existing.filter_subject desired.filter_subject,
      )

  abbrev six_diffs : List String
  six_diffs =
      six tests.0 tests.1 tests.2 tests.3 tests.4 tests.5 texts.0 texts.1 texts.2 texts.3 texts.4
        texts.5
