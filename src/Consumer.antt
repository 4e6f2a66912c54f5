-- ===== src/Consumer.antt =====
-- stream.go and the consumer settings of channel.go: the JetStream consumer of a stream channel, up
-- to `Consume`. The policies are JetStream's integers; their names, the printing of durations and
-- the value of the explicit ack policy are parameters, as are the stream's two calls.
pub mod Diffs
pub mod Existing
pub mod Decimal
use imps.Base.{
  ℕ, zero, suc, ◌/◌, ◌%◌, ◌^◌, ltb, negsuc, String, ◌<>◌, ◌==◌, ℤ, pos, ltb_ℤ, eqb_ℤ, Bool, true,
  false, not, ◌&&◌, Option, none, some, List, [], ◌∷◌, ◌++◌, if◌then◌else◌, eqb,
}
use imps.Errors.{
  ImpError, passed, subscription_failed, consumer_incompatible, Sentinel, js_consumer_not_found,
}

-- `type ConsumerConfig` of channel.go; times are nanoseconds.
pub record ConsumerConfig : Type 0 where
  pub ack_policy : ℤ
  pub ack_wait : ℤ
  pub max_deliver : ℤ
  pub deliver_policy : ℤ
  pub replay_policy : ℤ
  pub opt_start_seq : ℕ
  pub opt_start_time : Option ℤ
  pub max_ack_pending : ℤ
  pub description : String

-- The fields of JetStream's `ConsumerConfig` that the code sets or reads.
pub record Desired : Type 0 where
  pub durable : String
  pub name : String
  pub filter_subject : String
  pub settings : ConsumerConfig

-- What the code uses of JetStream's policies and of `time.Duration`.
pub record Printing : Type 0 where
  pub explicit : ℤ
  pub ack_name : ℤ → String
  pub deliver_name : ℤ → String
  pub replay_name : ℤ → String
  pub duration : ℤ → String

-- `if x != 0 { cfg.f = x }`
abbrev pub set_int : ℤ → ℤ → ℤ
set_int x old = if eqb_ℤ x (pos 0) then old else x

-- `buildConsumerConfig`
unfoldable pub build_consumer_config : ℤ → ConsumerConfig → String → Desired
build_consumer_config explicit cc resolved_filter = record {
  durable = "";
  name = "";
  filter_subject = resolved_filter;
  settings = record {
    ack_policy = set_int cc.ack_policy explicit;
    ack_wait = if ltb_ℤ (pos 0) cc.ack_wait then cc.ack_wait else pos 0;
    max_deliver = set_int cc.max_deliver (pos 0);
    deliver_policy = set_int cc.deliver_policy (pos 0);
    replay_policy = set_int cc.replay_policy (pos 0);
    opt_start_seq = if eqb cc.opt_start_seq 0 then 0 else cc.opt_start_seq;
    opt_start_time = elim cc.opt_start_time [ none ↦ none | some t ↦ some t ];
    max_ack_pending = set_int cc.max_ack_pending (pos 0);
    description = if cc.description == "" then "" else cc.description;
  };
}

-- `formatDiff`
abbrev pub format_diff : String → String → String → String
format_diff field existing declared =
    (field <> ": existing=\"") <> ((existing <> "\", declared=\"") <> (declared <> "\""))

-- `'0' + i%10`
abbrev digit : ℕ → String
digit d =
    if eqb d 0
    then "0"
    else if eqb d 1
    then "1"
    else if eqb d 2
    then "2"
    else if eqb d 3
    then "3"
    else if eqb d 4
    then "4"
    else if eqb d 5
    then "5"
    else if eqb d 6
    then "6"
    else if eqb d 7
    then "7"
    else if eqb d 8
    then "8"
    else "9"

-- The `for` loop of `itoa`, on the places that are left in its buffer.
unfoldable pub digits : ℕ → ℕ → String → String
digits zero n written = written
digits (suc places) n written =
    let rest = digits places (n / 10) (digit (n % 10) <> written) in
    if eqb n 0 then written else rest

-- `itoa` on 64-bit integers; the negation of the least one is itself, and has no digits.
unfoldable pub itoa : ℤ → String
unfolding digits
itoa (pos zero) = "0"
itoa (pos n) = digits 20 n ""
itoa (negsuc n) = "-" <> (if ltb (suc n) (2 ^ 63) then digits 20 (suc n) "" else "")

-- `formatDiffInt`
abbrev pub format_diff_int : String → String → String → String
format_diff_int field existing declared =
    (field <> ": existing=") <> (existing <> (", declared=" <> declared))

-- `if b { diffs = append(diffs, d) }`
abbrev pub add_diff : Bool → String → List String → List String
add_diff b d diffs = if b then diffs ++ d ∷ [] else diffs

-- `strings.Join`
unfoldable pub join : String → List String → String
join sep [] = ""
join sep (x ∷ []) = x
join sep (x ∷ xs) = x <> (sep <> join sep xs)

module _ (p : Printing) where
  -- The diffs that `compatDiff` collects, in order.
  unfoldable pub diffs : Desired → Desired → List String
  unfolding itoa
  diffs existing desired =
      let got = existing.settings in
      let want = desired.settings in
      add_diff
        (not (eqb_ℤ want.max_deliver (pos 0)) && not (eqb_ℤ got.max_deliver want.max_deliver))
        (format_diff_int "max_deliver" (itoa got.max_deliver) (itoa want.max_deliver))
        (add_diff (ltb_ℤ (pos 0) want.ack_wait && ltb_ℤ got.ack_wait want.ack_wait)
          (format_diff "ack_wait" (p.duration got.ack_wait) (p.duration want.ack_wait))
          (add_diff
            (not (eqb_ℤ want.replay_policy (pos 0))
              && not (eqb_ℤ got.replay_policy want.replay_policy))
            (format_diff "replay_policy" (p.replay_name got.replay_policy)
              (p.replay_name want.replay_policy))
            (add_diff
              (not (eqb_ℤ want.deliver_policy (pos 0))
                && not (eqb_ℤ got.deliver_policy want.deliver_policy))
              (format_diff "deliver_policy" (p.deliver_name got.deliver_policy)
                (p.deliver_name want.deliver_policy))
              (add_diff (not (eqb_ℤ got.ack_policy p.explicit))
                (format_diff "ack_policy" (p.ack_name got.ack_policy) "explicit")
                (add_diff (not (existing.filter_subject == desired.filter_subject))
                  (format_diff "filter_subject" existing.filter_subject desired.filter_subject)
                  [])))))

  -- `compatDiff`; no info is `none`.
  unfoldable pub compat_diff : Option Desired → Desired → String
  unfolding join diffs
  compat_diff none desired = "existing consumer info unavailable"
  compat_diff (some existing) desired = join "; " (diffs existing desired)

module _ {E : Type 0} (p : Printing) (is : E → Sentinel → Bool) where
  -- `resolveConsumer`: the consumer's name, whether it is ephemeral, and the error.
  unfoldable pub resolve_consumer :
      (Desired → String × Option E)
      → (String → Option Desired × Option E)
      → String
      → Desired
      → (String × Bool) × Option (ImpError E)
  unfolding compat_diff
  resolve_consumer create consumer durable desired =
      let (server_name, refused) = create (record desired { durable = "" }) in
      let want : Desired = record desired { durable = durable; name = durable } in
      let (info, err) = consumer durable in
      let created = create want in
      if durable == ""
      then elim refused [
        | some e ↦ (("", false), some (subscription_failed desired.filter_subject e))
        | none ↦ ((server_name, true), none)
      ]
      else elim err [
        | some e ↦
            if is e js_consumer_not_found
            then elim created.1 [
              | some ce ↦ (("", false), some (subscription_failed desired.filter_subject ce))
              | none ↦ ((durable, false), none)
            ]
            else (("", false), some (passed e))
        | none ↦
            if compat_diff p info want == ""
            then ((durable, false), none)
            else (("", false), some (consumer_incompatible durable (compat_diff p info want)))
      ]
