-- ===== src/Schedule/Register.antt =====
-- schedule/register.go and the header names of schedule/tick.go: `Register` and `Deregister`. What
-- JetStream answers and the printing of durations are parameters; durations are nanoseconds.
use imps.Base.{
  ℕ, String, ◌<>◌, ◌==◌, ℤ, pos, leb_ℤ, ltb_ℤ, Bool, true, false, not, ◌&&◌, ◌||◌, Option, none,
  some, List, [], ◌∷◌, if◌then◌else◌, insert,
}
use imps.Errors.{ImpError, message, wrapped}
use imps.Request.{configure}

-- `nats.Msg`, the fields that the code sets; a header that is set has one value.
pub record Outgoing : Type 0 where
  pub subject : String
  pub headers : List (String × String)
  pub data_bytes : List ℕ

-- `type registerConfig`
pub record RegisterConfig : Type 0 where
  pub ttl : ℤ
  pub ttl_set : Bool
  pub time_zone : String
  pub body : List ℕ
  pub source : String
  pub rollup : Bool

-- `WithTickTTL`
unfoldable pub with_tick_ttl : ℤ → RegisterConfig → RegisterConfig
with_tick_ttl ttl c = record c { ttl = ttl; ttl_set = true }

-- `WithTimeZone`
unfoldable pub with_time_zone : String → RegisterConfig → RegisterConfig
with_time_zone tz c = record c { time_zone = tz }

-- `WithBody`
unfoldable pub with_body : List ℕ → RegisterConfig → RegisterConfig
with_body body c = record c { body = body }

-- `WithSource`
unfoldable pub with_source : String → RegisterConfig → RegisterConfig
with_source subject c = record c { source = subject }

-- `WithRollup`
unfoldable pub with_rollup : RegisterConfig → RegisterConfig
with_rollup c = record c { rollup = true }

-- `var cfg registerConfig`
abbrev pub no_config : RegisterConfig
no_config = record {
  ttl = pos 0;
  ttl_set = false;
  time_zone = "";
  body = [];
  source = "";
  rollup = false;
}

-- `if b { msg.Header.Set(name, value) }`
unfoldable pub set_if : Bool → String → String → List (String × String) → List (String × String)
set_if b name value headers = if b then insert name value headers else headers

-- The message of `Register`.
unfoldable pub schedule_message :
    (ℤ → String) → String → String → String → RegisterConfig → Outgoing
schedule_message print subject pattern target cfg = record {
  subject = subject;
  headers = set_if cfg.rollup "Nats-Schedule-Rollup" "sub" (
      set_if (not (cfg.source == "")) "Nats-Schedule-Source" cfg.source (
        set_if (not (cfg.time_zone == "")) "Nats-Schedule-Time-Zone" cfg.time_zone (
          set_if (ltb_ℤ (pos 0) cfg.ttl) "Nats-Schedule-TTL" (print cfg.ttl)
            (insert "Nats-Schedule-Target" target (insert "Nats-Schedule" pattern [])))));
  data_bytes = cfg.body;
}

module _ {E : Type 0} where
  -- `Register`, with what it hands to `PublishMsg`.
  unfoldable pub register :
      (ℤ → String)
      → (Outgoing → Option E)
      → String
      → String
      → String
      → List (RegisterConfig → RegisterConfig)
      → List Outgoing × Option (ImpError E)
  unfolding configure
  register print publish subject pattern target opts =
      let cfg = configure opts no_config in
      let msg = schedule_message print subject pattern target cfg in
      if subject == ""
      then ([], some (message "schedule: schedule subject required"))
      else if pattern == ""
      then ([], some (message "schedule: pattern required"))
      else if target == ""
      then ([], some (message "schedule: target subject required"))
      else if cfg.ttl_set && leb_ℤ cfg.ttl (pos 0)
      then ([], some (message "schedule: tick TTL must be > 0"))
      else elim (publish msg) [
        | some e ↦ (msg ∷ [], some (wrapped ("schedule: register " <> subject) e))
        | none ↦ (msg ∷ [], none)
      ]

  -- `Deregister`, with the streams and subjects that it purges.
  unfoldable pub deregister :
      (String → Option E)
      → (String → String → Option E)
      → String
      → String
      → List (String × String) × Option (ImpError E)
  deregister find purge stream subject =
      if (stream == "") || (subject == "")
      then ([], some (message "schedule: stream and schedule subject required"))
      else elim (find stream) [
        | some e ↦ ([], some (wrapped ("schedule: deregister " <> subject) e))
        | none ↦ elim (purge stream subject) [
          | some e ↦ ((stream, subject) ∷ [], some (wrapped ("schedule: deregister " <> subject) e))
          | none ↦ ((stream, subject) ∷ [], none)
        ]
      ]
