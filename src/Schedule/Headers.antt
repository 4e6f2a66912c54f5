-- ===== src/Schedule/Headers.antt =====
-- What `Register` hands to the server.
use imps.Base.{
  String, ◌==◌, eq_iff, ℤ, pos, leb_ℤ, ltb_ℤ, Bool, true, false, ◌&&◌, Option, none, some, List, [],
  ◌∷◌, if◌then◌else◌, lookup, lookup-insert, ◌≡◌, refl, ◌≢◌, ◌↔◌, ◌⊎◌, inl, inr, arith, Bool-cases,
}
use imps.Errors.{ImpError}
use imps.Request.{configure}
use imps.Schedule.Register.{Outgoing, RegisterConfig, no_config, set_if, schedule_message, register}

lookup-set_if :
    (b : Bool) (name value k : String) (hs : List (String × String))
    → lookup k (set_if b name value hs) ≡ (if b && (name == k) then some value else lookup k hs)
unfolding set_if
lookup-set_if true name value k hs = lookup-insert name k value hs
lookup-set_if false name value k hs = refl

lookup_empty : (k : String) → lookup {V = String} k [] ≡ none
unfolding lookup
lookup_empty k = refl

-- What the server reads in the message of a schedule.
pub record Asks (print : ℤ → String) (subject pattern target : String) (cfg : RegisterConfig)
    (m : Outgoing) : Type 0 where
  pub on : m.subject ≡ subject
  pub carries : m.data_bytes ≡ cfg.body
  pub fires : lookup "Nats-Schedule" m.headers ≡ some pattern
  pub hits : lookup "Nats-Schedule-Target" m.headers ≡ some target
  pub expires :
      lookup "Nats-Schedule-TTL" m.headers
      ≡ (if ltb_ℤ (pos 0) cfg.ttl then some (print cfg.ttl) else none)
  pub zoned :
      lookup "Nats-Schedule-Time-Zone" m.headers
      ≡ (if cfg.time_zone == "" then none else some cfg.time_zone)
  pub sourced :
      lookup "Nats-Schedule-Source" m.headers ≡ (if cfg.source == "" then none else some cfg.source)
  pub rolled : lookup "Nats-Schedule-Rollup" m.headers ≡ (if cfg.rollup then some "sub" else none)

schedule_message-Asks :
    (print : ℤ → String) (subject pattern target : String) (cfg : RegisterConfig)
    → Asks print subject pattern target cfg (schedule_message print subject pattern target cfg)
unfolding schedule_message
schedule_message-Asks print subject pattern target cfg = record {
  on = refl;
  carries = refl;
  fires = simp (lookup-set_if, lookup-insert) (ground arith);
  hits = simp (lookup-set_if, lookup-insert) (ground arith);
  expires = simp (lookup-set_if, lookup-insert, lookup_empty) (ground arith);
  zoned = simp (lookup-set_if, lookup-insert, lookup_empty) (ground arith);
  sourced = simp (lookup-set_if, lookup-insert, lookup_empty) (ground arith);
  rolled = simp (lookup-set_if, lookup-insert, lookup_empty) (ground arith);
}

-- What `Register` asks of its arguments.
pub record Acceptable (subject pattern target : String) (cfg : RegisterConfig) : Type 0 where
  pub placed : subject ≢ ""
  pub patterned : pattern ≢ ""
  pub targeted : target ≢ ""
  pub expiring : cfg.ttl_set ≡ true → leb_ℤ cfg.ttl (pos 0) ≡ false

module _ {E : Type 0} (print : ℤ → String) (publish : Outgoing → Option E)
    (subject pattern target : String) (opts : List (RegisterConfig → RegisterConfig)) where
  abbrev cfg : RegisterConfig
  cfg = configure opts no_config

  abbrev registered : List Outgoing × Option (ImpError E)
  registered = register print publish subject pattern target opts

  -- Register either gets a subject, a pattern and a target that are not empty and no tick lifetime
  -- that is set and not positive, and then hands exactly one message to the server, on the subject,
  -- with the body and with every header that the options ask for and none of the others of the six,
  -- and reports an error exactly if the server does; or it reports an error and hands over nothing.
  pub register_lem :
      (Acceptable subject pattern target cfg
        × ((m : Outgoing) × (registered.0 ≡ m ∷ [])
            × Asks print subject pattern target cfg m
            × ((registered.1 ≡ none) ↔ (publish m ≡ none))))
      ⊎ (¬ Acceptable subject pattern target cfg × (registered.0 ≡ []) × (registered.1 ≢ none))
  unfolding register
  register_lem = elim (Bool-cases (subject == "")) [
    | inl q ↦ inr (λ a. a.placed ((eq_iff subject "").0 q), ground arith, ground arith)
    | inr placed ↦ elim (Bool-cases (pattern == "")) [
      | inl q ↦ inr (λ a. a.patterned ((eq_iff pattern "").0 q), ground arith, ground arith)
      | inr patterned ↦ elim (Bool-cases (target == "")) [
        | inl q ↦ inr (λ a. a.targeted ((eq_iff target "").0 q), ground arith, ground arith)
        | inr targeted ↦ elim (Bool-cases (cfg.ttl_set && leb_ℤ cfg.ttl (pos 0))) [
          | inl q ↦ inr (λ a. let fine = a.expiring in ground arith, ground arith, ground arith)
          | inr expiring ↦ inl (
            record {
              placed = λ q. ground (arith, eq_iff subject "");
              patterned = λ q. ground (arith, eq_iff pattern "");
              targeted = λ q. ground (arith, eq_iff target "");
              expiring = λ q. ground arith;
            },
            (
              schedule_message print subject pattern target cfg,
              ground arith,
              schedule_message-Asks print subject pattern target cfg,
              ((λ q. ground arith), (λ q. ground arith)),
            ),
          )
        ]
      ]
    ]
  ]
