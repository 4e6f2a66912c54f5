-- ===== src/Persist/Store.antt =====
-- persist/store.go and persist/codec.go: the durable tier. Every operation holds the store's lock,
-- so it is one step. The state type's zero value, the codec, `encoding/json` on the envelope, the
-- backend, the clock and `errors.Is` are parameters; times are nanoseconds.
pub mod View
pub mod Writes
pub mod Keys
pub mod Refine
pub mod Delete
pub mod Wake
pub mod History
use imps.Base.{
  ℕ, suc, String, ◌<>◌, ◌==◌, ℤ, pos, ◌-ℤ◌, leb_ℤ, Bool, Option, none, some, List, [], ◌∷◌, length,
  if◌then◌else◌,
}
use imps.Errors.{ImpError, passed, wrapped, Sentinel, persist_not_found}
use imps.Persist.Lru.{Entry, Residency, find, touch, write, drop, insert}

-- `type envelope`
pub record Envelope : Type 0 where
  pub state : List ℕ
  pub last_active : ℤ

-- `Codec[T]`: a result and an error, as in Go.
pub record Codec (T E : Type 0) : Type 0 where
  pub marshal : T → List ℕ × Option E
  pub unmarshal : List ℕ → T × Option E

-- `Backend`, over the state `B` of the substrate.
pub record Backend (B E : Type 0) : Type 0 where
  pub get : B → String → List ℕ × Option E
  pub put : B → String → List ℕ → B × Option E
  pub delete : B → String → B × Option E

-- What the store calls and does not implement; `codec` is `JSONCodec` until an option replaces it.
pub record World (T B E : Type 0) : Type 0 where
  pub zero : T
  pub codec : Codec T E
  pub json : Codec Envelope E
  pub backend : Backend B E
  pub is : E → Sentinel → Bool

pub record Store (T : Type 0) : Type 0 where
  pub name : String
  pub wake : Option (String → ℤ → T → T)
  pub residency : Residency T

-- `type config`, with its three options; `none` is the panic of `WithBound`.
pub record Config (T E : Type 0) : Type 0 where
  pub bound : ℤ
  pub wake : Option (String → ℤ → T → T)
  pub codec : Codec T E

unfoldable pub default_bound : ℤ
default_bound = pos 256

module _ {T E : Type 0} where
  unfoldable pub with_bound : ℤ → Option (Config T E → Config T E)
  with_bound n = if leb_ℤ n (pos 0) then none else some (λ c. record c { bound = n })

  unfoldable pub with_wake : (String → ℤ → T → T) → Config T E → Config T E
  with_wake fn c = record c { wake = some fn }

  unfoldable pub with_codec : Codec T E → Config T E → Config T E
  with_codec codec c = record c { codec = codec }

  apply_options : List (Config T E → Config T E) → Config T E → Config T E
  apply_options [] c = c
  apply_options (opt ∷ opts) c = apply_options opts (opt c)

-- `NewStore`, with the codec that the store calls from then on; `none` is the panic on an empty name.
unfoldable pub new_store :
    {T B E : Type 0}
    → World T B E
    → String
    → List (Config T E → Config T E)
    → Option (World T B E × Store T)
unfolding apply_options default_bound
new_store w name opts =
    let c = apply_options opts (record { bound = default_bound; wake = none; codec = w.codec }) in
    if name == ""
    then none
    else some (
      record w { codec = c.codec },
      record {
        name = name;
        wake = c.wake;
        residency = record {
          bound = c.bound;
          next = 0;
          entries = λ _. none;
          resident = [];
          lru = [];
        };
      },
    )

module _ {T : Type 0} where
  unfoldable pub key : Store T → String → String
  key s entity = (s.name <> ".") <> entity

  unfoldable pub resident_count : Store T → ℕ
  resident_count s = length s.residency.lru

-- What an operation returns: the store, a value and an error; `none` is a panic.
abbrev pub Result : Type 0 → Type 0 → Type 0 → Type 0
Result S A E = Option (S × A × Option (ImpError E))

module _ {T B E : Type 0} (w : World T B E) where
  -- The `default` branch of `getLocked`: decode the envelope, decode the state, run the wake hook.
  decode : ℤ → Store T → String → List ℕ → T × Option (ImpError E)
  decode now s entity raw =
      let (env, bad_env) = w.json.unmarshal raw in
      let (state, bad_state) = w.codec.unmarshal env.state in
      elim bad_env [
        | some e ↦ (w.zero, some (wrapped ("persist: decode envelope " <> entity) e))
        | none ↦ elim bad_state [
          | some e ↦ (state, some (wrapped ("persist: decode state " <> entity) e))
          | none ↦ elim s.wake [
            | none ↦ (state, none)
            | some wake ↦ (wake entity (now -ℤ env.last_active) state, none)
          ]
        ]
      ]

  -- The `switch` of `getLocked` on what the backend returned.
  unfoldable pub rehydrate : ℤ → Store T → B → String → T × Option (ImpError E)
  unfolding decode
  rehydrate now s b entity =
      let (raw, err) = w.backend.get b (key s entity) in
      elim err [
        | none ↦ decode now s entity raw
        | some e ↦ if w.is e persist_not_found then (w.zero, none) else (w.zero, some (passed e))
      ]

  -- `getLocked`, and `Get`.
  unfoldable pub get : ℤ → Store T → B → String → Result (Store T) T E
  get now s b entity = elim (find s.residency entity) [
    | some (a, x) ↦ some (record s { residency = touch s.residency a }, x.state, none)
    | none ↦
        let (state, err) = rehydrate now s b entity in
        elim err [
          | some e ↦ some (s, state, some e)
          | none ↦ elim (insert s.residency entity state) [
            | none ↦ none
            | some r ↦ some (record s { residency = r }, state, none)
          ]
        ]
  ]

  -- The write-through of `Update`: encode, encode the envelope, put.
  unfoldable pub write_through : ℤ → Store T → B → String → T → B × Option (ImpError E)
  write_through now s b entity next =
      let (raw, bad_state) = w.codec.marshal next in
      let (env, bad_env) = w.json.marshal (record { state = raw; last_active = now }) in
      let (b', failed) = w.backend.put b (key s entity) env in
      elim bad_state [
        | some e ↦ (b, some (wrapped ("persist: encode state " <> entity) e))
        | none ↦ elim bad_env [
          | some e ↦ (b, some (wrapped ("persist: encode envelope " <> entity) e))
          | none ↦ elim failed [ none ↦ (b', none) | some e ↦ (b', some (passed e)) ]
        ]
      ]

  -- The end of `Update`: reflect the durable state in residency.
  pub reflect : Residency T → String → T → Option (Residency T)
  reflect r entity next = elim (find r entity) [
    | some (a, _) ↦ some (touch (write r a next) a)
    | none ↦ insert r entity next
  ]

  -- `Update`, with the clock's readings for the wake and for the stamp.
  unfoldable pub update : ℤ → ℤ → Store T → B → String → (T → T) → Result (Store T × B) T E
  unfolding write_through reflect
  update now now' s b entity fn = elim (get now s b entity) [
    | none ↦ none
    | some (s', cur, some e) ↦ some ((s', b), cur, some e)
    | some (s', cur, none) ↦
        let (b', err) = write_through now' s' b entity (fn cur) in
        elim err [
          | some e ↦ some ((s', b'), fn cur, some e)
          | none ↦ elim (reflect s'.residency entity (fn cur)) [
            | none ↦ none
            | some r ↦ some ((record s' { residency = r }, b'), fn cur, none)
          ]
        ]
  ]

  -- `Delete`
  unfoldable pub delete : Store T → B → String → (Store T × B) × Option (ImpError E)
  delete s b entity =
      let (b', err) = w.backend.delete b (key s entity) in
      elim err [
        | some e ↦ ((s, b'), some (passed e))
        | none ↦ elim (find s.residency entity) [
          | none ↦ ((s, b'), none)
          | some (a, _) ↦ ((record s { residency = drop s.residency a entity }, b'), none)
        ]
      ]
