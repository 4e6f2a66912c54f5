-- ===== src/Soulstream/Bridge.antt =====
-- soulstream/notebridge.go and soulstream/participant.go: a note of awareness becomes a comment on the
-- topic. JetStream, the soulstream client `C` and the posting of a comment are parameters; `S` is the
-- type of signing keys, `P` that of the other payloads, and `H` what the two callbacks can change.
pub mod Posts
use imps.Base.{
  ℕ, String, ◌<>◌, ◌==◌, Bool, true, false, Option, none, some, List, [], ◌∷◌, ◌++◌, if◌then◌else◌,
}
use imps.Errors.{ImpError, passed, message, wrapped}
use imps.Request.{configure}

-- `type participantConfig`
pub record ParticipantConfig (S : Type 0) : Type 0 where
  pub signer : Option S

-- `WithSigner`
unfoldable pub with_signer : {S : Type 0} → Option S → ParticipantConfig S → ParticipantConfig S
with_signer key c = record c { signer = key }

-- `type Participant`
pub record Participant (C : Type 0) : Type 0 where
  pub client : C

-- What `NewParticipant` calls: `jetstream.New`, `AccountInfo` and `realm.NewClient`.
pub record Joining (S C E : Type 0) : Type 0 where
  pub new_jet_stream : Option E
  pub account_info : Option E
  pub new_client : String → String → Option S → C × Option E

-- `NewParticipant`, with whether the soulstream library was given the connection.
unfoldable pub new_participant :
    {S C E : Type 0}
    → Joining S C E
    → String
    → String
    → List (ParticipantConfig S → ParticipantConfig S)
    → Bool × Option (Participant C) × Option (ImpError E)
unfolding configure
new_participant j realm_name persona opts =
    let cfg = configure opts (record { signer = none }) in
    let (client, bad) = j.new_client realm_name persona cfg.signer in
    elim j.new_jet_stream [
      | some e ↦ (false, none, some (wrapped "soulstream: initialise jetstream" e))
      | none ↦ elim j.account_info [
        | some e ↦ (false, none, some (wrapped "soulstream: jetstream unavailable" e))
        | none ↦ elim bad [
          | some e ↦ (true, none, some (wrapped "soulstream: realm client" e))
          | none ↦ (true, some (record { client = client }), none)
        ]
      ]
    ]

-- `Topic` and `StartTopic`, over `topic.Open` and `topic.StartTopic`; `T` is the type of handles and
-- `I` that of the input.
unfoldable pub topic : {C T : Type 0} → (C → String → T) → Participant C → String → T
topic open_topic p path = open_topic p.client path

unfoldable pub start_topic :
    {C T I E : Type 0} → (C → I → T × Option E) → Participant C → I → T × Option E
start_topic start p input = start p.client input

-- `type Noted struct`
pub record Noted : Type 0 where
  pub anchor_op : String
  pub body : String

-- The payload of a note, by its dynamic type.
pub data Payload (P : Type 0) : Type 0 where
  noted : Noted → Payload P
  plain : P → Payload P

-- A comment: the topic, the body and the operation that it is anchored to.
pub record Comment : Type 0 where
  pub path : String
  pub body : String
  pub anchor : String

module _ {C P H E : Type 0} (add_comment : C → Comment → Option E)
    (next : Option (String → Payload P → H → H))
    (on_error : Option (String → Noted → ImpError E → H → H)) where
  -- The closure `fail`.
  unfoldable pub fail : String → Noted → ImpError E → H → H
  fail entity n err h = elim on_error [ none ↦ h | some f ↦ f entity n err h ]

  -- The hook that `NoteBridge` returns, with the comments that it posts.
  unfoldable pub bridge : Participant C → String → Payload P → H → List Comment × H
  unfolding fail
  bridge p entity (plain x) h = elim next [ none ↦ ([], h) | some f ↦ ([], f entity (plain x) h) ]
  bridge p entity (noted n) h =
      let comment : Comment = record { path = entity; body = n.body; anchor = n.anchor_op } in
      if n.anchor_op == ""
      then ([], fail entity n (message "soulstream: Noted.AnchorOp is required") h)
      else if n.body == ""
      then ([], fail entity n (message "soulstream: Noted.Body is required") h)
      else if entity == ""
      then ([], fail entity n (message "soulstream: note entity is empty — not a topic path") h)
      else elim (add_comment p.client comment) [
        | some e ↦ (comment ∷ [], fail entity n (passed e) h)
        | none ↦ (comment ∷ [], h)
      ]

  -- `NoteBridge`; `none` is the panic on a nil participant.
  unfoldable pub note_bridge :
      Option (Participant C) → Option (String → Payload P → H → List Comment × H)
  note_bridge none = none
  note_bridge (some p) = some (bridge p)
