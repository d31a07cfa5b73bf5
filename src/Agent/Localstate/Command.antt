-- ===== src/Agent/Localstate/Command.antt =====
-- internal/agent/localstate/journal.go: the phases, keys and rows of the journal, and the command
-- that a receipt carries.
use anti_nat_agent.Base.{
  ℕ, Bool, true, false, not, ◌&&◌, ◌||◌, Option, none, some, List, [], ◌∷◌, ◌++◌, length, ◌==◌,
  if◌then◌else◌, Bytes, bytes_eq, be, put_be, text,
}
use anti_nat_agent.Agent.Localstate.Storage.{
  ForwardDeletionLink, OperationJournal, ForwardDeleteIntent,
}

abbrev pub phase_received : Bytes
phase_received = text "RECEIVED"

abbrev pub phase_intent_persisted : Bytes
phase_intent_persisted = text "INTENT_PERSISTED"

abbrev pub phase_applying : Bytes
phase_applying = text "APPLYING"

abbrev pub phase_applied : Bytes
phase_applied = text "APPLIED"

abbrev pub phase_nacked : Bytes
phase_nacked = text "NACKED"

abbrev pub recovered_reason : Bytes
recovered_reason = text "recovered APPLYING operation after restart"

abbrev pub key_current_epoch : Bytes
key_current_epoch = text "current_epoch"

abbrev pub key_current_session : Bytes
key_current_session = text "current_session"

abbrev pub op_journal_key : Bytes → Bytes
op_journal_key operation = text "op:" ++ operation

unfoldable pub encode_epoch : ℕ → Bytes
encode_epoch epoch = put_be 8 epoch

-- A key that is not there has no bytes.
unfoldable pub decode_epoch : Bytes → ℕ
decode_epoch value = if length value == 8 then be value else 0

abbrev pub or_empty : Option Bytes → Bytes
or_empty none = []
or_empty (some v) = v

abbrev pub is_deletion_command_kind : Bytes → Bool
is_deletion_command_kind kind =
    bytes_eq kind (text "desired") || bytes_eq kind (text "forward_delete")

abbrev pub link_eq : ForwardDeletionLink → ForwardDeletionLink → Bool
link_eq a b =
    bytes_eq a.forward_id b.forward_id
    && bytes_eq a.deletion_operation_id b.deletion_operation_id
    && a.desired_revision == b.desired_revision

abbrev pub equal_forward_deletion_links : List ForwardDeletionLink → List ForwardDeletionLink → Bool
equal_forward_deletion_links [] [] = true
equal_forward_deletion_links (a ∷ as') (b ∷ bs) = link_eq a b && equal_forward_deletion_links as' bs
equal_forward_deletion_links _ _ = false

abbrev pub has_links : List ForwardDeletionLink → Bool
has_links [] = false
has_links (l ∷ ls) = true

-- What the classification reads of one Forward of a desired state.
pub record ForwardSpec : Type 0 where
  pub forward_id : Bytes
  pub deletion_operation_id : Bytes
  pub desired_revision : ℕ
  pub is_absent : Bool

unfoldable pub absent_links : List ForwardSpec → List ForwardDeletionLink
absent_links [] = []
absent_links (f ∷ fs) =
    let rest = absent_links fs in
    if f.is_absent
    then record {
      forward_id = f.forward_id;
      deletion_operation_id = f.deletion_operation_id;
      desired_revision = f.desired_revision;
    }
      ∷ rest
    else rest

-- `decoded` is what the strict decoder and Validate leave of the payload: none where one of them
-- refuses it. The result is none where the source's `ok` is false.
unfoldable pub classify_forward_deletions :
    (message_type : Bytes) (decoded : Option (List ForwardSpec)) → Option (List ForwardDeletionLink)
classify_forward_deletions message_type none = none
classify_forward_deletions message_type (some forwards) =
    if is_deletion_command_kind message_type then some (absent_links forwards) else none

abbrev pub or_no_links : Option (List ForwardDeletionLink) → List ForwardDeletionLink
or_no_links none = []
or_no_links (some links) = links

-- receiveCommandOutcome.
pub record Outcome : Type 0 where
  pub duplicate : Bool
  pub recovered_deletion_pending : Bool

pub record Command : Type 0 where
  pub operation_id : Bytes
  pub message_id : Bytes
  pub message_type : Bytes
  pub payload_hash : Bytes
  pub kind : Bytes
  pub payload : Bytes
  pub payload_present : Bool
  pub links : List ForwardDeletionLink

unfoldable pub intent_of : ℕ → ForwardDeletionLink → ForwardDeleteIntent
intent_of now l = record {
  forward_id = l.forward_id;
  deletion_operation_id = l.deletion_operation_id;
  desired_revision = l.desired_revision;
  created_at_unix = now;
}

-- The journal that an exact redelivery leaves: a row with no payload takes the command's.
unfoldable pub upgrade : Command → OperationJournal → OperationJournal
upgrade c j = if j.payload_present then j else record j {
  payload = c.payload;
  payload_present = true;
  forward_deletions = c.links;
  recovered_deletion_pending =
      (bytes_eq j.phase phase_applying
        || bytes_eq j.phase phase_nacked && bytes_eq j.reason recovered_reason)
      && has_links c.links;
}

unfoldable pub new_journal : Command → OperationJournal
new_journal c = record {
  kind = c.kind;
  message_id = c.message_id;
  phase = phase_received;
  reason = [];
  payload = c.payload;
  payload_present = c.payload_present;
  recovered_deletion_pending = false;
  forward_deletions = c.links;
}

abbrev pub other_material : Command → OperationJournal → Bool
other_material c j = not (bytes_eq j.kind c.kind) || not (bytes_eq j.message_id c.message_id)

abbrev pub duplicate_of : OperationJournal → Outcome
duplicate_of j = record {
  duplicate = true;
  recovered_deletion_pending = j.recovered_deletion_pending;
}
