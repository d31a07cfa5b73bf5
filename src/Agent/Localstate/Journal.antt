-- ===== src/Agent/Localstate/Journal.antt =====
-- internal/agent/localstate/journal.go: the accepted session, the receipt of a command, and the
-- phases of its operation. Each operation is one transaction: an error leaves the store as it was.
use anti_nat_agent.Base.{
  ℕ, Bool, false, not, ◌&&◌, ◌||◌, Option, none, some, List, [], ◌∷◌, ltb, ◌==◌, if◌then◌else◌,
  Bytes, bytes_eq, Result, ok, err, panic, ◌>>=◌, ◌>>◌, fail_if,
}
use anti_nat_agent.Agent.Localstate.Storage.{
  Error, stale_session, message_conflict, already_receipted, operation_conflict, bad_row,
  delete_conflict, Storage, Db, put_row, InboxEntry, ForwardDeletionLink, OperationJournal,
}
use anti_nat_agent.Agent.Localstate.Fences.{receipt_key, put_intent_tx, is_some}
use anti_nat_agent.Agent.Localstate.Command.{
  key_current_epoch, key_current_session, op_journal_key, encode_epoch, decode_epoch, or_empty,
  is_deletion_command_kind, equal_forward_deletion_links, has_links, ForwardSpec,
  classify_forward_deletions, or_no_links, Outcome, Command, intent_of, upgrade, new_journal,
  other_material, duplicate_of,
}

module _ (s : Storage) where
  unfoldable pub current_epoch : Db s → ℕ
  current_epoch db = decode_epoch (or_empty (s.get key_current_epoch db.epochs))

  unfoldable pub current_session : Db s → Bytes
  current_session db = or_empty (s.get key_current_session db.epochs)

  unfoldable pub advance_session : ℕ → Bytes → Db s → Result Error (Db s)
  advance_session epoch session db =
      let now = current_epoch db in
      let held = current_session db in
      if ltb epoch now || epoch == now && not (bytes_eq held []) && not (bytes_eq held session)
      then err stale_session
      else if epoch == now && bytes_eq held session
      then ok db
      else do
        b ← put_row s key_current_epoch (encode_epoch epoch) db.epochs
        b' ← put_row s key_current_session session b
        ok (record db { epochs = b' })

  -- checkSession's error condition.
  unfoldable pub is_stale : ℕ → Bytes → Db s → Bool
  is_stale epoch session db =
      not (current_epoch db == epoch) || not (bytes_eq (current_session db) session)

  abbrev pub decoded_journal : Option OperationJournal → Result Error (Option OperationJournal)
  decoded_journal none = err bad_row
  decoded_journal (some j) = ok (some j)

  unfoldable pub load_operation_journal : Bytes → Db s → Result Error (Option OperationJournal)
  load_operation_journal operation db = elim (s.get (op_journal_key operation) db.operations) [
    | none ↦ ok none
    | some raw ↦ decoded_journal (s.decode_journal raw)
  ]

  unfoldable pub put_operation_journal : Bytes → OperationJournal → Db s → Result Error (Db s)
  put_operation_journal operation j db = do
    b ← put_row s (op_journal_key operation) (s.encode_journal j) db.operations
    ok (record db { operations = b })

  unfoldable pub has_receipt : Bytes → Db s → Bool
  has_receipt operation db = is_some (s.get (receipt_key operation) db.operations)

  -- A conflict keeps the fence that is there.
  abbrev pub tolerate : Db s → Result Error (Db s × Bool) → Result Error (Db s)
  tolerate db (ok (db', _)) = ok db'
  tolerate db (err delete_conflict) = ok db
  tolerate db (err e) = err e
  tolerate db panic = panic

  unfoldable pub put_links : ℕ → List ForwardDeletionLink → Db s → Result Error (Db s)
  put_links now [] db = ok db
  put_links now (l ∷ ls) db = do
    db' ← tolerate db (put_intent_tx s (intent_of now l) db)
    put_links now ls db'

  -- The part of a redelivery under `if payloadPresent`.
  unfoldable pub redeliver_payload :
      ℕ → Command → OperationJournal → Db s → Result Error (Db s × Outcome)
  redeliver_payload now c j db = do
    fail_if (j.payload_present && not (bytes_eq j.payload c.payload)) operation_conflict
    fail_if
        (has_links j.forward_deletions
          && not (equal_forward_deletion_links j.forward_deletions c.links))
        operation_conflict
    db' ← put_links now c.links db
    db'' ← put_operation_journal c.operation_id (upgrade c j) db'
    ok (db'', duplicate_of (upgrade c j))

  abbrev pub redeliver_journal :
      ℕ → Command → Db s → Option OperationJournal → Result Error (Db s × Outcome)
  redeliver_journal now c db none = err operation_conflict
  redeliver_journal now c db (some j) = do
    fail_if (other_material c j) operation_conflict
    if c.payload_present then redeliver_payload now c j db else ok (db, duplicate_of j)

  -- A message whose identity is in the inbox.
  unfoldable pub redeliver : ℕ → Command → Option InboxEntry → Db s → Result Error (Db s × Outcome)
  redeliver now c none db = err bad_row
  redeliver now c (some e) db = do
    fail_if
        (not (bytes_eq e.message_type c.message_type)
          || not (bytes_eq e.payload_hash c.payload_hash))
        message_conflict
    fail_if (not (bytes_eq e.operation_id c.operation_id)) operation_conflict
    j ← load_operation_journal c.operation_id db
    redeliver_journal now c db j

  abbrev pub first_delivery :
      ℕ → Command → Db s → Option OperationJournal → Result Error (Db s × Outcome)
  first_delivery now c db (some j) = do
    fail_if (other_material c j) operation_conflict
    ok (db, duplicate_of j)
  first_delivery now c db none =
      let entry : InboxEntry = record {
        message_type = c.message_type;
        payload_hash = c.payload_hash;
        operation_id = c.operation_id;
      } in
      do
        b ← put_row s c.message_id (s.encode_inbox entry) db.inbox
        db' ← put_operation_journal c.operation_id (new_journal c) (record db { inbox = b })
        db'' ← put_links now c.links db'
        ok (db'', record { duplicate = false; recovered_deletion_pending = false })

  unfoldable pub deliver : ℕ → Command → Db s → Result Error (Db s × Outcome)
  deliver now c db = do j ← load_operation_journal c.operation_id db; first_delivery now c db j

  unfoldable pub receive_command_tx : ℕ → ℕ → Bytes → Command → Db s → Result Error (Db s × Outcome)
  receive_command_tx now epoch session c db = do
    fail_if (is_stale epoch session db) stale_session
    fail_if (has_receipt c.operation_id db) already_receipted
    elim (s.get c.message_id db.inbox) [
      | some raw ↦ redeliver now c (s.decode_inbox raw) db
      | none ↦ deliver now c db
    ]

  unfoldable pub receive_command :
      (now epoch : ℕ) (session operation message message_type payload_hash kind : Bytes)
      → Db s
      → Result Error (Db s × Outcome)
  receive_command now epoch session operation message message_type payload_hash kind db =
      receive_command_tx now epoch session
        (record {
          operation_id = operation;
          message_id = message;
          message_type = message_type;
          payload_hash = payload_hash;
          kind = kind;
          payload = [];
          payload_present = false;
          links = [];
        })
        db

  -- `hash` is the digest in hexadecimal, and `decode` the strict decoder with its validation.
  unfoldable pub receive_command_with_payload_status :
      (hash : Bytes → Bytes) (decode : Bytes → Option (List ForwardSpec)) (now epoch : ℕ)
      (session operation message message_type payload kind : Bytes)
      → Db s
      → Result Error (Db s × Outcome)
  receive_command_with_payload_status hash decode now epoch session operation message message_type
        payload kind db =
      let present = is_deletion_command_kind message_type in
      receive_command_tx now epoch session
        (record {
          operation_id = operation;
          message_id = message;
          message_type = message_type;
          payload_hash = hash payload;
          kind = kind;
          payload = if present then payload else [];
          payload_present = present;
          links = or_no_links (classify_forward_deletions message_type (decode payload));
        })
        db
