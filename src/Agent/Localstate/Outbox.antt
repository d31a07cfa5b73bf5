-- ===== src/Agent/Localstate/Outbox.antt =====
-- internal/agent/localstate/journal.go and outbox.go: the outbox of semantic results, and the
-- durable receipt that ends an operation. A row is the phase, a zero byte and the payload.
use anti_nat_agent.Base.{
  ℕ, ◌+◌, Bool, false, not, Option, none, some, [], ◌∷◌, ◌++◌, ◌==◌, if◌then◌else◌, Bytes, bytes_eq,
  Map, Result, ok, err, ◌>>=◌, ◌>>◌, fail_if, text,
}
use anti_nat_agent.Agent.Localstate.Storage.{
  Error, stale_session, illegal_phase, already_receipted, stale_writer, operation_not_found,
  Storage, Db, put_row, OperationJournal,
}
use anti_nat_agent.Agent.Localstate.Fences.{receipt_key, is_some}
use anti_nat_agent.Agent.Localstate.Command.{op_journal_key, or_empty}
use anti_nat_agent.Agent.Localstate.Journal.{is_stale, load_operation_journal, has_receipt}

abbrev pub phase_pending : Bytes
phase_pending = text "PENDING"

abbrev pub phase_claimed : Bytes
phase_claimed = text "CLAIMED"

abbrev pub phase_sent : Bytes
phase_sent = text "SENT"

abbrev pub phase_semantic_acked : Bytes
phase_semantic_acked = text "SEMANTIC_ACKED"

-- With no zero byte the whole value is the state.
abbrev pub split_outbox_value : Bytes → Bytes × Bytes
split_outbox_value [] = ([], [])
split_outbox_value (b ∷ bs) =
    let rest = split_outbox_value bs in if b == 0 then ([], bs) else (b ∷ rest.0, rest.1)

abbrev pub row : Bytes → Bytes → Bytes
row phase payload = phase ++ 0 ∷ payload

abbrev pub conflicts : Option Bytes → Bytes → Bool
conflicts none result = false
conflicts (some existing) result = not (bytes_eq existing result)

-- The message identity that the journal names, if there is a journal.
abbrev pub message_of : Option OperationJournal → Bytes
message_of none = []
message_of (some j) = j.message_id

module _ (s : Storage) where
  -- The end of recordResultAndQueue, where no row is queued.
  abbrev pub queue_fresh : Bytes → Bytes → Db s → Result Error (Db s)
  queue_fresh operation result db = do
    fail_if (conflicts (s.get operation db.operations) result) stale_writer
    b ← put_row s operation result db.operations
    b' ← put_row s operation (row phase_pending result) db.outbox
    ok (record db { operations = b; outbox = b' })

  unfoldable pub record_result_and_queue : Bytes → Bytes → Db s → Result Error (Db s)
  record_result_and_queue operation result db = do
    fail_if (has_receipt s operation db) already_receipted
    if is_some (s.get operation db.outbox) then ok db else queue_fresh operation result db

  unfoldable pub queue_result : ℕ → Bytes → Bytes → Bytes → Db s → Result Error (Db s)
  queue_result epoch session operation result db = do
    fail_if (is_stale s epoch session db) stale_session
    record_result_and_queue operation result db

  unfoldable pub queue_result_session_independent : Bytes → Bytes → Db s → Result Error (Db s)
  queue_result_session_independent operation result db = do
    fail_if (bytes_eq operation []) operation_not_found
    record_result_and_queue operation result db

  -- The state and the payload of an operation's row; both are empty where there is none.
  abbrev pub outbox_row : Bytes → Db s → Bytes × Bytes
  outbox_row operation db = split_outbox_value (or_empty (s.get operation db.outbox))

  -- The body that ClaimOutbox, MarkOutboxSent and AcceptSemanticACK share.
  unfoldable pub advance_outbox : (from to : Bytes) → ℕ → Bytes → Bytes → Db s → Result Error (Db s)
  advance_outbox from to epoch session operation db = do
    fail_if (is_stale s epoch session db) stale_session
    fail_if (not (bytes_eq (outbox_row operation db).0 from)) illegal_phase
    b ← put_row s operation (row to (outbox_row operation db).1) db.outbox
    ok (record db { outbox = b })

  unfoldable pub claim_outbox : ℕ → Bytes → Bytes → Db s → Result Error (Db s)
  claim_outbox = advance_outbox phase_pending phase_claimed

  unfoldable pub mark_outbox_sent : ℕ → Bytes → Bytes → Db s → Result Error (Db s)
  mark_outbox_sent = advance_outbox phase_claimed phase_sent

  unfoldable pub accept_semantic_ack : ℕ → Bytes → Bytes → Db s → Result Error (Db s)
  accept_semantic_ack = advance_outbox phase_sent phase_semantic_acked

  -- What AcceptReceipt deletes, once the receipt is written.
  abbrev pub collect : Bytes → Bytes → s.Bucket → Db s → Db s
  collect operation message operations db = record db {
    outbox = s.unset operation db.outbox;
    operations = s.unset (op_journal_key operation) (s.unset operation operations);
    inbox = if bytes_eq message [] then db.inbox else s.unset message db.inbox;
  }

  unfoldable pub accept_receipt : ℕ → Bytes → Bytes → Db s → Result Error (Db s)
  accept_receipt epoch session operation db = do
    fail_if (is_stale s epoch session db) stale_session
    fail_if (has_receipt s operation db) already_receipted
    fail_if (not (bytes_eq (outbox_row operation db).0 phase_semantic_acked)) illegal_phase
    j ← load_operation_journal s operation db
    b ← put_row s (receipt_key operation) (outbox_row operation db).1 db.operations
    ok (collect operation (message_of j) b db)

  abbrev pub write_pending : Bytes → Bytes → Db s → Result Error (Db s × ℕ)
  write_pending k payload db = do
    b ← put_row s k (row phase_pending payload) db.outbox
    ok (record db { outbox = b }, 1)

  -- One visit of ForEach, and the visits in order with the count of the rows reset. The source
  -- writes to the bucket that it iterates over; the visits are those of the bucket at the start.
  abbrev pub requeue_row : Bytes → Bytes → Db s → Result Error (Db s × ℕ)
  requeue_row k value db =
      if bytes_eq (split_outbox_value value).0 phase_pending
      then ok (db, 0)
      else write_pending k (split_outbox_value value).1 db

  unfoldable pub requeue_rows : Map Bytes → ℕ → Db s → Result Error (Db s × ℕ)
  requeue_rows [] count db = ok (db, count)
  requeue_rows ((k, value) ∷ rest) count db = do
    (db', n) ← requeue_row k value db
    requeue_rows rest (count + n) db'

  unfoldable pub requeue_outbox_for_session : ℕ → Bytes → Db s → Result Error (Db s × ℕ)
  requeue_outbox_for_session epoch session db = do
    fail_if (is_stale s epoch session db) stale_session
    requeue_rows (s.rows db.outbox) 0 db

  unfoldable pub result_for_operation_any_session : Bytes → Db s → Result Error Bytes
  result_for_operation_any_session operation db = do
    fail_if (has_receipt s operation db) already_receipted
    elim (s.get operation db.operations) [ none ↦ err operation_not_found | some value ↦ ok value ]

  unfoldable pub result_for_operation : ℕ → Bytes → Bytes → Db s → Result Error Bytes
  result_for_operation epoch session operation db = do
    fail_if (is_stale s epoch session db) stale_session
    result_for_operation_any_session operation db

  -- The outbox phase, and whether there is a row.
  unfoldable pub outbox_state : Bytes → Db s → Bytes × Bool
  outbox_state operation db = ((outbox_row operation db).0, is_some (s.get operation db.outbox))
