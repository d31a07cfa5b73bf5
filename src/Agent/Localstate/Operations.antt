-- ===== src/Agent/Localstate/Operations.antt =====
-- internal/agent/localstate/journal.go: the phases of an operation, from its intent to its result.
use anti_nat_agent.Base.{
  ℕ, Bool, true, false, not, ◌&&◌, ◌||◌, Option, none, some, List, [], ◌∷◌, drop, if◌then◌else◌,
  Bytes, bytes_eq, Map, Result, ok, err, ◌>>=◌, ◌>>◌, fail_if, text, has_prefix,
}
use anti_nat_agent.Agent.Localstate.Storage.{
  Error, stale_session, illegal_phase, Storage, Db, OperationJournal,
}
use anti_nat_agent.Agent.Localstate.Command.{
  phase_received, phase_intent_persisted, phase_applying, phase_applied, phase_nacked,
  recovered_reason, is_deletion_command_kind, has_links,
}
use anti_nat_agent.Agent.Localstate.Journal.{
  is_stale, load_operation_journal, put_operation_journal, put_links,
}
use anti_nat_agent.Agent.Localstate.Outbox.{record_result_and_queue}

module _ (s : Storage) where
  -- `!ok || j.Phase != want`
  abbrev pub in_phase : Bytes → Option OperationJournal → Result Error OperationJournal
  in_phase want none = err illegal_phase
  in_phase want (some j) = if bytes_eq j.phase want then ok j else err illegal_phase

  -- The first lines of the operations below: the session, the row and its phase.
  unfoldable pub journal_in :
      (want : Bytes) → ℕ → Bytes → Bytes → Db s → Result Error OperationJournal
  journal_in want epoch session operation db = do
    fail_if (is_stale s epoch session db) stale_session
    j ← load_operation_journal s operation db
    in_phase want j

  unfoldable pub persist_operation_intent : ℕ → Bytes → Bytes → Db s → Result Error (Db s)
  persist_operation_intent epoch session operation db = do
    j ← journal_in phase_received epoch session operation db
    put_operation_journal s operation (record j { phase = phase_intent_persisted }) db

  unfoldable pub mark_operation_applying : ℕ → Bytes → Bytes → Db s → Result Error (Db s)
  mark_operation_applying epoch session operation db = do
    j ← journal_in phase_intent_persisted epoch session operation db
    put_operation_journal s operation
        (record j {
          phase = phase_applying;
          recovered_deletion_pending =
              has_links j.forward_deletions || j.recovered_deletion_pending;
        })
        db

  unfoldable pub complete_operation : ℕ → Bytes → Bytes → Bytes → Db s → Result Error (Db s)
  complete_operation epoch session operation result db = do
    j ← journal_in phase_applying epoch session operation db
    db' ← put_operation_journal s operation (record j { phase = phase_applied }) db
    record_result_and_queue s operation result db'

  unfoldable pub nack_operation : ℕ → Bytes → Bytes → Bytes → Db s → Result Error (Db s)
  nack_operation epoch session operation reason db = do
    j ← journal_in phase_applying epoch session operation db
    put_operation_journal s operation (record j { phase = phase_nacked; reason = reason }) db

  unfoldable pub nack_operation_with_result :
      ℕ → Bytes → Bytes → Bytes → Bytes → Db s → Result Error (Db s)
  nack_operation_with_result epoch session operation reason result db = do
    j ← journal_in phase_applying epoch session operation db
    db' ← put_operation_journal s operation (record j { phase = phase_nacked; reason = reason }) db
    record_result_and_queue s operation result db'

  unfoldable pub queue_nacked_result : ℕ → Bytes → Bytes → Db s → Result Error (Db s)
  queue_nacked_result epoch session operation db = do
    j ← journal_in phase_nacked epoch session operation db
    record_result_and_queue s operation (s.encode_nack j.reason false) db

  abbrev pub in_recovery : Option OperationJournal → Result Error OperationJournal
  in_recovery none = err illegal_phase
  in_recovery (some j) =
      if (bytes_eq j.phase phase_applying || bytes_eq j.phase phase_nacked)
        && j.recovered_deletion_pending
      then ok j
      else err illegal_phase

  unfoldable pub complete_recovered_deletion : ℕ → Bytes → Bytes → Db s → Result Error (Db s)
  complete_recovered_deletion epoch session operation db = do
    fail_if (is_stale s epoch session db) stale_session
    found ← load_operation_journal s operation db
    j ← in_recovery found
    put_operation_journal s operation (record j { recovered_deletion_pending = false }) db

  -- The test of RecoverApplyingOperations' first loop.
  abbrev pub recovers : Option OperationJournal → Bool
  recovers none = false
  recovers (some j) =
      bytes_eq j.phase phase_applying
      && (not (is_deletion_command_kind j.kind) || j.payload_present)
      && not j.recovered_deletion_pending

  -- That loop: the identities, in the order of ForEach, of the journals that it recovers.
  unfoldable pub recovering : Map Bytes → Db s → Result Error (List Bytes)
  recovering [] db = ok []
  recovering ((k, _) ∷ ks) db =
      let rest = recovering ks db in
      if not (has_prefix (text "op:") k) then rest else do
        j ← load_operation_journal s (drop 3 k) db
        more ← rest
        ok (if recovers j then drop 3 k ∷ more else more)

  abbrev pub recover_found : ℕ → Bytes → Db s → Option OperationJournal → Result Error (Db s)
  recover_found now operation db none = ok db
  recover_found now operation db (some j) =
      if not (bytes_eq j.phase phase_applying) then ok db else do
        fenced ← put_links s now j.forward_deletions db
        nacked ←
            put_operation_journal s operation
              (record j { phase = phase_nacked; reason = recovered_reason }) fenced
        record_result_and_queue s operation (s.encode_nack recovered_reason true) nacked

  unfoldable pub recover_one : ℕ → Bytes → Db s → Result Error (Db s)
  recover_one now operation db = do
    j ← load_operation_journal s operation db
    recover_found now operation db j

  -- The second loop.
  unfoldable pub recover_all : ℕ → List Bytes → Db s → Result Error (Db s)
  recover_all now [] db = ok db
  recover_all now (o ∷ os) db = do db' ← recover_one now o db; recover_all now os db'

  unfoldable pub recover_applying_operations : ℕ → ℕ → Bytes → Db s → Result Error (Db s)
  recover_applying_operations now epoch session db = do
    fail_if (is_stale s epoch session db) stale_session
    os ← recovering (s.rows db.operations) db
    recover_all now os db

  abbrev pub phase_found : Option OperationJournal → Result Error (Option Bytes)
  phase_found none = ok none
  phase_found (some j) = ok (some j.phase)

  unfoldable pub operation_phase : Bytes → Db s → Result Error (Option Bytes)
  operation_phase operation db = do j ← load_operation_journal s operation db; phase_found j
