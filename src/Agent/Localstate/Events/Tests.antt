-- ===== src/Agent/Localstate/Events/Tests.antt =====
-- Runs of the journal of internal/agent/localstate/journal.go, and the theorems at them.
use anti_nat_agent.Base.{◌≡◌, refl, true, false, some, List, [], ◌∷◌, ◌++◌, text, ok, err}
use anti_nat_agent.Agent.Localstate.Storage.{Error, Db, put_row}
use anti_nat_agent.Agent.Localstate.Command.{Command, encode_epoch, decode_epoch, new_journal}
use anti_nat_agent.Agent.Localstate.Journal.{
  current_epoch, current_session, advance_session, is_stale, load_operation_journal,
  put_operation_journal, has_receipt, put_links, receive_command_tx, deliver, redeliver,
}
use anti_nat_agent.Agent.Localstate.Outbox.{
  accept_receipt, row, outbox_row, split_outbox_value, advance_outbox, claim_outbox,
  mark_outbox_sent, accept_semantic_ack, record_result_and_queue, outbox_state,
}
use anti_nat_agent.Agent.Localstate.Operations.{
  journal_in, persist_operation_intent, mark_operation_applying, complete_operation,
  operation_phase,
}
use anti_nat_agent.Agent.Localstate.Slots.{slot, Reach}
use anti_nat_agent.Agent.Localstate.Slots.Writes.{IsKeyed}
use anti_nat_agent.Agent.Localstate.Events.{
  Event, Call, advance, call, receive, persist_intent, mark_applying, complete, claim, mark_sent,
  accept_ack, requeue, recover, apply_call, apply, step, run,
}
use anti_nat_agent.Agent.Localstate.Events.Refined.{run-Reach, run-Keeps}
use anti_nat_agent.Agent.Localstate.Events.Settled.{IsSettled, accept_receipt-run}
use anti_nat_agent.Agent.Localstate.Events.Once.{mark_operation_applying-run}
use anti_nat_agent.Agent.Localstate.Events.Delivered.{Carries, run-Carries}
use anti_nat_agent.Agent.Localstate.Memory.{memory, empty_db}

abbrev command : Command
command = record {
  operation_id = text "op-1";
  message_id = text "m-1";
  message_type = text "probe";
  payload_hash = text "h";
  kind = text "probe";
  payload = [];
  payload_present = false;
  links = [];
}

abbrev in_session : Call → Event
in_session c = call 1 (text "s-1") c

-- The life of one operation, up to the start of its side effect.
abbrev started : List Event
started =
    advance 1 (text "s-1")
    ∷ in_session (receive 5 command)
    ∷ in_session (persist_intent (text "op-1"))
    ∷ in_session (mark_applying (text "op-1"))
    ∷ []

-- The rest of it, with a second delivery and a new start of the session on the way.
abbrev delivered : List Event
delivered =
    in_session (complete (text "op-1") (7 ∷ []))
    ∷ in_session (receive 6 command)
    ∷ in_session (claim (text "op-1"))
    ∷ in_session (mark_sent (text "op-1"))
    ∷ in_session (accept_ack (text "op-1"))
    ∷ []

IsKeyed-empty : IsKeyed memory empty_db
IsKeyed-empty id h = refl

-- The store before the side effect starts, when it has started, and when the result is out.
before : Db memory
before =
    run memory
      (advance 1 (text "s-1")
        ∷ in_session (receive 5 command)
        ∷ in_session (persist_intent (text "op-1"))
        ∷ [])
      empty_db

running : Db memory
running = run memory started empty_db

acknowledged : Db memory
acknowledged = run memory (started ++ delivered) empty_db

-- A store with one row that the Controller has acknowledged, and the store after its receipt.
abbrev acked_db : Db memory
acked_db = record empty_db {
  epochs =
      (text "current_epoch", 0 ∷ 0 ∷ 0 ∷ 0 ∷ 0 ∷ 0 ∷ 0 ∷ 1 ∷ [])
      ∷ (text "current_session", text "s-1")
      ∷ [];
  outbox = (text "op-1", row (text "SEMANTIC_ACKED") (7 ∷ [])) ∷ [];
  operations = (text "op-1", 7 ∷ []) ∷ [];
}

abbrev receipted : Db memory
receipted = record acked_db { outbox = []; operations = (text "receipt:op-1", 7 ∷ []) ∷ [] }

running_phase : operation_phase memory (text "op-1") running ≡ ok (some (text "APPLYING"))
unfolding running operation_phase run step apply apply_call advance_session receive_command_tx
    deliver redeliver put_operation_journal put_row put_links persist_operation_intent
    mark_operation_applying complete_operation record_result_and_queue journal_in
    load_operation_journal is_stale current_epoch current_session has_receipt encode_epoch
    decode_epoch new_journal claim_outbox mark_outbox_sent accept_semantic_ack advance_outbox
    accept_receipt
running_phase = refl

acknowledged_state : outbox_state memory (text "op-1") acknowledged ≡ (text "SEMANTIC_ACKED", true)
unfolding acknowledged outbox_state run step apply apply_call advance_session receive_command_tx
    deliver redeliver put_operation_journal put_row put_links persist_operation_intent
    mark_operation_applying complete_operation record_result_and_queue journal_in
    load_operation_journal is_stale current_epoch current_session has_receipt encode_epoch
    decode_epoch new_journal claim_outbox mark_outbox_sent accept_semantic_ack advance_outbox
    accept_receipt
acknowledged_state = refl

run-Reach_example :
    Reach memory
      (slot memory (text "op-1") empty_db)
      (slot memory (text "op-1") (run memory started empty_db))
run-Reach_example =
    run-Reach memory (text "op-1") started empty_db refl (refl, (refl, (refl, (refl, tt))))
      IsKeyed-empty

running-IsKeyed : IsKeyed memory running
unfolding running
running-IsKeyed =
    (run-Keeps memory (text "op-1") refl started empty_db (refl, (refl, (refl, (refl, tt))))
        IsKeyed-empty).0
      IsKeyed-empty

receipted-IsKeyed : IsKeyed memory receipted
receipted-IsKeyed id h = refl

started_at : mark_operation_applying memory 1 (text "s-1") (text "op-1") before ≡ ok running
unfolding before running run step apply apply_call advance_session receive_command_tx deliver
    redeliver put_operation_journal put_row put_links persist_operation_intent
    mark_operation_applying complete_operation record_result_and_queue journal_in
    load_operation_journal is_stale current_epoch current_session has_receipt encode_epoch
    decode_epoch new_journal claim_outbox mark_outbox_sent accept_semantic_ack advance_outbox
    accept_receipt
started_at = refl

receipted_at : accept_receipt memory 1 (text "s-1") (text "op-1") acked_db ≡ ok receipted
unfolding accept_receipt is_stale has_receipt current_epoch current_session decode_epoch put_row
    load_operation_journal
receipted_at = refl

-- A new session delivers the command again and asks for a new start.
abbrev again : List Event
again =
    advance 2 (text "s-2")
    ∷ call 2 (text "s-2") (recover 9)
    ∷ call 2 (text "s-2") (receive 9 command)
    ∷ call 2 (text "s-2") requeue
    ∷ []

mark_operation_applying-run_example :
    (e : Error) × (mark_operation_applying memory 2
        (text "s-2")
        (text "op-1")
        (run memory again running)
      ≡ err e)
mark_operation_applying-run_example =
    mark_operation_applying-run memory 1 2 (text "s-1") (text "s-2") (text "op-1") again before
      running refl (refl, (refl, (refl, (refl, tt)))) running-IsKeyed started_at

accept_receipt-run_example :
    IsSettled
      (outbox_row memory (text "op-1") acked_db).1
      (slot memory (text "op-1") (run memory again receipted))
accept_receipt-run_example =
    accept_receipt-run memory 1 (text "s-1") (text "op-1") again acked_db receipted refl
      (refl, (refl, (refl, (refl, tt)))) receipted-IsKeyed receipted_at

acked-IsKeyed : IsKeyed memory acked_db
acked-IsKeyed id h = refl

run-Carries_example :
    Carries memory
      (split_outbox_value (row (text "SEMANTIC_ACKED") (7 ∷ []))).1
      (slot memory (text "op-1") (run memory again acked_db))
run-Carries_example =
    run-Carries memory (text "op-1") (row (text "SEMANTIC_ACKED") (7 ∷ [])) again acked_db refl
      (refl, (refl, (refl, (refl, tt)))) acked-IsKeyed refl
