-- ===== src/Agent/Localstate/Events.antt =====
-- internal/agent/localstate/journal.go: the calls of the journal as events, each one transaction.
pub mod Refined
pub mod Settled
pub mod Delivered
pub mod Once
mod Tests
use anti_nat_agent.Base.{ℕ, Bool, true, List, [], ◌∷◌, Bytes, Result, ok, err, panic}
use anti_nat_agent.Agent.Localstate.Storage.{Error, Storage, Db, commit}
use anti_nat_agent.Agent.Localstate.Command.{Command}
use anti_nat_agent.Agent.Localstate.Journal.{advance_session, receive_command_tx}
use anti_nat_agent.Agent.Localstate.Outbox.{
  queue_result, queue_result_session_independent, claim_outbox, mark_outbox_sent,
  accept_semantic_ack, accept_receipt, requeue_outbox_for_session,
}
use anti_nat_agent.Agent.Localstate.Operations.{
  persist_operation_intent, mark_operation_applying, complete_operation, nack_operation,
  nack_operation_with_result, queue_nacked_result, complete_recovered_deletion,
  recover_applying_operations,
}
use anti_nat_agent.Agent.Localstate.Slots.{is_plain}

-- A call that is made in a session, by the method that it calls.
pub data Call : Type 0 where
  receive : (now : ℕ) (command : Command) → Call
  persist_intent mark_applying complete_deletion queue_nacked : (operation : Bytes) → Call
  claim mark_sent accept_ack take_receipt : (operation : Bytes) → Call
  complete queue : (operation result : Bytes) → Call
  nack : (operation reason : Bytes) → Call
  nack_with_result : (operation reason result : Bytes) → Call
  recover : (now : ℕ) → Call
  requeue : Call

pub data Event : Type 0 where
  advance : (epoch : ℕ) (session : Bytes) → Event
  call : (epoch : ℕ) (session : Bytes) (c : Call) → Event
  queue_independent : (operation result : Bytes) → Event

abbrev pub forget : {A B : Type 0} → Result Error (A × B) → Result Error A
forget (ok (a, b)) = ok a
forget (err e) = err e
forget panic = panic

-- The identities that the event names have no reserved prefix.
abbrev pub is_plain_call : Call → Bool
is_plain_call (receive now c) = is_plain c.operation_id
is_plain_call (persist_intent o) = is_plain o
is_plain_call (mark_applying o) = is_plain o
is_plain_call (complete_deletion o) = is_plain o
is_plain_call (queue_nacked o) = is_plain o
is_plain_call (claim o) = is_plain o
is_plain_call (mark_sent o) = is_plain o
is_plain_call (accept_ack o) = is_plain o
is_plain_call (take_receipt o) = is_plain o
is_plain_call (complete o result) = is_plain o
is_plain_call (queue o result) = is_plain o
is_plain_call (nack o reason) = is_plain o
is_plain_call (nack_with_result o reason result) = is_plain o
is_plain_call (recover now) = true
is_plain_call requeue = true

abbrev pub is_plain_event : Event → Bool
is_plain_event (advance epoch session) = true
is_plain_event (call epoch session c) = is_plain_call c
is_plain_event (queue_independent o result) = is_plain o

module _ (s : Storage) where
  pub apply_call : ℕ → Bytes → Call → Db s → Result Error (Db s)
  apply_call epoch session (receive now c) db = forget (receive_command_tx s now epoch session c db)
  apply_call epoch session (persist_intent o) db = persist_operation_intent s epoch session o db
  apply_call epoch session (mark_applying o) db = mark_operation_applying s epoch session o db
  apply_call epoch session (complete_deletion o) db =
      complete_recovered_deletion s epoch session o db
  apply_call epoch session (queue_nacked o) db = queue_nacked_result s epoch session o db
  apply_call epoch session (claim o) db = claim_outbox s epoch session o db
  apply_call epoch session (mark_sent o) db = mark_outbox_sent s epoch session o db
  apply_call epoch session (accept_ack o) db = accept_semantic_ack s epoch session o db
  apply_call epoch session (take_receipt o) db = accept_receipt s epoch session o db
  apply_call epoch session (complete o result) db = complete_operation s epoch session o result db
  apply_call epoch session (queue o result) db = queue_result s epoch session o result db
  apply_call epoch session (nack o reason) db = nack_operation s epoch session o reason db
  apply_call epoch session (nack_with_result o reason result) db =
      nack_operation_with_result s epoch session o reason result db
  apply_call epoch session (recover now) db = recover_applying_operations s now epoch session db
  apply_call epoch session requeue db = forget (requeue_outbox_for_session s epoch session db)

  pub apply : Event → Db s → Result Error (Db s)
  unfolding apply_call
  apply (advance epoch session) db = advance_session s epoch session db
  apply (call epoch session c) db = apply_call epoch session c db
  apply (queue_independent o result) db = queue_result_session_independent s o result db

  pub step : Event → Db s → Db s
  unfolding apply
  step e db = commit s db (apply e db)

  pub run : List Event → Db s → Db s
  unfolding step
  run [] db = db
  run (e ∷ es) db = run es (step e db)
