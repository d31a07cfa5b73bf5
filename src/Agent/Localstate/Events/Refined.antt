-- ===== src/Agent/Localstate/Events/Refined.antt =====
-- The journal refines the moves of one operation's rows.
use anti_nat_agent.Base.{
  ℕ, ◌≡◌, refl, true, List, [], ◌∷◌, arith, Bytes, All, Result, ok, err, panic,
}
use anti_nat_agent.Agent.Localstate.Storage.{Error, Storage, Db, commit, put_row}
use anti_nat_agent.Agent.Localstate.Journal.{advance_session, receive_command_tx}
use anti_nat_agent.Agent.Localstate.Outbox.{requeue_outbox_for_session}
use anti_nat_agent.Agent.Localstate.Slots.{is_plain, slot, Reach}
use anti_nat_agent.Agent.Localstate.Slots.Writes.{IsKeyed}
use anti_nat_agent.Agent.Localstate.Slots.Keeps.{Keeps, Keeps-refl, Keeps-trans}
use anti_nat_agent.Agent.Localstate.Slots.Refines.{
  SameRows, SameRows-Keeps, persist_operation_intent-Keeps, mark_operation_applying-Keeps,
  nack_operation-Keeps, complete_operation-Keeps, nack_operation_with_result-Keeps,
  queue_nacked_result-Keeps, complete_recovered_deletion-Keeps,
}
use anti_nat_agent.Agent.Localstate.Slots.Deliveries.{
  queue_result-Keeps, queue_result_session_independent-Keeps, claim_outbox-Keeps,
  mark_outbox_sent-Keeps, accept_semantic_ack-Keeps, accept_receipt-Keeps,
}
use anti_nat_agent.Agent.Localstate.Slots.Requeued.{requeue_outbox_for_session-Keeps}
use anti_nat_agent.Agent.Localstate.Slots.Received.{
  receive_command_tx-Keeps, recover_applying_operations-Keeps,
}
use anti_nat_agent.Agent.Localstate.Events.{
  Call, receive, persist_intent, mark_applying, complete_deletion, queue_nacked, claim, mark_sent,
  accept_ack, take_receipt, complete, queue, nack, nack_with_result, recover, requeue, Event,
  advance, call, queue_independent, forget, is_plain_call, is_plain_event, apply_call, apply, step,
  run,
}

-- No event of the list names an operation with a reserved prefix.
abbrev pub ArePlain : List Event → Type 0
ArePlain = All (λ e. is_plain_event e ≡ true)

module _ (s : Storage) where
  advance_session-SameRows :
      (epoch : ℕ) (session : Bytes) (db db' : Db s)
      → advance_session s epoch session db ≡ ok db'
      → SameRows s db db'
  unfolding advance_session put_row
  advance_session-SameRows epoch session db db' h = ground arith

  forgotten :
      {B : Type 0} (r : Result Error (Db s × B)) (db : Db s)
      → forget r ≡ ok db
      → (b : B) × (r ≡ ok (db, b))
  forgotten (ok (d, b)) db h = (b, cc)
  forgotten (err e) db h = cc
  forgotten panic db h = cc

  module _ (o : Bytes) (op : is_plain o ≡ true) where
    call-Keeps :
        (epoch : ℕ) (session : Bytes) (c : Call) (db db' : Db s)
        → is_plain_call c ≡ true
        → IsKeyed s db
        → apply_call s epoch session c db ≡ ok db'
        → Keeps s o db db'
    unfolding apply_call
    call-Keeps e n (receive now c) db db' p k h =
        let (r, h') = forgotten (receive_command_tx s now e n c db) db' h in
        receive_command_tx-Keeps s o op c p now e n db db' r h'
    call-Keeps e n (persist_intent i) db db' p k h =
        persist_operation_intent-Keeps s o i op p e n db db' h
    call-Keeps e n (mark_applying i) db db' p k h =
        mark_operation_applying-Keeps s o i op p e n db db' h
    call-Keeps e n (complete_deletion i) db db' p k h =
        complete_recovered_deletion-Keeps s o i op p e n db db' h
    call-Keeps e n (queue_nacked i) db db' p k h = queue_nacked_result-Keeps s o i op p e n db db' h
    call-Keeps e n (claim i) db db' p k h = claim_outbox-Keeps s o i op p e n db db' h
    call-Keeps e n (mark_sent i) db db' p k h = mark_outbox_sent-Keeps s o i op p e n db db' h
    call-Keeps e n (accept_ack i) db db' p k h = accept_semantic_ack-Keeps s o i op p e n db db' h
    call-Keeps e n (take_receipt i) db db' p k h = accept_receipt-Keeps s o i op p e n db db' h
    call-Keeps e n (complete i r) db db' p k h = complete_operation-Keeps s o i op p e n r db db' h
    call-Keeps e n (queue i r) db db' p k h = queue_result-Keeps s o i op p e n r db db' h
    call-Keeps e n (nack i r) db db' p k h = nack_operation-Keeps s o i op p e n r db db' h
    call-Keeps e n (nack_with_result i r q) db db' p k h =
        nack_operation_with_result-Keeps s o i op p e n r q db db' h
    call-Keeps e n (recover now) db db' p k h =
        recover_applying_operations-Keeps s o op now e n db db' k h
    call-Keeps e n requeue db db' p k h =
        let (m, h') = forgotten (requeue_outbox_for_session s e n db) db' h in
        requeue_outbox_for_session-Keeps s o e n m db db' op h'

    apply-Keeps :
        (e : Event) (db db' : Db s)
        → is_plain_event e ≡ true
        → IsKeyed s db
        → apply s e db ≡ ok db'
        → Keeps s o db db'
    unfolding apply
    apply-Keeps (advance epoch session) db db' p k h =
        SameRows-Keeps s o db db' (advance_session-SameRows epoch session db db' h)
    apply-Keeps (call epoch session c) db db' p k h = call-Keeps epoch session c db db' p k h
    apply-Keeps (queue_independent i r) db db' p k h =
        queue_result_session_independent-Keeps s o i op p r db db' h

    committed-Keeps :
        (db : Db s) (r : Result Error (Db s))
        → ((db' : Db s) → r ≡ ok db' → Keeps s o db db')
        → Keeps s o db (commit s db r)
    committed-Keeps db (ok db') h = h db' refl
    committed-Keeps db (err e) h = Keeps-refl s o db
    committed-Keeps db panic h = Keeps-refl s o db

    pub step-Keeps :
        (e : Event) (db : Db s)
        → is_plain_event e ≡ true
        → IsKeyed s db
        → Keeps s o db (step s e db)
    unfolding step
    step-Keeps e db p k = committed-Keeps db (apply s e db) (λ db' h. apply-Keeps e db db' p k h)

    pub run-Keeps :
        (es : List Event) (db : Db s) → ArePlain es → IsKeyed s db → Keeps s o db (run s es db)
    unfolding run
    run-Keeps [] db p k = Keeps-refl s o db
    run-Keeps (e ∷ es) db (p, ps) k =
        let first = step-Keeps e db p k in
        Keeps-trans s o db (step s e db) (run s es (step s e db)) first
          (run-Keeps es (step s e db) ps (first.0 k))

-- Whatever calls are made, in whatever order and with whatever errors, the rows of an operation go
-- from one state to the next by the moves of a slot: its journal's phase by edges of the inbox
-- machine, its outbox row by edges of the outbox machine or back to PENDING, and its receipt only
-- from a row in the phase SEMANTIC_ACKED. The condition is that no operation's identity, in the
-- store or in a call, begins with `op:` or `receipt:`.
pub run-Reach :
    (s : Storage) (o : Bytes) (es : List Event) (db : Db s)
    → is_plain o ≡ true
    → ArePlain es
    → IsKeyed s db
    → Reach s (slot s o db) (slot s o (run s es db))
run-Reach s o es db op p k = (run-Keeps s o op es db p k).1
