-- ===== src/Agent/Localstate/Slots.antt =====
-- internal/agent/localstate/journal.go: what the store holds of one operation, and the moves that
-- the operation's rows can make. The rows of the results, of the journals and of the receipts share
-- one bucket, so an identity that begins with a reserved prefix is another operation's row.
pub mod Writes
pub mod Keeps
pub mod Refines
pub mod Deliveries
pub mod Requeued
pub mod Received
use anti_nat_agent.Base.{
  ℕ, ◌≡◌, refl, sym, Bool, true, false, not, ◌&&◌, ◌||◌, Option, none, some, List, [], ◌∷◌, ◌++◌,
  arith, ◌==◌, if◌then◌else◌, String, Bytes, bytes_eq, text, has_prefix,
}
use anti_nat_agent.Protocol.Transitions.{outbox, inbox}
use anti_nat_agent.Agent.Localstate.Storage.{Storage, Db, OperationJournal}
use anti_nat_agent.Agent.Localstate.Fences.{receipt_key}
use anti_nat_agent.Agent.Localstate.Command.{op_journal_key, phase_received}
use anti_nat_agent.Agent.Localstate.Outbox.{
  split_outbox_value, row, phase_pending, phase_semantic_acked,
}

abbrev pub is_plain : Bytes → Bool
is_plain operation =
    not (has_prefix (text "op:") operation) && not (has_prefix (text "receipt:") operation)

-- The table of internal/protocol/domain.go has the edge.
abbrev pub has_edge : List (String × String) → Bytes → Bytes → Bool
has_edge [] from to = false
has_edge ((a, b) ∷ table) from to =
    bytes_eq from (text a) && bytes_eq to (text b) || has_edge table from to

pub record Slot : Type 0 where
  pub receipt : Option Bytes
  pub result : Option Bytes
  pub journal : Option Bytes
  pub queued : Option Bytes

-- The same phase again, or an edge of the inbox machine.
abbrev pub follows : Bytes → Bytes → Bool
follows from to = bytes_eq from to || has_edge inbox.transitions from to

-- An edge of the outbox machine, or back to PENDING for a new session.
abbrev pub moves : Bytes → Bytes → Bool
moves from to = has_edge outbox.transitions from to || bytes_eq to phase_pending

abbrev pub fits : Option Bytes → Bytes → Bool
fits none result = true
fits (some existing) result = bytes_eq existing result

module _ (s : Storage) where
  unfoldable pub slot : Bytes → Db s → Slot
  slot o db = record {
    receipt = s.get (receipt_key o) db.operations;
    result = s.get o db.operations;
    journal = s.get (op_journal_key o) db.operations;
    queued = s.get o db.outbox;
  }

  pub data Step : Slot → Slot → Type 0 where
    received :
        (t : Slot) (j : OperationJournal)
        → t.receipt ≡ none
        → t.journal ≡ none
        → j.phase ≡ phase_received
        → Step t (record t { journal = some (s.encode_journal j) })
    rewritten :
        (t : Slot) (raw : Bytes) (j j' : OperationJournal)
        → t.journal ≡ some raw
        → s.decode_journal raw ≡ some j
        → follows j.phase j'.phase ≡ true
        → Step t (record t { journal = some (s.encode_journal j') })
    recorded :
        (t : Slot) (p : Bytes)
        → t.receipt ≡ none
        → t.queued ≡ none
        → fits t.result p ≡ true
        → Step t (record t { result = some p; queued = some (row phase_pending p) })
    moved :
        (t : Slot) (r to : Bytes)
        → t.queued ≡ some r
        → moves (split_outbox_value r).0 to ≡ true
        → Step t (record t { queued = some (row to (split_outbox_value r).1) })
    receipted :
        (t : Slot) (r : Bytes)
        → t.receipt ≡ none
        → t.queued ≡ some r
        → bytes_eq (split_outbox_value r).0 phase_semantic_acked ≡ true
        → Step t (record {
          receipt = some (split_outbox_value r).1;
          result = none;
          journal = none;
          queued = none;
        })

  pub data Reach (t : Slot) : Slot → Type 0 where
    here : Reach t t
    next : {u v : Slot} → Reach t u → Step u v → Reach t v

  pub Reach-trans : {t u v : Slot} → Reach t u → Reach u v → Reach t v
  Reach-trans r here = r
  Reach-trans r (next q st) = next (Reach-trans r q) st
