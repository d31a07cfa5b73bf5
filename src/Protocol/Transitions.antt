-- ===== src/Protocol/Transitions.antt =====
-- internal/protocol/domain.go: the durable control state machines and their single-step
-- transitions. A Go map is the list of its true keys.
pub mod Steps
mod Tests
use text.Mathlib.Text.{◌==◌ as str_eq}
use anti_nat_agent.Base.{
  Bool, true, false, not, ◌&&◌, ◌||◌, Option, none, some, List, [], ◌∷◌, String, if◌then◌else◌,
}
use anti_nat_agent.Protocol.States.{contains}

pub data Error : Type 0 where
  unknown_fsm : Error
  no_state : (state : String) → Error
  illegal_transition : Error

pub record Fsm : Type 0 where
  pub states : List String
  pub transitions : List (String × String)

abbrev pub outbox : Fsm
outbox = record {
  states = "PENDING" ∷ "CLAIMED" ∷ "SENT" ∷ "SEMANTIC_ACKED" ∷ "RECEIPTED" ∷ "GC" ∷ [];
  transitions =
      ("PENDING", "CLAIMED")
      ∷ ("CLAIMED", "SENT")
      ∷ ("SENT", "SEMANTIC_ACKED")
      ∷ ("SEMANTIC_ACKED", "RECEIPTED")
      ∷ ("RECEIPTED", "GC")
      ∷ [];
}

abbrev pub inbox : Fsm
inbox = record {
  states = "RECEIVED" ∷ "INTENT_PERSISTED" ∷ "APPLYING" ∷ "APPLIED" ∷ "NACKED" ∷ [];
  transitions =
      ("RECEIVED", "INTENT_PERSISTED")
      ∷ ("INTENT_PERSISTED", "APPLYING")
      ∷ ("APPLYING", "APPLIED")
      ∷ ("APPLYING", "NACKED")
      ∷ [];
}

abbrev pub key_rotation : Fsm
key_rotation = record {
  states = "PREPARED" ∷ "ANNOUNCED" ∷ "ACKED" ∷ "ACTIVE" ∷ "RETIRED" ∷ [];
  transitions =
      ("PREPARED", "ANNOUNCED")
      ∷ ("ANNOUNCED", "ACKED")
      ∷ ("ACKED", "ACTIVE")
      ∷ ("ACTIVE", "RETIRED")
      ∷ [];
}

abbrev pub decommission : Fsm
decommission = record {
  states = "ACTIVE" ∷ "DECOMMISSIONING" ∷ "DECOMMISSIONED" ∷ "CLEANUP_ONLY" ∷ [];
  transitions =
      ("ACTIVE", "DECOMMISSIONING")
      ∷ ("DECOMMISSIONING", "DECOMMISSIONED")
      ∷ ("DECOMMISSIONED", "CLEANUP_ONLY")
      ∷ [];
}

abbrev pub restore : Fsm
restore = record {
  states = "RESTORED" ∷ "RECOVERY_QUARANTINE" ∷ "RECONCILING" ∷ "AUTHORIZED" ∷ [];
  transitions =
      ("RESTORED", "RECOVERY_QUARANTINE")
      ∷ ("RECOVERY_QUARANTINE", "RECONCILING")
      ∷ ("RECONCILING", "AUTHORIZED")
      ∷ [];
}

-- The two maps of the source, which have the same keys.
abbrev pub frozen_fsms : String → Option Fsm
frozen_fsms name =
    if str_eq name "outbox"
    then some outbox
    else if str_eq name "inbox"
    then some inbox
    else if str_eq name "key_rotation"
    then some key_rotation
    else if str_eq name "decommission"
    then some decommission
    else if str_eq name "restore"
    then some restore
    else none

abbrev pub has_transition : List (String × String) → String → String → Bool
has_transition [] from to = false
has_transition ((a, b) ∷ table) from to =
    (str_eq from a && str_eq to b) || has_transition table from to

-- A state of a machine that is not there is no state.
abbrev pub state_of : Option Fsm → String → Bool
state_of none state = false
state_of (some m) state = contains m.states state

unfoldable pub valid_fsm_state : String → String → Bool
valid_fsm_state fsm state = state_of (frozen_fsms fsm) state

abbrev pub transition_of : Option Fsm → String → String → Option Error
transition_of none from to = some unknown_fsm
transition_of (some m) from to =
    if not (contains m.states from)
    then some (no_state from)
    else if not (contains m.states to)
    then some (no_state to)
    else if not (has_transition m.transitions from to)
    then some illegal_transition
    else none

unfoldable pub validate_fsm_transition : String → String → String → Option Error
validate_fsm_transition fsm from to = transition_of (frozen_fsms fsm) from to
