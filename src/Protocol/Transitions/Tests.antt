-- ===== src/Protocol/Transitions/Tests.antt =====
-- Runs and a witness of the control state machines.
use anti_nat_agent.Base.{String, ◌≡◌, ◌≢◌, refl, none, some}
use anti_nat_agent.Protocol.States.{contains}
use anti_nat_agent.Protocol.Transitions.{validate_fsm_transition, illegal_transition}
use anti_nat_agent.Protocol.Transitions.Steps.{once, more, Reaches-differs}

claiming : validate_fsm_transition "outbox" "PENDING" "CLAIMED" ≡ none
unfolding validate_fsm_transition contains
claiming = refl

sending : validate_fsm_transition "outbox" "CLAIMED" "SENT" ≡ none
unfolding validate_fsm_transition contains
sending = refl

no_skipping : validate_fsm_transition "outbox" "PENDING" "SENT" ≡ some illegal_transition
unfolding validate_fsm_transition contains
no_skipping = refl

Reaches-differs_example : ◌≢◌ {A = String} "PENDING" "SENT"
Reaches-differs_example = Reaches-differs "outbox" "PENDING" "SENT" (more claiming (once sending))
