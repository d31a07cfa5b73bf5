-- ===== src/Agent/Activation.antt =====
-- internal/agent/reconcile/activation.go and state_machine.go: the orthogonal state of one Forward
-- activation. Each method is one critical section under the activation's mutex. The result of a
-- method is the activation after it and the error that it returns (`none` for nil).
pub mod Truth
pub mod Probing
pub mod Trace
mod Tests
use text.Mathlib.Text.{◌==◌ as str_eq}
use anti_nat_agent.Base.{
  ℕ, Bool, true, false, not, ◌&&◌, ◌||◌, Option, none, some, String, ◌==◌, ltb, leb, if◌then◌else◌,
}
use anti_nat_agent.Protocol.States.{ActivationStates, validate, valid_axis_value}
use anti_nat_agent.Protocol.States as States

pub data Error : Type 0 where
  stale_event illegal_state : Error
  -- An error of `Validate`.
  invalid : States.Error → Error

pub record Activation : Type 0 where
  pub forward_id : String
  pub activation : String
  pub generation : ℕ
  pub states : ActivationStates

pub record ProbeAdmission : Type 0 where
  pub forward_id : String
  pub activation : String
  pub generation : ℕ
  pub before : ActivationStates
  pub after : ActivationStates

abbrev pub neutral_states : ActivationStates
neutral_states = record {
  control_state = "OFFLINE";
  listener_state = "STOPPED";
  mapping_state = "NOT_REQUIRED";
  keepalive_state = "NOT_REQUIRED";
  wan_reachability_state = "NOT_TESTED";
  return_path_state = "NOT_TESTED";
  target_health_state = "UNKNOWN";
  publication_state = "NONE";
  data_plane_state = "STOPPED";
}

pub new_activation : String → String → ℕ → Activation
new_activation forward_id activation_id generation = record {
  forward_id = forward_id;
  activation = activation_id;
  generation = generation;
  states = neutral_states;
}

-- `if err := next.Validate(); err != nil { return err }; a.states = next; return nil`
pub commit : Activation → ActivationStates → Activation × Option Error
commit a next = elim (validate next) [
  | some e ↦ (a, some (invalid e))
  | none ↦ (record a { states = next }, none)
]

pub set : Activation → ActivationStates → Activation × Option Error
unfolding commit
set a s = commit a s

abbrev pub probing : ActivationStates → ActivationStates
probing s = record s {
  wan_reachability_state = "PROBING";
  publication_state = "UNPUBLISHED";
  return_path_state = "NOT_TESTED";
}

admit : Activation → Option States.Error → Activation × Option Error × Option ProbeAdmission
admit a (some e) = (a, some (invalid e), none)
admit a none = (
  record a { states = probing a.states },
  none,
  some (record {
    forward_id = a.forward_id;
    activation = a.activation;
    generation = a.generation;
    before = a.states;
    after = probing a.states;
  }),
)

pub start_probe_admission :
    Activation → String → ℕ → Activation × Option Error × Option ProbeAdmission
unfolding admit
start_probe_admission a expected_activation expected_generation =
    if str_eq expected_activation ""
      || (expected_generation == 0
          || (not (str_eq a.activation expected_activation)
              || not (a.generation == expected_generation)))
    then (a, some stale_event, none)
    else admit a (validate (probing a.states))

-- Go's `==` on the struct of states.
unfoldable pub states_eq : ActivationStates → ActivationStates → Bool
states_eq s t =
    str_eq s.control_state t.control_state
    && (str_eq s.listener_state t.listener_state
        && (str_eq s.mapping_state t.mapping_state
            && (str_eq s.keepalive_state t.keepalive_state
                && (str_eq s.wan_reachability_state t.wan_reachability_state
                    && (str_eq s.return_path_state t.return_path_state
                        && (str_eq s.target_health_state t.target_health_state
                            && (str_eq s.publication_state t.publication_state
                                && str_eq s.data_plane_state t.data_plane_state)))))))

pub rollback_probe_admission : Activation → ProbeAdmission → Activation × Option Error
unfolding commit
rollback_probe_admission a token =
    if not (str_eq a.forward_id token.forward_id)
      || (not (str_eq a.activation token.activation)
          || (not (a.generation == token.generation) || not (states_eq a.states token.after)))
    then (a, some stale_event)
    else commit a token.before

-- The `switch` of `Update`; `none` is its default case.
with_axis : ActivationStates → String → String → Option ActivationStates
with_axis s axis value =
    if str_eq axis "control_state"
    then some (record s { control_state = value })
    else if str_eq axis "listener_state"
    then some (record s { listener_state = value })
    else if str_eq axis "mapping_state"
    then some (record s { mapping_state = value })
    else if str_eq axis "keepalive_state"
    then some (record s { keepalive_state = value })
    else if str_eq axis "wan_reachability_state"
    then some (record s { wan_reachability_state = value })
    else if str_eq axis "return_path_state"
    then some (record s { return_path_state = value })
    else if str_eq axis "target_health_state"
    then some (record s { target_health_state = value })
    else if str_eq axis "publication_state"
    then some (record s { publication_state = value })
    else if str_eq axis "data_plane_state"
    then some (record s { data_plane_state = value })
    else none

commit_axis : Activation → Option ActivationStates → Activation × Option Error
unfolding commit
commit_axis a none = (a, some illegal_state)
commit_axis a (some next) = commit a next

pub update : Activation → String → String → ℕ → Activation × Option Error
unfolding with_axis commit_axis
update a axis value event_generation =
    if not (event_generation == a.generation)
    then (a, some stale_event)
    else if not (valid_axis_value axis value)
    then (a, some illegal_state)
    else commit_axis a (with_axis a.states axis value)

pub advance_generation : Activation → ℕ → Activation
advance_generation a next = if ltb a.generation next then record a { generation = next } else a

reset_for_generation_locked : Activation → ℕ → String → Activation
reset_for_generation_locked a next activation_id = record a {
  generation = next;
  activation = activation_id;
  states = record states {
    mapping_state = "NOT_REQUIRED";
    keepalive_state = "NOT_REQUIRED";
    wan_reachability_state = "NOT_TESTED";
    return_path_state = "NOT_TESTED";
    target_health_state = "UNKNOWN";
    publication_state = "NONE";
    data_plane_state = "STOPPED";
  };
}
  where
    open a use {states}

pub reset_for_generation_with_id : Activation → ℕ → String → Activation
unfolding reset_for_generation_locked
reset_for_generation_with_id a next activation_id =
    if leb next a.generation then a else reset_for_generation_locked a next activation_id

-- Where no other writer comes between the reading of the identity and the reset.
pub reset_for_generation : Activation → ℕ → Activation
unfolding reset_for_generation_with_id
reset_for_generation a next = reset_for_generation_with_id a next a.activation

pub restore_for_generation_with_id : Activation → ℕ → String → Activation
unfolding reset_for_generation_locked
restore_for_generation_with_id a previous activation_id =
    if previous == a.generation && str_eq activation_id a.activation
    then a
    else reset_for_generation_locked a previous activation_id

pub evidence_lost : Activation → Activation × Option Error
unfolding commit
evidence_lost a = commit a (record states {
  publication_state = "STALE";
  wan_reachability_state = "NOT_TESTED";
  return_path_state = "NOT_TESTED";
})
  where
    open a use {states}

pub recover_after_restart : Activation → Activation × Option Error
unfolding commit
recover_after_restart a = commit a (record states {
  wan_reachability_state = "NOT_TESTED";
  return_path_state = "NOT_TESTED";
  publication_state =
      if str_eq states.publication_state "PUBLISHED_VERIFIED"
      then "PUBLISHED_UNVERIFIED"
      else states.publication_state;
})
  where
    open a use {states}

pub start_probe : Activation → ℕ → Activation × Option Error
unfolding commit
start_probe a event_generation =
    if not (event_generation == a.generation)
    then (a, some stale_event)
    else commit a (probing a.states)

-- A `ProbeOutcome` is a Go string.
abbrev pub outcome_states : ActivationStates → String → ActivationStates
outcome_states s outcome =
    if str_eq outcome "OPEN_FROM_VANTAGE"
    then record s {
      wan_reachability_state = outcome;
      return_path_state = "VERIFIED";
      publication_state = "PUBLISHED_VERIFIED";
    }
    else record s {
      wan_reachability_state = outcome;
      return_path_state = "FAILED";
      publication_state = "UNPUBLISHED";
    }

pub record_probe_outcome : Activation → String → ℕ → Activation × Option Error
unfolding commit
record_probe_outcome a outcome event_generation =
    if not (event_generation == a.generation)
    then (a, some stale_event)
    else commit a (outcome_states a.states outcome)
