-- ===== src/Agent/Activation/Probing.antt =====
-- What the probe and evidence transitions of internal/agent/reconcile/state_machine.go come to on a
-- valid snapshot, on every branch.
use text.Mathlib.TextEquality.{eq_iff}
use text.Mathlib.TextPositions.{eq_refl}
use text.Mathlib.Text.{◌==◌ as str_eq}
use anti_nat_agent.Base.{
  ℕ, ◌≡◌, refl, subst, true, false, not, ◌&&◌, Option, none, some, String, arith, ◌==◌, Bool-cases,
  if◌then◌else◌, inl, inr, ◌≢◌, ◌⊎◌,
}
use anti_nat_agent.Protocol.States.{
  contains, publication_states, return_path_states, wan_reachability_states, ActivationStates,
  validate, validate_axis_relations, valid_activation_snapshot, illegal_value,
  first_hop_never_verified,
}
use anti_nat_agent.Protocol.States as States
use anti_nat_agent.Protocol.States.Truth.{IsValid, validate_iff}
use anti_nat_agent.Agent.Activation.{
  stale_event, invalid, Activation, ProbeAdmission, commit, probing, admit, start_probe_admission,
  rollback_probe_admission, states_eq, evidence_lost, recover_after_restart, record_probe_outcome,
  outcome_states,
}
use anti_nat_agent.Agent.Activation.Truth.{probing-IsValid}

-- The snapshot with its evidence gone.
abbrev pub stale_states : ActivationStates → ActivationStates
stale_states s = record s {
  publication_state = "STALE";
  wan_reachability_state = "NOT_TESTED";
  return_path_state = "NOT_TESTED";
}

abbrev pub recovered_states : ActivationStates → ActivationStates
recovered_states s = record s {
  wan_reachability_state = "NOT_TESTED";
  return_path_state = "NOT_TESTED";
  publication_state =
      if str_eq s.publication_state "PUBLISHED_VERIFIED"
      then "PUBLISHED_UNVERIFIED"
      else s.publication_state;
}

legal_verified : contains return_path_states "VERIFIED" ≡ true
unfolding contains
legal_verified = refl

legal_failed : contains return_path_states "FAILED" ≡ true
unfolding contains
legal_failed = refl

legal_published : contains publication_states "PUBLISHED_VERIFIED" ≡ true
unfolding contains
legal_published = refl

legal_unpublished : contains publication_states "UNPUBLISHED" ≡ true
unfolding contains
legal_unpublished = refl

-- Three axes of a valid snapshot may be given anew, if they are legal and tell no lie.
evidence-validate :
    (s : ActivationStates) (wan return_path publication : String)
    → IsValid s
    → contains wan_reachability_states wan ≡ true
    → contains return_path_states return_path ≡ true
    → contains publication_states publication ≡ true
    → validate (record s {
      wan_reachability_state = wan;
      return_path_state = return_path;
      publication_state = publication;
    })
      ≡ validate_axis_relations s.mapping_state wan return_path publication
unfolding validate
evidence-validate s wan return_path publication v w r p = ground arith

stale_states-validate : (s : ActivationStates) → IsValid s → validate (stale_states s) ≡ none
unfolding contains validate_axis_relations
stale_states-validate s v =
    rw (evidence-validate s "NOT_TESTED" "NOT_TESTED" "STALE" v refl refl refl) (ground arith)

recovered_states-validate :
    (s : ActivationStates) → IsValid s → validate (recovered_states s) ≡ none
unfolding validate_axis_relations contains
recovered_states-validate s v =
    elim (Bool-cases (str_eq s.publication_state "PUBLISHED_VERIFIED")) [
      | inl published ↦ rw published (
          rw (evidence-validate s "NOT_TESTED" "NOT_TESTED" "PUBLISHED_UNVERIFIED" v refl refl refl)
            (ground arith))
      | inr other ↦ rw other (
          rw
            (evidence-validate s "NOT_TESTED" "NOT_TESTED" s.publication_state v refl refl
              v.legal.publication_legal)
            (ground (arith, other)))
    ]

-- The outcome of a probe passes exactly if it is a value of the WAN axis, and an open endpoint is
-- not one of a first-hop mapping.
pub outcome_refusal : ActivationStates → String → Option States.Error
outcome_refusal s outcome =
    if not (contains wan_reachability_states outcome)
    then some (illegal_value "wan_reachability_state" outcome)
    else if str_eq outcome "OPEN_FROM_VANTAGE" && str_eq s.mapping_state "FIRST_HOP_MAPPED"
    then some first_hop_never_verified
    else none

-- What a legal outcome makes of the snapshot.
abbrev pub reported_states : ActivationStates → String → ActivationStates
reported_states s outcome = record s {
  wan_reachability_state = outcome;
  return_path_state = if str_eq outcome "OPEN_FROM_VANTAGE" then "VERIFIED" else "FAILED";
  publication_state =
      if str_eq outcome "OPEN_FROM_VANTAGE" then "PUBLISHED_VERIFIED" else "UNPUBLISHED";
}

outcome_states-reported :
    (s : ActivationStates) (outcome : String) → outcome_states s outcome ≡ reported_states s outcome
outcome_states-reported s outcome = elim (Bool-cases (str_eq outcome "OPEN_FROM_VANTAGE")) [
  | inl is_open ↦ rw is_open refl
  | inr other ↦ rw other refl
]

illegal_outcome-validate :
    (s : ActivationStates) (outcome : String)
    → IsValid s
    → contains wan_reachability_states outcome ≡ false
    → validate (outcome_states s outcome) ≡ some (illegal_value "wan_reachability_state" outcome)
unfolding validate
illegal_outcome-validate s outcome v h = elim (Bool-cases (str_eq outcome "OPEN_FROM_VANTAGE")) [
  | inl is_open ↦ rw is_open (ground (arith, h))
  | inr other ↦ rw other (ground (arith, h))
]

legal_outcome-validate :
    (s : ActivationStates) (outcome : String)
    → IsValid s
    → contains wan_reachability_states outcome ≡ true
    → validate (outcome_states s outcome) ≡ (
        if str_eq outcome "OPEN_FROM_VANTAGE" && str_eq s.mapping_state "FIRST_HOP_MAPPED"
        then some first_hop_never_verified
        else none)
unfolding validate_axis_relations
legal_outcome-validate s outcome v h = elim (Bool-cases (str_eq outcome "OPEN_FROM_VANTAGE")) [
  | inl is_open ↦ rw is_open (
      rw
        (evidence-validate s outcome "VERIFIED" "PUBLISHED_VERIFIED" v h legal_verified
          legal_published)
        (ground (arith, is_open)))
  | inr other ↦ rw other (
      rw (evidence-validate s outcome "FAILED" "UNPUBLISHED" v h legal_failed legal_unpublished)
        (ground (arith, other)))
]

outcome_states-validate :
    (s : ActivationStates) (outcome : String)
    → IsValid s
    → validate (outcome_states s outcome) ≡ outcome_refusal s outcome
unfolding outcome_refusal
outcome_states-validate s outcome v = elim (Bool-cases (contains wan_reachability_states outcome)) [
  | inl legal ↦ rw legal (legal_outcome-validate s outcome v legal)
  | inr illegal ↦ rw illegal (illegal_outcome-validate s outcome v illegal)
]

commit_passes :
    (a : Activation) (next : ActivationStates)
    → validate next ≡ none
    → commit a next ≡ (record a { states = next }, none)
unfolding commit
commit_passes a next h = rw (h, commit)

stale≢verified : ◌≢◌ {A = String} "STALE" "PUBLISHED_VERIFIED"
stale≢verified e = absurd (ground (arith, eq_iff "STALE" "PUBLISHED_VERIFIED"))

recovered_unverified :
    (s : ActivationStates) → (recovered_states s).publication_state ≢ "PUBLISHED_VERIFIED"
recovered_unverified s e = ground (
  arith,
  eq_iff s.publication_state "PUBLISHED_VERIFIED",
  eq_iff "PUBLISHED_UNVERIFIED" "PUBLISHED_VERIFIED",
)

-- On a valid snapshot the loss of evidence is never refused: it marks the publication STALE and
-- the WAN and return-path axes NOT_TESTED, and changes nothing else. Nor is the recovery after a
-- restart: it leaves the two axes NOT_TESTED, and never a publication that counts as verified.
pub evidence_lost-total :
    (a : Activation)
    → IsValid a.states
    → (evidence_lost a ≡ (record a { states = stale_states a.states }, none))
      × (recover_after_restart a ≡ (record a { states = recovered_states a.states }, none))
      × ((recovered_states a.states).publication_state ≢ "PUBLISHED_VERIFIED")
unfolding evidence_lost recover_after_restart
evidence_lost-total a v = (
  commit_passes a _ (stale_states-validate a.states v),
  commit_passes a _ (recovered_states-validate a.states v),
  recovered_unverified a.states,
)

-- The result of a probe, on a valid snapshot and on every branch: an event of another generation is
-- refused as stale, an outcome that is no WAN value or that claims a first-hop mapping to be open
-- is refused with the reason, and both leave the activation as it was. Any other outcome is accepted
-- and becomes the WAN axis; OPEN_FROM_VANTAGE sets the return path VERIFIED and the publication
-- PUBLISHED_VERIFIED, each other outcome sets them FAILED and UNPUBLISHED, and all else stays.
pub record_probe_outcome_lem :
    (a : Activation) (outcome : String) (event_generation : ℕ)
    → IsValid a.states
    → record_probe_outcome a outcome event_generation ≡ (
        if not (event_generation == a.generation)
        then (a, some stale_event)
        else elim (outcome_refusal a.states outcome) [
          | some e ↦ (a, some (invalid e))
          | none ↦ (record a { states = reported_states a.states outcome }, none)
        ])
unfolding record_probe_outcome commit
record_probe_outcome_lem a outcome event_generation v =
    subst
      (λ t. record_probe_outcome a outcome event_generation ≡ (
        if not (event_generation == a.generation)
        then (a, some stale_event)
        else elim (outcome_refusal a.states outcome) [
          | some e ↦ (a, some (invalid e))
          | none ↦ (record a { states = t }, none)
        ]))
      (outcome_states-reported a.states outcome)
      (rw (outcome_states-validate a.states outcome v, commit))

states_eq_refl : (s : ActivationStates) → states_eq s s ≡ true
unfolding states_eq
states_eq_refl s = simp eq_refl

states_eq_sound : (s t : ActivationStates) → states_eq s t ≡ true → s ≡ t
unfolding states_eq
states_eq_sound s t h = ground (
  arith,
  eq_iff s.control_state t.control_state,
  eq_iff s.listener_state t.listener_state,
  eq_iff s.mapping_state t.mapping_state,
  eq_iff s.keepalive_state t.keepalive_state,
  eq_iff s.wan_reachability_state t.wan_reachability_state,
  eq_iff s.return_path_state t.return_path_state,
  eq_iff s.target_health_state t.target_health_state,
  eq_iff s.publication_state t.publication_state,
  eq_iff s.data_plane_state t.data_plane_state,
)

-- The token of an admission.
abbrev pub admission : Activation → ProbeAdmission
admission a = record {
  forward_id = a.forward_id;
  activation = a.activation;
  generation = a.generation;
  before = a.states;
  after = probing a.states;
}

-- A probe that was admitted can be taken back: on a valid snapshot of a named activation with a
-- generation, StartProbeAdmission for exactly these succeeds, and RollbackProbeAdmission with the
-- token that it returned gives the activation back as it was.
pub rollback-start :
    (a : Activation)
    → IsValid a.states
    → a.activation ≢ ""
    → a.generation ≢ 0
    → (start_probe_admission a a.activation a.generation
        ≡ (record a { states = probing a.states }, none, some (admission a)))
      × (rollback_probe_admission (record a { states = probing a.states }) (admission a)
          ≡ (a, none))
unfolding start_probe_admission rollback_probe_admission admit
rollback-start a v named numbered = (
  rw ((validate_iff (probing a.states)).1 (probing-IsValid a.states v), admit)
      (ground (arith, eq_iff a.activation "", eq_refl a.activation)),
  rw (states_eq_refl (probing a.states)) (
      rw
        (commit_passes (record a { states = probing a.states }) a.states
          ((validate_iff a.states).1 v))
        (ground (arith, eq_refl a.forward_id, eq_refl a.activation))),
)

-- A rollback goes through only where identity, generation and states are those that the admission
-- left, and then restores the states before it; any other rollback leaves the activation as it was.
pub rollback_exact :
    (a : Activation) (token : ProbeAdmission)
    → let (b, e) = rollback_probe_admission a token in
      ((e ≡ none)
        × (a.forward_id ≡ token.forward_id)
        × (a.activation ≡ token.activation)
        × (a.generation ≡ token.generation)
        × (a.states ≡ token.after)
        × (b ≡ record a { states = token.before }))
      ⊎ ((e ≢ none) × (b ≡ a))
unfolding rollback_probe_admission commit
rollback_exact a token = ground (
  arith,
  eq_iff a.forward_id token.forward_id,
  eq_iff a.activation token.activation,
  states_eq_sound a.states token.after,
)
