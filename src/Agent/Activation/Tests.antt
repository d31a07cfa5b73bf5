-- ===== src/Agent/Activation/Tests.antt =====
-- Runs and witnesses of the activation.
use text.Mathlib.TextEquality.{eq_iff}
use anti_nat_agent.Base.{
  ◌≡◌, refl, ◌≢◌, ◌⊎◌, true, none, some, List, [], ◌∷◌, arith, not, ◌==◌, if◌then◌else◌,
}
use anti_nat_agent.Protocol.States.{validate, contains, illegal_value}
use anti_nat_agent.Protocol.States.Truth.{IsValid, validate_iff}
use anti_nat_agent.Agent.Activation.{
  Activation, stale_event, invalid, probing, start_probe_admission, rollback_probe_admission,
  neutral_states, new_activation, evidence_lost, recover_after_restart, record_probe_outcome,
  start_probe,
}
use anti_nat_agent.Agent.Activation.Probing.{
  stale_states, recovered_states, evidence_lost-total, outcome_refusal, record_probe_outcome_lem,
  admission, rollback-start, rollback_exact,
}
use anti_nat_agent.Agent.Activation.Trace.{
  Event, records, starts_probe, step, run, run-IsValid, some_may_verify, verified_needs_proof,
}

abbrev fresh : Activation
fresh = record { forward_id = "web"; activation = "act-1"; generation = 3; states = neutral_states }

abbrev opened : List Event
opened = starts_probe 3 ∷ records "OPEN_FROM_VANTAGE" 3 ∷ []

opened_is_published :
    (run (new_activation "web" "act-1" 3) opened).states.publication_state ≡ "PUBLISHED_VERIFIED"
unfolding run step new_activation start_probe record_probe_outcome validate contains
opened_is_published = refl

-- An outcome of the registry that is no value of the WAN axis.
armed_is_refused :
    (record_probe_outcome fresh "ARMED" 3).1
    ≡ some (invalid (illegal_value "wan_reachability_state" "ARMED"))
unfolding record_probe_outcome validate contains
armed_is_refused = refl

fresh-IsValid : IsValid neutral_states
fresh-IsValid = (validate_iff neutral_states).0 (unfold validate contains in refl)

run-IsValid_example : IsValid (run (new_activation "web" "act-1" 3) opened).states
run-IsValid_example = run-IsValid "web" "act-1" 3 opened

verified_needs_proof_example : some_may_verify opened ≡ true
verified_needs_proof_example =
    verified_needs_proof (new_activation "web" "act-1" 3) opened none_yet opened_is_published
  where
    none_yet : (new_activation "web" "act-1" 3).states.publication_state ≢ "PUBLISHED_VERIFIED"
    none_yet =
        unfold new_activation in λ e. absurd (ground (arith, eq_iff "NONE" "PUBLISHED_VERIFIED"))

evidence_lost-total_example :
    (evidence_lost fresh ≡ (record fresh { states = stale_states neutral_states }, none))
    × (recover_after_restart fresh
        ≡ (record fresh { states = recovered_states neutral_states }, none))
    × ((recovered_states neutral_states).publication_state ≢ "PUBLISHED_VERIFIED")
evidence_lost-total_example = evidence_lost-total fresh fresh-IsValid

record_probe_outcome_lem_example : record_probe_outcome fresh "TIMEOUT" 3 ≡ (
    if not (3 == fresh.generation)
    then (fresh, some stale_event)
    else elim (outcome_refusal neutral_states "TIMEOUT") [
      | some e ↦ (fresh, some (invalid e))
      | none ↦ (
        record fresh {
          states = record neutral_states {
            wan_reachability_state = "TIMEOUT";
            return_path_state = "FAILED";
            publication_state = "UNPUBLISHED";
          };
        },
        none,
      )
    ])
record_probe_outcome_lem_example = record_probe_outcome_lem fresh "TIMEOUT" 3 fresh-IsValid

rollback-start_example :
    (start_probe_admission fresh "act-1" 3
      ≡ (record fresh { states = probing neutral_states }, none, some (admission fresh)))
    × (rollback_probe_admission (record fresh { states = probing neutral_states }) (admission fresh)
        ≡ (fresh, none))
rollback-start_example =
    rollback-start fresh fresh-IsValid (λ e. absurd (ground (arith, eq_iff "act-1" "")))
      (omega arith)

rollback_exact_example :
    let (b, e) = rollback_probe_admission fresh (admission fresh) in
    ((e ≡ none)
      × (fresh.forward_id ≡ fresh.forward_id)
      × (fresh.activation ≡ fresh.activation)
      × (fresh.generation ≡ fresh.generation)
      × (neutral_states ≡ probing neutral_states)
      × (b ≡ record fresh { states = neutral_states }))
    ⊎ ((e ≢ none) × (b ≡ fresh))
rollback_exact_example = rollback_exact fresh (admission fresh)
