-- ===== src/Agent/Activation/Truth.antt =====
-- Every method of internal/agent/reconcile/activation.go and state_machine.go keeps the snapshot
-- valid, also the resets, which do not validate.
use anti_nat_agent.Base.{ℕ, refl, String, arith, Option-cases, inl, inr}
use anti_nat_agent.Protocol.States.{contains, ActivationStates, validate, validate_axis_relations}
use anti_nat_agent.Protocol.States.Truth.{IsValid, validate_iff, IsTruthful-relations}
use anti_nat_agent.Agent.Activation.{
  Activation, ProbeAdmission, commit, probing, start_probe_admission, rollback_probe_admission,
  with_axis, commit_axis, update, reset_for_generation_locked, reset_for_generation_with_id,
  restore_for_generation_with_id, new_activation, neutral_states,
}

pub commit-IsValid :
    (a : Activation) (next : ActivationStates) → IsValid a.states → IsValid (commit a next).0.states
unfolding commit
commit-IsValid a next v = elim (Option-cases (validate next)) [
  | inl passed ↦ rw (passed, commit) ((validate_iff next).0 passed)
  | inr (e, refusal) ↦ rw (refusal, commit) v
]

reset_for_generation_locked-IsValid :
    (a : Activation) (next : ℕ) (activation_id : String)
    → IsValid a.states
    → IsValid (reset_for_generation_locked a next activation_id).states
unfolding reset_for_generation_locked contains
reset_for_generation_locked-IsValid a next activation_id v = record {
  legal = record {
    control_legal = v.legal.control_legal;
    listener_legal = v.legal.listener_legal;
    mapping_legal = refl;
    keepalive_legal = refl;
    wan_legal = refl;
    return_path_legal = refl;
    target_health_legal = refl;
    publication_legal = refl;
    data_plane_legal = refl;
  };
  truthful = IsTruthful-relations _ (unfold validate_axis_relations in refl);
}

pub new_activation-IsValid :
    (forward_id activation_id : String) (generation : ℕ)
    → IsValid (new_activation forward_id activation_id generation).states
unfolding new_activation
new_activation-IsValid forward_id activation_id generation =
    (validate_iff neutral_states).0 (unfold validate contains in refl)

-- A probe cycle claims nothing.
pub probing-IsValid : (s : ActivationStates) → IsValid s → IsValid (probing s)
unfolding contains validate_axis_relations
probing-IsValid s v = record {
  legal = record {
    control_legal = v.legal.control_legal;
    listener_legal = v.legal.listener_legal;
    mapping_legal = v.legal.mapping_legal;
    keepalive_legal = v.legal.keepalive_legal;
    wan_legal = refl;
    return_path_legal = refl;
    target_health_legal = v.legal.target_health_legal;
    publication_legal = refl;
    data_plane_legal = v.legal.data_plane_legal;
  };
  truthful = IsTruthful-relations _ (ground arith);
}

pub start_probe_admission-IsValid :
    (a : Activation) (id : String) (g : ℕ)
    → IsValid a.states
    → IsValid (start_probe_admission a id g).0.states
unfolding start_probe_admission
start_probe_admission-IsValid a id g v =
    let p = probing-IsValid a.states v in
    rw ((validate_iff (probing a.states)).1 p, start_probe_admission) (ground (arith, p))

pub rollback_probe_admission-IsValid :
    (a : Activation) (token : ProbeAdmission)
    → IsValid a.states
    → IsValid (rollback_probe_admission a token).0.states
unfolding rollback_probe_admission
rollback_probe_admission-IsValid a token v = ground (arith, commit-IsValid a token.before v)

pub update-IsValid :
    (a : Activation) (axis value : String) (g : ℕ)
    → IsValid a.states
    → IsValid (update a axis value g).0.states
unfolding update commit_axis
update-IsValid a axis value g v = elim (Option-cases (with_axis a.states axis value)) [
  | inl missing ↦ ground (arith, missing)
  | inr (next, found) ↦ ground (arith, found, commit-IsValid a next v)
]

pub resets-IsValid :
    (a : Activation) (next : ℕ) (activation_id : String)
    → IsValid a.states
    → IsValid (reset_for_generation_with_id a next activation_id).states
      × IsValid (restore_for_generation_with_id a next activation_id).states
unfolding reset_for_generation_with_id restore_for_generation_with_id
resets-IsValid a next activation_id v =
    let w = reset_for_generation_locked-IsValid a next activation_id v in
    (ground (arith, w), ground (arith, w))
