-- ===== src/Protocol/States/Truth.antt =====
-- What `ActivationStates.Validate` of internal/protocol/domain.go lets pass, without the code.
use text.Mathlib.TextEquality.{eq_iff}
use anti_nat_agent.Base.{◌≡◌, ◌≢◌, ◌↔◌, true, none, arith}
use anti_nat_agent.Protocol.States.{
  contains, control_states, listener_states, mapping_states, keepalive_states,
  wan_reachability_states, return_path_states, target_health_states, publication_states,
  data_plane_states, snapshot_of, valid_activation_snapshot, ActivationStates, validate,
  validate_axis_relations,
}

-- Every axis has one of its frozen values.
pub record HasLegalAxes (s : ActivationStates) : Type 0 where
  pub control_legal : contains control_states s.control_state ≡ true
  pub listener_legal : contains listener_states s.listener_state ≡ true
  pub mapping_legal : contains mapping_states s.mapping_state ≡ true
  pub keepalive_legal : contains keepalive_states s.keepalive_state ≡ true
  pub wan_legal : contains wan_reachability_states s.wan_reachability_state ≡ true
  pub return_path_legal : contains return_path_states s.return_path_state ≡ true
  pub target_health_legal : contains target_health_states s.target_health_state ≡ true
  pub publication_legal : contains publication_states s.publication_state ≡ true
  pub data_plane_legal : contains data_plane_states s.data_plane_state ≡ true

-- The truth rules: a verified publication is open from a vantage, over a verified return path and
-- not over a first-hop mapping; an unverified one claims no vantage; a first-hop mapping is never a
-- verified public endpoint.
pub record IsTruthful (s : ActivationStates) : Type 0 where
  pub verified_is_open :
      s.publication_state ≡ "PUBLISHED_VERIFIED" → s.wan_reachability_state ≡ "OPEN_FROM_VANTAGE"
  pub verified_returns :
      s.publication_state ≡ "PUBLISHED_VERIFIED" → s.return_path_state ≡ "VERIFIED"
  pub verified_beyond_first_hop :
      s.publication_state ≡ "PUBLISHED_VERIFIED" → s.mapping_state ≢ "FIRST_HOP_MAPPED"
  pub unverified_is_silent :
      s.publication_state ≡ "PUBLISHED_UNVERIFIED" → s.wan_reachability_state ≢ "OPEN_FROM_VANTAGE"
  pub first_hop_unverified : s.mapping_state ≡ "FIRST_HOP_MAPPED" → s.return_path_state ≢ "VERIFIED"

pub record IsValid (s : ActivationStates) : Type 0 where
  pub legal : HasLegalAxes s
  pub truthful : IsTruthful s

pub IsTruthful-relations :
    (s : ActivationStates)
    → validate_axis_relations s.mapping_state s.wan_reachability_state s.return_path_state
        s.publication_state
      ≡ none
    → IsTruthful s
unfolding validate_axis_relations
IsTruthful-relations s h = ground (
  arith,
  eq_iff "PUBLISHED_VERIFIED" "PUBLISHED_UNVERIFIED",
  eq_iff s.publication_state "PUBLISHED_VERIFIED",
  eq_iff s.publication_state "PUBLISHED_UNVERIFIED",
  eq_iff s.wan_reachability_state "OPEN_FROM_VANTAGE",
  eq_iff s.return_path_state "VERIFIED",
  eq_iff s.mapping_state "FIRST_HOP_MAPPED",
)

relations-IsTruthful :
    (s : ActivationStates)
    → IsTruthful s
    → validate_axis_relations s.mapping_state s.wan_reachability_state s.return_path_state
        s.publication_state
      ≡ none
unfolding validate_axis_relations
relations-IsTruthful s h = ground (
  arith,
  eq_iff s.publication_state "PUBLISHED_VERIFIED",
  eq_iff s.publication_state "PUBLISHED_UNVERIFIED",
  eq_iff s.wan_reachability_state "OPEN_FROM_VANTAGE",
  eq_iff s.return_path_state "VERIFIED",
  eq_iff s.mapping_state "FIRST_HOP_MAPPED",
)

snapshot_legal :
    (s : ActivationStates) → valid_activation_snapshot (snapshot_of s) ≡ none → HasLegalAxes s
unfolding valid_activation_snapshot
snapshot_legal s h = ground arith

legal_snapshot :
    (s : ActivationStates) → HasLegalAxes s → valid_activation_snapshot (snapshot_of s) ≡ none
unfolding valid_activation_snapshot
legal_snapshot s h = ground arith

-- A snapshot passes Validate exactly if every axis has one of its frozen values and the truth rules
-- hold.
pub validate_iff : (s : ActivationStates) → (validate s ≡ none) ↔ IsValid s
unfolding validate
validate_iff s = (
  λ h. ground (arith, snapshot_legal s, IsTruthful-relations s),
  λ v. ground (arith, legal_snapshot s v.legal, relations-IsTruthful s v.truthful),
)
