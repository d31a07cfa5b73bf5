-- ===== src/Protocol/States/Tests.antt =====
-- A witness of the truth rules.
use anti_nat_agent.Base.{◌≡◌, ◌↔◌, none}
use anti_nat_agent.Protocol.States.{ActivationStates, validate}
use anti_nat_agent.Protocol.States.Truth.{IsValid, validate_iff}

-- A verified publication whose mapping is only the first hop's.
abbrev untrue : ActivationStates
untrue = record {
  control_state = "ONLINE";
  listener_state = "READY";
  mapping_state = "FIRST_HOP_MAPPED";
  keepalive_state = "HEALTHY";
  wan_reachability_state = "OPEN_FROM_VANTAGE";
  return_path_state = "VERIFIED";
  target_health_state = "PASS";
  publication_state = "PUBLISHED_VERIFIED";
  data_plane_state = "READY";
}

validate_iff_example : (validate untrue ≡ none) ↔ IsValid untrue
validate_iff_example = validate_iff untrue
