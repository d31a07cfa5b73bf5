-- ===== src/Protocol/States.antt =====
-- internal/protocol/domain.go: the orthogonal activation-state axes and the truth rules between
-- them. Axis values are Go strings; a Go map is a list of pairs.
pub mod Truth
mod Tests
use text.Mathlib.Text.{◌==◌ as str_eq}
use anti_nat_agent.Base.{
  Bool, true, false, not, ◌&&◌, ◌||◌, Option, none, some, List, [], ◌∷◌, String, ◌==◌,
  if◌then◌else◌, length,
}

pub data Error : Type 0 where
  wrong_axis_count : Error
  missing_axis : (name : String) → Error
  illegal_value : (name value : String) → Error
  first_hop_never_verified verified_requires_open verified_requires_return_path : Error
  unverified_claims_open verified_on_first_hop : Error

-- `map[string]bool` as the list of its true keys.
unfoldable pub contains : List String → String → Bool
contains [] v = false
contains (s ∷ ss) v = str_eq v s || contains ss v

abbrev pub control_states : List String
control_states = "ONLINE" ∷ "OFFLINE" ∷ []

abbrev pub listener_states : List String
listener_states = "STOPPED" ∷ "STARTING" ∷ "READY" ∷ "ERROR" ∷ []

abbrev pub mapping_states : List String
mapping_states =
    "NOT_REQUIRED" ∷ "ACQUIRING" ∷ "FIRST_HOP_MAPPED" ∷ "PUBLIC_CANDIDATE" ∷ "LOST" ∷ "ERROR" ∷ []

abbrev pub keepalive_states : List String
keepalive_states = "NOT_REQUIRED" ∷ "HEALTHY" ∷ "DEGRADED" ∷ "LOST" ∷ []

abbrev pub wan_reachability_states : List String
wan_reachability_states =
    "NOT_TESTED" ∷ "PROBING" ∷ "OPEN_FROM_VANTAGE" ∷ "REJECTED" ∷ "TIMEOUT"
    ∷ "NO_INDEPENDENT_VANTAGE" ∷ "PROBE_INFRA_UNAVAILABLE" ∷ "UNKNOWN" ∷ []

abbrev pub return_path_states : List String
return_path_states = "NOT_TESTED" ∷ "VERIFIED" ∷ "FAILED" ∷ "UNKNOWN" ∷ []

abbrev pub target_health_states : List String
target_health_states = "PASS" ∷ "FAIL" ∷ "SKIPPED" ∷ "UNSUPPORTED" ∷ "UNKNOWN" ∷ []

abbrev pub publication_states : List String
publication_states =
    "NONE" ∷ "PUBLISHED_VERIFIED" ∷ "PUBLISHED_UNVERIFIED" ∷ "STALE" ∷ "UNPUBLISHED" ∷ []

abbrev pub data_plane_states : List String
data_plane_states = "STOPPED" ∷ "READY" ∷ "DEGRADED" ∷ "ERROR" ∷ []

abbrev pub activation_axes : List (String × List String)
activation_axes =
    ("control_state", control_states)
    ∷ ("listener_state", listener_states)
    ∷ ("mapping_state", mapping_states)
    ∷ ("keepalive_state", keepalive_states)
    ∷ ("wan_reachability_state", wan_reachability_states)
    ∷ ("return_path_state", return_path_states)
    ∷ ("target_health_state", target_health_states)
    ∷ ("publication_state", publication_states)
    ∷ ("data_plane_state", data_plane_states)
    ∷ []

valid_in : List (String × List String) → String → String → Bool
valid_in [] axis value = false
valid_in ((name, states) ∷ axes) axis value =
    if str_eq name axis then contains states value else valid_in axes axis value

unfoldable pub valid_axis_value : String → String → Bool
unfolding valid_in
valid_axis_value = valid_in activation_axes

field : String → List (String × String) → Option String
field name [] = none
field name ((n, v) ∷ m) = if str_eq n name then some v else field name m

-- One round of the loop over the axes.
check_axis : String → List String → Option String → Option Error
check_axis name states none = some (missing_axis name)
check_axis name states (some v) = if contains states v then none else some (illegal_value name v)

check_axes : List (String × List String) → List (String × String) → Option Error
unfolding field check_axis
check_axes [] m = none
check_axes ((name, states) ∷ axes) m =
    let rest = check_axes axes m in
    elim (check_axis name states (field name m)) [ some e ↦ some e | none ↦ rest ]

unfoldable pub valid_activation_snapshot : List (String × String) → Option Error
unfolding check_axes
valid_activation_snapshot m =
    if length m == length activation_axes
    then check_axes activation_axes m
    else some wrong_axis_count

pub record ActivationStates : Type 0 where
  pub control_state : String
  pub listener_state : String
  pub mapping_state : String
  pub keepalive_state : String
  pub wan_reachability_state : String
  pub return_path_state : String
  pub target_health_state : String
  pub publication_state : String
  pub data_plane_state : String

unfoldable pub validate_publication : String → String → String → Option Error
validate_publication pub_state wan_reach return_path =
    if str_eq pub_state "PUBLISHED_VERIFIED"
    then if not (str_eq wan_reach "OPEN_FROM_VANTAGE")
      then some verified_requires_open
      else if not (str_eq return_path "VERIFIED")
      then some verified_requires_return_path
      else none
    else if str_eq pub_state "PUBLISHED_UNVERIFIED" && str_eq wan_reach "OPEN_FROM_VANTAGE"
    then some unverified_claims_open
    else none

unfoldable pub validate_axis_relations : String → String → String → String → Option Error
unfolding validate_publication
validate_axis_relations mapping_state wan_reach return_path pub_state =
    if str_eq mapping_state "FIRST_HOP_MAPPED" && str_eq return_path "VERIFIED"
    then some first_hop_never_verified
    else elim (validate_publication pub_state wan_reach return_path) [
      | some e ↦ some e
      | none ↦
          if str_eq pub_state "PUBLISHED_VERIFIED" && str_eq mapping_state "FIRST_HOP_MAPPED"
          then some verified_on_first_hop
          else none
    ]

abbrev pub snapshot_of : ActivationStates → List (String × String)
snapshot_of s =
    ("control_state", s.control_state)
    ∷ ("listener_state", s.listener_state)
    ∷ ("mapping_state", s.mapping_state)
    ∷ ("keepalive_state", s.keepalive_state)
    ∷ ("wan_reachability_state", s.wan_reachability_state)
    ∷ ("return_path_state", s.return_path_state)
    ∷ ("target_health_state", s.target_health_state)
    ∷ ("publication_state", s.publication_state)
    ∷ ("data_plane_state", s.data_plane_state)
    ∷ []

unfoldable pub validate : ActivationStates → Option Error
unfolding valid_activation_snapshot validate_axis_relations
validate s = elim (valid_activation_snapshot (snapshot_of s)) [
  | some e ↦ some e
  | none ↦
      validate_axis_relations s.mapping_state s.wan_reachability_state s.return_path_state
        s.publication_state
]
