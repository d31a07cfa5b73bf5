-- ===== src/Traversal/NatPmp/Tests.antt =====
-- Runs and witnesses of the NAT-PMP codec.
use anti_nat_agent.Base.{◌≡◌, ◌≢◌, ◌⊎◌, ◌↔◌, refl, [], ◌∷◌, ok, Bytes, slice, index, arith}
use anti_nat_agent.Protocol.Endpoint.{v4}
use anti_nat_agent.Traversal.NatPmp.{
  MapRequest, MapResponse, build_map_request, whole_seconds, parse_map_response,
  parse_public_response,
}
use anti_nat_agent.Traversal.NatPmp.Wire.{map_response_packet, parse_map_response_iff}

abbrev request : MapRequest
request = record {
  protocol = 2;
  internal_port = 5000;
  requested_external_port = 6000;
  lifetime = 3_600_500_000_000;
}

request_bytes :
    build_map_request request ≡ ok (0 ∷ 2 ∷ 0 ∷ 0 ∷ 19 ∷ 136 ∷ 23 ∷ 112 ∷ 0 ∷ 0 ∷ 14 ∷ 16 ∷ [])
unfolding build_map_request whole_seconds
request_bytes = refl

abbrev granted : MapResponse
granted = record {
  result_code = 0;
  epoch = 77;
  internal_port = 5000;
  assigned_external_port = 6001;
  lifetime_seconds = 3600;
}

abbrev granted_packet : Bytes
granted_packet = map_response_packet 2 granted

public_address :
    parse_public_response (0 ∷ 128 ∷ 0 ∷ 0 ∷ 0 ∷ 0 ∷ 0 ∷ 1 ∷ 203 ∷ 0 ∷ 113 ∷ 7 ∷ [])
    ≡ ok (record { result_code = 0; epoch = 1; address = v4 203 0 113 7 })
unfolding parse_public_response slice index
public_address = refl

parse_map_response_iff_example : (parse_map_response granted_packet 2 5000 ≡ ok granted) ↔ (
    (granted_packet ≡ map_response_packet 2 granted)
    × ((granted.result_code ≢ 0) ⊎ (granted.internal_port ≡ 5000)))
parse_map_response_iff_example =
    parse_map_response_iff granted_packet 2 5000 granted (ground arith) (record {
      result_code_16 = omega arith;
      epoch_32 = omega arith;
      internal_port_16 = omega arith;
      assigned_external_port_16 = omega arith;
      lifetime_seconds_32 = omega arith;
    })
