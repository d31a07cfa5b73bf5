-- ===== src/Traversal/Pcp/Tests.antt =====
-- Runs and witnesses of the PCP codec.
use anti_nat_agent.Base.{◌≡◌, refl, [], ◌∷◌, ◌++◌, ok, err, Bytes, replicate, slice, index}
use anti_nat_agent.Protocol.Endpoint.{v4}
use anti_nat_agent.Traversal.Pcp.{
  MapResponse, v4_mapped, mapped_to_v4, parse_announce_response, parse_map_response, parse_granted,
  wrong_version,
}
use anti_nat_agent.Traversal.Pcp.Granted.{Grants, parse_map_response-granted}

-- UDP port 5000 was granted as 203.0.113.7:6000 for 3600 seconds.
abbrev granted_packet : Bytes
granted_packet =
    (2 ∷ 129 ∷ 0 ∷ 0 ∷ 0 ∷ 0 ∷ 14 ∷ 16 ∷ 0 ∷ 0 ∷ 0 ∷ 9 ∷ [])
    ++ (replicate 12 0
        ++ (replicate 12 7
            ++ ((17 ∷ 0 ∷ 0 ∷ 0 ∷ 19 ∷ 136 ∷ 23 ∷ 112 ∷ []) ++ v4_mapped (v4 203 0 113 7))))

abbrev grant : MapResponse
grant = record {
  result_code = 0;
  lifetime_seconds = 3600;
  epoch = 9;
  nonce = replicate 12 7;
  protocol = 17;
  internal_port = 5000;
  assigned_external_port = 6000;
  assigned_external_address = v4 203 0 113 7;
}

grant_is_read : parse_map_response granted_packet 17 5000 ≡ ok grant
unfolding parse_map_response parse_granted mapped_to_v4 slice index
grant_is_read = refl

natpmp_version : parse_announce_response (replicate 24 0) ≡ err wrong_version
unfolding parse_announce_response slice index
natpmp_version = refl

parse_map_response-granted_example : Grants granted_packet 17 5000 grant
parse_map_response-granted_example =
    parse_map_response-granted granted_packet 17 5000 grant grant_is_read refl
