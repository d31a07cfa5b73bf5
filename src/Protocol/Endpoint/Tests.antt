-- ===== src/Protocol/Endpoint/Tests.antt =====
-- Runs and witnesses of the address classes.
use anti_nat_agent.Base.{◌≡◌, refl, not, arith, [], ◌∷◌}
use anti_nat_agent.Protocol.Endpoint.{
  v4, v6, rfc1918, documentation, classify_ip, is_global_endpoint,
}
use anti_nat_agent.Protocol.Endpoint.Global.{
  address_of, special_networks, in_networks, is_global_endpoint-networks,
}

unique_local_is_private :
    classify_ip (v6 (0xfd ∷ 0 ∷ 0 ∷ 0 ∷ 0 ∷ 0 ∷ 0 ∷ 0 ∷ 0 ∷ 0 ∷ 0 ∷ 0 ∷ 0 ∷ 0 ∷ 0 ∷ 9 ∷ []))
    ≡ rfc1918
unfolding classify_ip
unique_local_is_private = refl

test_net_is_documentation : classify_ip (v4 203 0 113 7) ≡ documentation
unfolding classify_ip
test_net_is_documentation = refl

is_global_endpoint-networks_example :
    is_global_endpoint (v4 100 64 0 1) ≡ not (in_networks special_networks (address_of 100 64 0 1))
is_global_endpoint-networks_example =
    is_global_endpoint-networks 100 64 0 1 (omega arith) (omega arith) (omega arith) (omega arith)
