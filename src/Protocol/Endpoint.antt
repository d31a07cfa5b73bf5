-- ===== src/Protocol/Endpoint.antt =====
-- internal/protocol/endpoint.go: the classes of IP literals. A `netip.Addr` is the zero value or its
-- bytes, with no zone, and what net/netip says of an address is read off its bytes.
pub mod Global
mod Tests
use Prim.Native.Nat.{bit_and}
use anti_nat_agent.Base.{
  ℕ, Bool, true, false, ◌&&◌, ◌||◌, List, [], ◌∷◌, ◌==◌, leb, if◌then◌else◌, take, get_or,
}

pub data EndpointClass : Type 0 where
  unspecified loopback rfc1918 cgnat link_local benchmark documentation multicast : EndpointClass
  reserved global_unicast ipv4_mapped_ipv6 : EndpointClass

pub data Addr : Type 0 where
  invalid : Addr
  v4 : (b0 b1 b2 b3 : ℕ) → Addr
  -- Sixteen bytes.
  v6 : List ℕ → Addr

-- From the ranges that the Internet registries keep for themselves on.
classify_registries : ℕ → ℕ → ℕ → EndpointClass
classify_registries b0 b1 b2 =
    if b0 == 192 && (b1 == 0 && b2 == 0)
    then reserved
    else if b0 == 192 && (b1 == 31 && b2 == 196)
    then reserved
    else if b0 == 192 && (b1 == 52 && b2 == 193)
    then reserved
    else if b0 == 192 && (b1 == 88 && b2 == 99)
    then reserved
    else if b0 == 192 && (b1 == 175 && b2 == 48)
    then reserved
    else if leb 224 b0 && leb b0 239
    then multicast
    else if b0 == 0
    then reserved
    else if leb 240 b0
    then reserved
    else global_unicast

unfoldable pub classify_ipv4 : ℕ → ℕ → ℕ → EndpointClass
unfolding classify_registries
classify_ipv4 b0 b1 b2 =
    if b0 == 10
    then rfc1918
    else if b0 == 172 && (leb 16 b1 && leb b1 31)
    then rfc1918
    else if b0 == 192 && b1 == 168
    then rfc1918
    else if b0 == 100 && (leb 64 b1 && leb b1 127)
    then cgnat
    else if b0 == 169 && b1 == 254
    then link_local
    else if b0 == 198 && (leb 18 b1 && leb b1 19)
    then benchmark
    else if b0 == 192 && (b1 == 0 && b2 == 2)
    then documentation
    else if b0 == 198 && (b1 == 51 && b2 == 100)
    then documentation
    else if b0 == 203 && (b1 == 0 && b2 == 113)
    then documentation
    else classify_registries b0 b1 b2

all_zero : List ℕ → Bool
all_zero [] = true
all_zero (b ∷ bs) = b == 0 && all_zero bs

classify_ipv6 : List ℕ → EndpointClass
unfolding all_zero
classify_ipv6 v =
    if all_zero (take 10 v) && (get_or v 10 0 == 0xff && get_or v 11 0 == 0xff)
    then ipv4_mapped_ipv6
    else if all_zero v
    then unspecified
    else if all_zero (take 15 v) && get_or v 15 0 == 1
    then loopback
    else if get_or v 0 0 == 0xfe && bit_and (get_or v 1 0) 0xc0 == 0x80
    then link_local
    else if get_or v 0 0 == 0xff
    then multicast
    else if bit_and (get_or v 0 0) 0xfe == 0xfc
    then rfc1918
    else if get_or v 0 0 == 0x20
        && (get_or v 1 0 == 0x01 && (get_or v 2 0 == 0x0d && get_or v 3 0 == 0xb8))
    then documentation
    else global_unicast

unfoldable pub classify_ip : Addr → EndpointClass
unfolding classify_ipv4 classify_ipv6
classify_ip invalid = unspecified
classify_ip (v4 b0 b1 b2 b3) =
    if b0 == 0 && (b1 == 0 && (b2 == 0 && b3 == 0))
    then unspecified
    else if b0 == 127
    then loopback
    else classify_ipv4 b0 b1 b2
classify_ip (v6 v) = classify_ipv6 v

abbrev pub is_global_class : EndpointClass → Bool
is_global_class documentation = true
is_global_class global_unicast = true
is_global_class _ = false

unfoldable pub is_global_endpoint : Addr → Bool
unfolding classify_ip
is_global_endpoint (v4 b0 b1 b2 b3) = is_global_class (classify_ip (v4 b0 b1 b2 b3))
is_global_endpoint _ = false
