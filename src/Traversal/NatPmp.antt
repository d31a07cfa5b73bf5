-- ===== src/Traversal/NatPmp.antt =====
-- internal/traversal/natpmp: the wire codec of natpmp.go and the protocols and requests of client.go.
pub mod Wire
mod Tests
use anti_nat_agent.Base.{
  ℕ, ◌+◌, ◌-◌, ◌*◌, ◌/◌, ◌%◌, ◌^◌, Bool, true, false, not, ◌&&◌, ◌||◌, Option, none, some, List, [],
  ◌∷◌, ◌++◌, ltb, ◌==◌, if◌then◌else◌, Result, ok, err, panic, ◌>>=◌, ◌>>◌, fail_if, Bytes, length,
  slice, index, be, put_be, is_neg,
}
use anti_nat_agent.Protocol.Endpoint.{Addr, v4, v6, invalid}

pub data Error : Type 0 where
  truncated wrong_version wrong_opcode internal_port_mismatch bad_public_address trailing_bytes
        unsupported_protocol :
      Error

abbrev pub version : ℕ
version = 0

abbrev pub response_op_base : ℕ
response_op_base = 128

abbrev pub response_size : ℕ
response_size = 16

abbrev pub public_response_size : ℕ
public_response_size = 12

-- Protocol.Valid and Protocol.opcode, of a byte.
abbrev pub is_protocol : ℕ → Bool
is_protocol p = p == 1 || p == 2

abbrev pub opcode : ℕ → ℕ
opcode p = if p == 1 then 1 else if p == 2 then 2 else 0

-- `uint32(d / time.Second)` of the 64-bit pattern of a time.Duration; Go divides towards zero.
unfoldable pub whole_seconds : ℕ → ℕ
whole_seconds d =
    if is_neg d
    then (2 ^ 32 - (2 ^ 64 - d) / 1_000_000_000 % 2 ^ 32) % 2 ^ 32
    else d / 1_000_000_000 % 2 ^ 32

pub record MapRequest : Type 0 where
  pub protocol : ℕ
  pub internal_port : ℕ
  pub requested_external_port : ℕ
  pub lifetime : ℕ

unfoldable pub build_map_request : MapRequest → Result Error Bytes
build_map_request req =
    if not (is_protocol req.protocol)
    then err unsupported_protocol
    else ok (
        version
        ∷ opcode req.protocol
        ∷ 0
        ∷ 0
        ∷ (put_be 2 req.internal_port
            ++ (put_be 2 req.requested_external_port ++ put_be 4 (whole_seconds req.lifetime))))

pub record MapResponse : Type 0 where
  pub result_code : ℕ
  pub epoch : ℕ
  pub internal_port : ℕ
  pub assigned_external_port : ℕ
  pub lifetime_seconds : ℕ

unfoldable pub parse_map_response : Bytes → ℕ → ℕ → Result Error MapResponse
parse_map_response packet want_opcode want_internal_port = do
  fail_if (ltb (length packet) response_size) truncated
  b0 ← index packet 0
  fail_if (not (b0 == version)) wrong_version
  b1 ← index packet 1
  fail_if (not (b1 == (want_opcode + response_op_base) % 256)) wrong_opcode
  result_code ← slice packet 2 4
  epoch ← slice packet 4 8
  internal_port ← slice packet 8 10
  assigned_external_port ← slice packet 10 12
  lifetime_seconds ← slice packet 12 16
  fail_if (not (length packet == response_size)) trailing_bytes
  fail_if (be result_code == 0 && not (be internal_port == want_internal_port))
      internal_port_mismatch
  ok (record {
    result_code = be result_code;
    epoch = be epoch;
    internal_port = be internal_port;
    assigned_external_port = be assigned_external_port;
    lifetime_seconds = be lifetime_seconds;
  })

-- netip.AddrFromSlice; a slice of another length is no address.
abbrev pub addr_from_slice : Bytes → Option Addr
addr_from_slice (a ∷ b ∷ c ∷ d ∷ []) = some (v4 a b c d)
addr_from_slice bs = if length bs == 16 then some (v6 bs) else none

-- `!ok || !address.Is4()` fails; the address otherwise.
abbrev pub only_v4 : Option Addr → Option Addr
only_v4 (some (v4 a b c d)) = some (v4 a b c d)
only_v4 _ = none

abbrev pub from_option : Option Addr → Result Error Addr
from_option none = err bad_public_address
from_option (some a) = ok a

pub record PublicResponse : Type 0 where
  pub result_code : ℕ
  pub epoch : ℕ
  pub address : Addr

unfoldable pub parse_public_response : Bytes → Result Error PublicResponse
parse_public_response packet = do
  fail_if (ltb (length packet) public_response_size) truncated
  b0 ← index packet 0
  fail_if (not (b0 == version)) wrong_version
  b1 ← index packet 1
  fail_if (not (b1 == response_op_base)) wrong_opcode
  fail_if (not (length packet == public_response_size)) trailing_bytes
  field ← slice packet 8 12
  address ← from_option (only_v4 (addr_from_slice field))
  result_code ← slice packet 2 4
  epoch ← slice packet 4 8
  ok (record { result_code = be result_code; epoch = be epoch; address = address })
