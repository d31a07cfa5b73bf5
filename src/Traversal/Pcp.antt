-- ===== src/Traversal/Pcp.antt =====
-- internal/traversal/pcp/pcp.go: the wire codec of PCP, its mapped addresses, requests and responses.
pub mod Mapped
pub mod Granted
mod Tests
use anti_nat_agent.Base.{
  ℕ, ◌+◌, ◌-◌, ◌*◌, ◌/◌, ◌%◌, ◌^◌, Bool, true, false, not, ◌&&◌, ◌||◌, Option, none, some, List, [],
  ◌∷◌, ◌++◌, ltb, ◌==◌, if◌then◌else◌, Result, ok, err, panic, ◌>>=◌, ◌>>◌, fail_if, Bytes, length,
  slice, index, be, put_be, is_neg, drop, take, replicate,
}
use anti_nat_agent.Protocol.Endpoint.{Addr, v4, v6, invalid}

pub data Error : Type 0 where
  truncated wrong_version wrong_opcode trailing_bytes internal_port_mismatch protocol_mismatch
        bad_mapped_addr unsupported_protocol prefer_failure_requires_port not_concrete_ipv4
        lifetime_out_of_range :
      Error

abbrev pub version : ℕ
version = 2

abbrev pub header_size : ℕ
header_size = 24

abbrev pub map_payload_size : ℕ
map_payload_size = 36

abbrev pub op_code_announce : ℕ
op_code_announce = 0

abbrev pub op_code_map : ℕ
op_code_map = 1

-- `ResponseFlag | OpCode`, of an opcode below 128.
abbrev pub response_flag : ℕ
response_flag = 128

abbrev pub proto_tcp : ℕ
proto_tcp = 6

abbrev pub proto_udp : ℕ
proto_udp = 17

abbrev pub option_prefer_failure : ℕ
option_prefer_failure = 2

-- An address that is not a plain IPv4 one leaves the sixteen bytes zero.
abbrev pub v4_mapped : Addr → Bytes
v4_mapped (v4 a b c d) = replicate 10 0 ++ (0xff ∷ 0xff ∷ a ∷ b ∷ c ∷ d ∷ [])
v4_mapped _ = replicate 16 0

-- `[4]byte(b[12:16])`, whose four bytes are there.
abbrev pub addr_from_4 : Bytes → Result Error Addr
addr_from_4 (a ∷ b ∷ c ∷ d ∷ []) = ok (v4 a b c d)
addr_from_4 _ = panic

-- The loop over the bytes, which stops at one that is not zero.
abbrev pub all_zero : Bytes → Bool
all_zero [] = true
all_zero (b ∷ bs) = let rest = all_zero bs in if b == 0 then rest else false

unfoldable pub mapped_to_v4 : Bytes → Result Error Addr
mapped_to_v4 field = do
  fail_if (not (length field == 16)) bad_mapped_addr
  b10 ← index field 10
  b11 ← index field 11
  last ← slice field 12 16
  top ← slice field 0 12
  if (b10 == 0xff) && (b11 == 0xff)
      then addr_from_4 last
      else if all_zero top
      then addr_from_4 last
      else err bad_mapped_addr

pub record MapRequest : Type 0 where
  pub protocol : ℕ
  pub internal_address : Addr
  pub internal_port : ℕ
  pub suggested_external_port : ℕ
  pub prefer_failure : Bool
  -- The 64-bit pattern of a time.Duration.
  pub lifetime : ℕ

-- `addr.IsValid() && addr.Is4()`
abbrev pub is_plain_v4 : Addr → Bool
is_plain_v4 (v4 a b c d) = true
is_plain_v4 _ = false

unfoldable pub build_map_request : MapRequest → Bytes → Result Error Bytes
build_map_request req nonce = do
  fail_if (not (req.protocol == proto_tcp) && not (req.protocol == proto_udp)) unsupported_protocol
  fail_if (req.prefer_failure && req.suggested_external_port == 0) prefer_failure_requires_port
  fail_if (not (is_plain_v4 req.internal_address)) not_concrete_ipv4
  fail_if (is_neg req.lifetime || ltb 4_294_967_295 (req.lifetime / 1_000_000_000))
      lifetime_out_of_range
  ok (
      (version ∷ op_code_map ∷ 0 ∷ 0 ∷ put_be 4 (req.lifetime / 1_000_000_000))
      ++ (v4_mapped req.internal_address
          ++ (nonce
              ++ ((req.protocol ∷ 0 ∷ 0 ∷ 0 ∷ put_be 2 req.internal_port)
                  ++ (put_be 2 req.suggested_external_port
                      ++ (replicate 16 0
                          ++ (if req.prefer_failure
                              then option_prefer_failure ∷ 0 ∷ 0 ∷ 0 ∷ []
                              else [])))))))

unfoldable pub build_announce_request : Addr → Result Error Bytes
build_announce_request client = do
  fail_if (not (is_plain_v4 client)) not_concrete_ipv4
  ok ((version ∷ op_code_announce ∷ replicate 6 0) ++ v4_mapped client)

pub record MapResponse : Type 0 where
  pub result_code : ℕ
  pub lifetime_seconds : ℕ
  pub epoch : ℕ
  pub nonce : Bytes
  pub protocol : ℕ
  pub internal_port : ℕ
  pub assigned_external_port : ℕ
  pub assigned_external_address : Addr

-- A response with the fields of its payload at their zero values.
abbrev pub header_only : ℕ → ℕ → ℕ → MapResponse
header_only code lifetime epoch = record {
  result_code = code;
  lifetime_seconds = lifetime;
  epoch = epoch;
  nonce = replicate 12 0;
  protocol = 0;
  internal_port = 0;
  assigned_external_port = 0;
  assigned_external_address = invalid;
}

unfoldable pub parse_announce_response : Bytes → Result Error MapResponse
parse_announce_response packet = do
  fail_if (ltb (length packet) header_size) truncated
  fail_if (not (length packet == header_size)) trailing_bytes
  b0 ← index packet 0
  fail_if (not (b0 == version)) wrong_version
  b1 ← index packet 1
  fail_if (not (b1 == response_flag + op_code_announce)) wrong_opcode
  code ← index packet 3
  lifetime ← slice packet 4 8
  epoch ← slice packet 8 12
  ok (header_only code (be lifetime) (be epoch))

-- The payload of a success.
unfoldable pub parse_granted : Bytes → ℕ → ℕ → MapResponse → Result Error MapResponse
parse_granted packet want_protocol want_internal_port response = do
  fail_if (not (length packet == header_size + map_payload_size)) trailing_bytes
  payload ← slice packet header_size (length packet)
  nonce ← slice payload 0 12
  protocol ← index payload 12
  internal_port ← slice payload 16 18
  assigned_external_port ← slice payload 18 20
  field ← slice payload 20 36
  external ← mapped_to_v4 field
  fail_if (not (protocol == want_protocol)) protocol_mismatch
  fail_if (not (be internal_port == want_internal_port)) internal_port_mismatch
  ok (record {
    result_code = response.result_code;
    lifetime_seconds = response.lifetime_seconds;
    epoch = response.epoch;
    nonce = nonce;
    protocol = protocol;
    internal_port = be internal_port;
    assigned_external_port = be assigned_external_port;
    assigned_external_address = external;
  })

unfoldable pub parse_map_response : Bytes → ℕ → ℕ → Result Error MapResponse
parse_map_response packet want_protocol want_internal_port = do
  fail_if (ltb (length packet) header_size) truncated
  fail_if (not (length packet % 4 == 0)) trailing_bytes
  b0 ← index packet 0
  fail_if (not (b0 == version)) wrong_version
  b1 ← index packet 1
  fail_if (not (b1 == response_flag + op_code_map)) wrong_opcode
  code ← index packet 3
  lifetime ← slice packet 4 8
  epoch ← slice packet 8 12
  let response = header_only code (be lifetime) (be epoch)
  if not (code == 0)
      then ok response
      else parse_granted packet want_protocol want_internal_port response
