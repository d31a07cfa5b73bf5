-- ===== src/Traversal/Stun.antt =====
-- internal/traversal/stun/message.go: the STUN message codec. A slice that the code writes into a
-- zeroed buffer at running offsets is here the parts one after another. A `uint16` is below 2 ^ 16.
mod Xor
pub mod Types
pub mod Sections
pub mod RoundTrip
pub mod Attributes
mod Tests
use anti_nat_agent.Base.{
  ℕ, zero, suc, ◌+◌, ◌-◌, ◌*◌, ◌/◌, ◌%◌, ◌≡◌, Bool, true, false, not, ◌&&◌, ◌||◌, Option, none,
  some, List, [], ◌∷◌, ◌++◌, ◌==◌, ltb, leb, if◌then◌else◌, length, replicate, take, drop, get_or,
  Bytes, bytes_eq, be, put_be, slice, Result, ok, err, panic, ◌>>=◌, ◌>>◌, fail_if,
}
use anti_nat_agent.Protocol.Endpoint.{Addr, invalid, v4, v6}
use anti_nat_agent.Traversal.Stun.Xor.{xor_bits}

pub data Error : Type 0 where
  truncated malformed bad_cookie oversize no_integrity no_fingerprint : Error
  unknown_family duplicate_address_attr code_out_of_range already_there : Error

abbrev pub magic_cookie : ℕ
magic_cookie = 0x2112A442

abbrev pub header_size : ℕ
header_size = 20

abbrev pub max_message_size : ℕ
max_message_size = 65535

abbrev pub message_type_binding_request : ℕ
message_type_binding_request = 0x0001

abbrev pub message_type_binding_error : ℕ
message_type_binding_error = 0x0111

-- v&0x000F | (v>>1)&0x0070 | (v>>2)&0x0F80, of parts with no common bit.
unfoldable pub method : ℕ → ℕ
method v = v % 16 + v / 32 % 8 * 16 + v / 512 % 32 * 128

-- (v>>7)&0x2 | (v>>4)&0x1
unfoldable pub class : ℕ → ℕ
class v = v / 256 % 2 * 2 + v / 16 % 2

-- m&0x000F | (m&0x0070)<<1 | (m&0x0F80)<<2 | (c&0x2)<<7 | (c&0x1)<<4
unfoldable pub new_message_type : ℕ → ℕ → ℕ
new_message_type m c = m % 16 + m / 16 % 8 * 32 + m / 128 % 32 * 512 + c / 2 % 2 * 256 + c % 2 * 16

abbrev pub attr_error_code : ℕ
attr_error_code = 0x0009

abbrev pub attr_unknown_attributes : ℕ
attr_unknown_attributes = 0x000A

abbrev pub attr_xor_mapped_address : ℕ
attr_xor_mapped_address = 0x0020

abbrev pub attr_alternate_server : ℕ
attr_alternate_server = 0x0023

abbrev pub attr_fingerprint : ℕ
attr_fingerprint = 0x8028

-- The top bit of the type is clear.
unfoldable pub comprehension_required : ℕ → Bool
comprehension_required t = t / 0x8000 % 2 == 0

abbrev pub is_one_of : ℕ → List ℕ → Bool
is_one_of t [] = false
is_one_of t (x ∷ xs) = t == x || is_one_of t xs

unfoldable pub known : ℕ → Bool
known t = is_one_of t (
    0x0001 ∷ 0x0006 ∷ 0x0008 ∷ 0x0009 ∷ 0x000A ∷ 0x0020 ∷ 0x0023 ∷ 0x0024 ∷ 0x8022 ∷ 0x8029 ∷ 0x8028
    ∷ [])

pub record Attribute : Type 0 where
  pub kind : ℕ
  pub value : Bytes

-- `raw` is the wire of a message that was parsed, and empty in one that is built.
pub record Message : Type 0 where
  pub kind : ℕ
  pub transaction_id : Bytes
  pub attributes : List Attribute
  pub raw : Bytes

unfoldable pub new_binding_request : Bytes → Message
new_binding_request txid = record {
  kind = message_type_binding_request;
  transaction_id = txid;
  attributes = [];
  raw = [];
}

unfoldable pub add : ℕ → Bytes → Message → Message
add t value m = record m { attributes = m.attributes ++ record { kind = t; value = value } ∷ [] }

unfoldable pub get_attribute : ℕ → List Attribute → Option Bytes
get_attribute t [] = none
get_attribute t (a ∷ as') =
    let rest = get_attribute t as' in if a.kind == t then some a.value else rest

unfoldable pub count : ℕ → List Attribute → ℕ
count t [] = 0
count t (a ∷ as') = let rest = count t as' in if a.kind == t then 1 + rest else rest

-- The loop of UnknownComprehensionRequired, with the types seen so far.
unfoldable pub unknown_after : List ℕ → List Attribute → List ℕ
unknown_after seen [] = []
unknown_after seen (a ∷ as') =
    let rest = unknown_after seen as' in
    let rest' = unknown_after (a.kind ∷ seen) as' in
    if comprehension_required a.kind && not (known a.kind) && not (is_one_of a.kind seen)
    then a.kind ∷ rest'
    else rest

unfoldable pub unknown_comprehension_required : Message → List ℕ
unknown_comprehension_required m = unknown_after [] m.attributes

-- (n + 3) &^ 3
abbrev pub padded : ℕ → ℕ
padded n = (n + 3) / 4 * 4

abbrev pub last_kind : List Attribute → Option ℕ
last_kind [] = none
last_kind (a ∷ []) = some a.kind
last_kind (a ∷ b ∷ as') = last_kind (b ∷ as')

-- Whether the last attribute has the type; an index of -1 would panic.
abbrev pub ends_with : ℕ → Option ℕ → Result Error Bool
ends_with t none = panic
ends_with t (some k) = ok (k == t)

-- The attribute loop. A round takes at least four bytes, so that as many rounds as there are bytes
-- are enough; the end of the fuel is a panic.
unfoldable pub parse_attributes : ℕ → Bytes → Result Error (List Attribute)
parse_attributes zero rest = if length rest == 0 then ok [] else panic
parse_attributes (suc fuel) rest =
    let round : Result Error (List Attribute) = (do
      fail_if (ltb (length rest) 4) malformed
      t ← slice rest 0 2
      n ← slice rest 2 4
      fail_if (ltb (length rest - 4) (be n)) truncated
      value ← slice rest 4 (4 + be n)
      later ← slice rest (padded (4 + be n)) (length rest)
      more ← parse_attributes fuel later
      ok (record { kind = be t; value = value } ∷ more)) in
    if length rest == 0 then ok [] else round

-- The part of ParseMessage after the header.
abbrev pub check_fingerprint_last : Message → Result Error Message
check_fingerprint_last m =
    if count attr_fingerprint m.attributes == 0
    then ok m
    else (ends_with attr_fingerprint (last_kind m.attributes) >>= λ last.
        if last then ok m else err malformed)

unfoldable pub parse_message : Bytes → Result Error Message
parse_message wire = do
  fail_if (ltb (length wire) header_size) truncated
  cookie ← slice wire 4 8
  fail_if (not (be cookie == magic_cookie)) bad_cookie
  size ← slice wire 2 4
  fail_if (ltb max_message_size (be size)) oversize
  fail_if (not (be size % 4 == 0)) malformed
  fail_if (ltb (length wire - header_size) (be size)) truncated
  t ← slice wire 0 2
  txid ← slice wire 8 20
  raw ← slice wire 0 (header_size + be size)
  rest ← slice wire header_size (header_size + be size)
  attributes ← parse_attributes (length rest) rest
  check_fingerprint_last
      (record { kind = be t; transaction_id = txid; attributes = attributes; raw = raw })

unfoldable pub attribute_section_length : List Attribute → ℕ
attribute_section_length [] = 0
attribute_section_length (a ∷ as') = 4 + padded (length a.value) + attribute_section_length as'

unfoldable pub marshal_attribute : Attribute → Bytes
marshal_attribute a =
    put_be 2 a.kind
    ++ put_be 2 (length a.value)
    ++ a.value
    ++ replicate (padded (length a.value) - length a.value) 0

unfoldable pub marshal_attributes : List Attribute → Bytes
marshal_attributes [] = []
marshal_attributes (a ∷ as') = marshal_attribute a ++ marshal_attributes as'

-- The header with the given length field.
unfoldable pub header : Message → ℕ → Bytes
header m size = put_be 2 m.kind ++ put_be 2 size ++ put_be 4 magic_cookie ++ m.transaction_id

unfoldable pub marshal : Message → Result Error Bytes
marshal m =
    let section = attribute_section_length m.attributes in
    if ltb max_message_size section
    then err oversize
    else ok (header m section ++ marshal_attributes m.attributes)
