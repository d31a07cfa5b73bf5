-- ===== src/Traversal/Stun/Attributes.antt =====
-- internal/traversal/stun/message.go: the values of the address, error-code and unknown-attributes
-- attributes.
pub mod Addresses
pub mod Codes
mod Tests
use anti_nat_agent.Base.{
  ℕ, zero, suc, ◌+◌, ◌-◌, ◌*◌, ◌/◌, ◌%◌, Bool, true, false, not, ◌&&◌, ◌||◌, Option, none, some,
  List, [], ◌∷◌, ◌++◌, ◌==◌, ltb, if◌then◌else◌, length, drop, get_or, Bytes, bytes_eq, take, be,
  put_be, chunk, slice, index, Result, ok, err, panic, ◌>>=◌, ◌>>◌, fail_if,
}
use anti_nat_agent.Protocol.Endpoint.{Addr, invalid, v4, v6}
use anti_nat_agent.Traversal.Stun.{
  Error, malformed, unknown_family, duplicate_address_attr, code_out_of_range, Message, add,
  get_attribute, count, magic_cookie, attr_error_code, attr_unknown_attributes,
  attr_xor_mapped_address, attr_alternate_server, message_type_binding_error,
}
use anti_nat_agent.Traversal.Stun.Xor.{xor_bits}

-- A `netip.AddrPort`. Only the address of an IPv6 address has a zone, and it may be empty.
pub record AddrPort : Type 0 where
  pub addr : Addr
  pub zone : Bytes
  pub port : ℕ

-- The prefix ::ffff:0:0/96.
abbrev pub is_4_in_6 : Bytes → Bool
is_4_in_6 b = bytes_eq (take 12 b) (0 ∷ 0 ∷ 0 ∷ 0 ∷ 0 ∷ 0 ∷ 0 ∷ 0 ∷ 0 ∷ 0 ∷ 255 ∷ 255 ∷ [])

-- The mask of a port is the cookie's upper half.
abbrev pub mask_port : Bool → ℕ → ℕ
mask_port xor port = if xor then xor_bits 16 port 0x2112 else port

abbrev pub mask_byte : Bool → ℕ → ℕ → ℕ
mask_byte xor b k = if xor then xor_bits 8 b k else b

-- Byte by byte, as far as the mask goes.
unfoldable pub mask_bytes : Bool → Bytes → Bytes → Bytes
mask_bytes xor [] ks = []
mask_bytes xor (b ∷ bs) [] = b ∷ bs
mask_bytes xor (b ∷ bs) (k ∷ ks) = mask_byte xor b k ∷ mask_bytes xor bs ks

-- cookieTxid
abbrev pub cookie_txid : Bytes → Bytes
cookie_txid txid = 0x21 ∷ 0x12 ∷ 0xA4 ∷ 0x42 ∷ txid

-- The value of an address attribute, masked or plain; none for an address of neither family. Its
-- bytes are those of `As4` or `As16`, which leave the zone out.
unfoldable pub address_value : Bool → Bytes → ℕ → Addr → Option Bytes
address_value xor txid port invalid = none
address_value xor txid port (v4 b0 b1 b2 b3) = some (
    0
    ∷ 1
    ∷ (put_be 2 (mask_port xor port)
        ++ mask_byte xor b0 0x21
          ∷ mask_byte xor b1 0x12
          ∷ mask_byte xor b2 0xA4
          ∷ mask_byte xor b3 0x42
          ∷ []))
address_value xor txid port (v6 b) =
    if is_4_in_6 b
    then none
    else some (0 ∷ 2 ∷ (put_be 2 (mask_port xor port) ++ mask_bytes xor b (cookie_txid txid)))

abbrev pub added : ℕ → Option Bytes → Message → Result Error Message
added t none m = err unknown_family
added t (some value) m = ok (add t value m)

unfoldable pub add_xor_mapped_address : AddrPort → Message → Result Error Message
add_xor_mapped_address a m =
    if not (count attr_xor_mapped_address m.attributes == 0)
    then err duplicate_address_attr
    else added attr_xor_mapped_address (address_value true m.transaction_id a.port a.addr) m

unfoldable pub add_alternate_server : AddrPort → Message → Result Error Message
add_alternate_server a m =
    added attr_alternate_server (address_value false m.transaction_id a.port a.addr) m

abbrev pub v4_of : Bool → ℕ → Bytes → Result Error AddrPort
v4_of xor port value =
    if ltb (length value) 8
    then err malformed
    else ok (record {
      addr =
          v4 (mask_byte xor (get_or value 4 0) 0x21) (mask_byte xor (get_or value 5 0) 0x12)
            (mask_byte xor (get_or value 6 0) 0xA4) (mask_byte xor (get_or value 7 0) 0x42);
      zone = [];
      port = port;
    })

abbrev pub v6_of : Bool → ℕ → Bytes → Bytes → Result Error AddrPort
v6_of xor port txid value =
    if ltb (length value) 20
    then err malformed
    else ok (record {
      addr = v6 (mask_bytes xor (chunk 4 16 value) (cookie_txid txid));
      zone = [];
      port = port;
    })

-- The slices and indices of the code are in bounds after its length tests.
unfoldable pub decode_address_attribute : Bytes → Bytes → Bool → Result Error AddrPort
decode_address_attribute value txid xor =
    let port = mask_port xor (be (chunk 2 2 value)) in
    if ltb (length value) 4
    then err malformed
    else if get_or value 1 0 == 1
    then v4_of xor port value
    else if get_or value 1 0 == 2
    then v6_of xor port txid value
    else err unknown_family

abbrev pub single_address : ℕ → Bool → Message → Option Bytes → Result Error AddrPort
single_address t xor m none = err unknown_family
single_address t xor m (some value) =
    if ltb 1 (count t m.attributes)
    then err duplicate_address_attr
    else decode_address_attribute value m.transaction_id xor

unfoldable pub xor_mapped_address : Message → Result Error AddrPort
xor_mapped_address m =
    single_address attr_xor_mapped_address true m
      (get_attribute attr_xor_mapped_address m.attributes)

unfoldable pub alternate_server : Message → Result Error AddrPort
alternate_server m =
    single_address attr_alternate_server false m (get_attribute attr_alternate_server m.attributes)

-- A code is an `int`; a negative one is refused as one below 300 is.
unfoldable pub set_error_code : ℕ → Bytes → Message → Result Error Message
set_error_code code reason m =
    if ltb code 300 || ltb 699 code
    then err code_out_of_range
    else ok (add attr_error_code (0 ∷ 0 ∷ code / 100 % 256 ∷ code % 100 ∷ reason) m)

abbrev pub read_code : ℕ → Option Bytes → Result Error (ℕ × Bytes)
read_code n none = err malformed
read_code n (some value) =
    let code = get_or value 2 0 * 100 + get_or value 3 0 in
    if ltb 1 n || ltb (length value) 4
    then err malformed
    else if ltb code 300 || ltb 699 code
    then err malformed
    else ok (code, drop 4 value)

unfoldable pub error_code : Message → Result Error (ℕ × Bytes)
error_code m =
    read_code (count attr_error_code m.attributes) (get_attribute attr_error_code m.attributes)

-- `_ = msg.SetErrorCode(code, reason)`
abbrev pub or_same : Message → Result Error Message → Message
or_same m (ok m') = m'
or_same m (err e) = m
or_same m panic = m

unfoldable pub new_error_response : Bytes → ℕ → Bytes → Message
unfolding set_error_code
new_error_response txid code reason =
    let m : Message = record {
      kind = message_type_binding_error;
      transaction_id = txid;
      attributes = [];
      raw = [];
    } in
    or_same m (set_error_code code reason m)

unfoldable pub types_value : List ℕ → Bytes
types_value [] = []
types_value (t ∷ ts) = put_be 2 t ++ types_value ts

unfoldable pub add_unknown_attributes : List ℕ → Message → Message
unfolding types_value
add_unknown_attributes ts m = add attr_unknown_attributes (types_value ts) m

-- The loop over pairs of bytes.
unfoldable pub types_of : Bytes → List ℕ
types_of [] = []
types_of (a ∷ []) = []
types_of (a ∷ b ∷ bs) = (a * 256 + b) ∷ types_of bs

abbrev pub read_types : Option Bytes → Result Error (List ℕ)
read_types none = ok []
read_types (some value) = if not (length value % 2 == 0) then err malformed else ok (types_of value)

unfoldable pub unknown_attributes : Message → Result Error (List ℕ)
unfolding types_of
unknown_attributes m = read_types (get_attribute attr_unknown_attributes m.attributes)
