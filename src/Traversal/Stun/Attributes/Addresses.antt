-- ===== src/Traversal/Stun/Attributes/Addresses.antt =====
-- The address attributes of internal/traversal/stun/message.go, written and read back.
use anti_nat_agent.Base.{
  ℕ, suc, ◌<◌, ◌≡◌, refl, ap, subst, ◌∙◌, Bool, true, false, none, some, List, [], ◌∷◌, ◌++◌, arith,
  inl, inr, Bool-cases, ◌==◌, length, Bytes, AreBytes, be, put_be, be-put_be, take, take_all,
  Option, ok, ok-injective,
}
use anti_nat_agent.Protocol.Endpoint.{Addr, invalid, v4, v6}
use anti_nat_agent.Traversal.Stun.{
  Attribute, Message, add, get_attribute, count, attr_xor_mapped_address,
}
use anti_nat_agent.Traversal.Stun.Xor.{xor_bits-xor_bits, xor_bits-lt}
use anti_nat_agent.Traversal.Stun.Attributes.{
  AddrPort, is_4_in_6, mask_port, mask_byte, mask_bytes, cookie_txid, address_value, added,
  add_xor_mapped_address, decode_address_attribute, single_address, xor_mapped_address,
}

-- An address in the ranges of its parts.
abbrev pub HasWireSize : Addr → Type 0
HasWireSize invalid = Unit {0}
HasWireSize (v4 a b c d) = (a < 256) × (b < 256) × (c < 256) × (d < 256)
HasWireSize (v6 b) = (length b ≡ 16) × AreBytes b

mask_port-mask_port : (x : Bool) (p : ℕ) → p < 65536 → mask_port x (mask_port x p) ≡ p
mask_port-mask_port true p h = xor_bits-xor_bits 16 p 0x2112 h
mask_port-mask_port false p h = refl

mask_port-lt : (x : Bool) (p : ℕ) → p < 65536 → mask_port x p < 65536
mask_port-lt true p h = xor_bits-lt 16 p 0x2112
mask_port-lt false p h = h

mask_byte-mask_byte : (x : Bool) (b k : ℕ) → b < 256 → mask_byte x (mask_byte x b k) k ≡ b
mask_byte-mask_byte true b k h = xor_bits-xor_bits 8 b k h
mask_byte-mask_byte false b k h = refl

mask_bytes-mask_bytes :
    (x : Bool) (bs ks : Bytes) → AreBytes bs → mask_bytes x (mask_bytes x bs ks) ks ≡ bs
unfolding mask_bytes
mask_bytes-mask_bytes x [] ks h = refl
mask_bytes-mask_bytes x (b ∷ bs) [] h = refl
mask_bytes-mask_bytes x (b ∷ bs) (k ∷ ks) h =
    rw (mask_byte-mask_byte x b k h.0, mask_bytes-mask_bytes x bs ks h.1) refl

length-mask_bytes : (x : Bool) (bs ks : Bytes) → length (mask_bytes x bs ks) ≡ length bs
unfolding mask_bytes
length-mask_bytes x [] ks = refl
length-mask_bytes x (b ∷ bs) [] = refl
length-mask_bytes x (b ∷ bs) (k ∷ ks) = ap suc (length-mask_bytes x bs ks)

port_back : (x : Bool) (p : ℕ) → p < 65536 → mask_port x (be (put_be 2 (mask_port x p))) ≡ p
port_back x p h =
    ap (mask_port x) (be-put_be 2 (mask_port x p) (mask_port-lt x p h)) ∙ mask_port-mask_port x p h

v6_back :
    (x : Bool) (txid m : Bytes) (p : ℕ)
    → p < 65536
    → length m ≡ 16
    → decode_address_attribute (0 ∷ 2 ∷ (put_be 2 (mask_port x p) ++ m)) txid x
      ≡ ok (record { addr = v6 (mask_bytes x m (cookie_txid txid)); zone = []; port = p })
unfolding decode_address_attribute
v6_back x txid m p port size =
    let whole : take 16 m ≡ m = take_all 16 m (omega arith) in
    rw (port_back x p port, size, whole) refl

-- The value of an address attribute decodes to the address.
decode-address_value :
    (x : Bool) (txid value : Bytes) (p : ℕ) (a : Addr)
    → p < 65536
    → HasWireSize a
    → address_value x txid p a ≡ some value
    → decode_address_attribute value txid x ≡ ok (record { addr = a; zone = []; port = p })
unfolding address_value decode_address_attribute
decode-address_value x txid value p invalid port sizes h = absurd (cc)
decode-address_value x txid value p (v4 b0 b1 b2 b3) port (s0, s1, s2, s3) h =
    subst
      (λ v.
        decode_address_attribute v txid x
        ≡ ok (record { addr = v4 b0 b1 b2 b3; zone = []; port = p }))
      (some-injective h)
      (rw
        (
          port_back x p port,
          mask_byte-mask_byte x b0 0x21 s0,
          mask_byte-mask_byte x b1 0x12 s1,
          mask_byte-mask_byte x b2 0xA4 s2,
          mask_byte-mask_byte x b3 0x42 s3,
        )
        refl)
  where
    some-injective : {u v : Bytes} → some u ≡ some v → u ≡ v
    some-injective e = cc
decode-address_value x txid value p (v6 b) port (size, bytes) h = elim (Bool-cases (is_4_in_6 b)) [
  | inl mapped ↦ absurd (no_value (rw mapped at h))
  | inr plain ↦
      let masked = mask_bytes x b (cookie_txid txid) in
      subst
        (λ v. decode_address_attribute v txid x ≡ ok (record { addr = v6 b; zone = []; port = p }))
        (some-injective (rw plain at h))
        (v6_back x txid masked p port (length-mask_bytes x b (cookie_txid txid) ∙ size)
          ∙ ap (λ c. ok (record { addr = v6 c; zone = []; port = p }))
              (mask_bytes-mask_bytes x b (cookie_txid txid) bytes))
]
  where
    some-injective : {u v : Bytes} → some u ≡ some v → u ≡ v
    some-injective e = cc

    no_value : ◌≡◌ {A = Option Bytes} none (some value) → ⊥
    no_value e = cc

-- Nothing stands in the message under the type, and one value after it is added.
pub get_attribute-add :
    (t : ℕ) (v : Bytes) (as' : List Attribute)
    → count t as' ≡ 0
    → (get_attribute t (as' ++ record { kind = t; value = v } ∷ []) ≡ some v)
      × (count t (as' ++ record { kind = t; value = v } ∷ []) ≡ 1)
unfolding get_attribute count
get_attribute-add t v [] h = ground arith
get_attribute-add t v (a ∷ as') h = ground (arith, get_attribute-add t v as')

-- An address and port that AddXORMappedAddress puts into a message is what XORMappedAddress reads
-- out of it, for IPv4 and for IPv6 and whatever the transaction identity, but for the zone of an
-- IPv6 address, which is lost. The conditions are a port of 16 bits and the bytes of the address.
pub xor_mapped_address-add :
    (a : AddrPort) (m m' : Message)
    → a.port < 65536
    → HasWireSize a.addr
    → add_xor_mapped_address a m ≡ ok m'
    → xor_mapped_address m' ≡ ok (record a { zone = [] })
unfolding add_xor_mapped_address xor_mapped_address add
xor_mapped_address-add a m m' port sizes h =
    elim (Bool-cases (count attr_xor_mapped_address m.attributes == 0)) [
      | inr there ↦ absurd (ground arith)
      | inl fresh ↦
          put_in (address_value true m.transaction_id a.port a.addr) refl (ground arith)
            (ground arith)
    ]
  where
    put_in :
        (o : Option Bytes)
        → address_value true m.transaction_id a.port a.addr ≡ o
        → added attr_xor_mapped_address o m ≡ ok m'
        → count attr_xor_mapped_address m.attributes ≡ 0
        → single_address attr_xor_mapped_address true m'
            (get_attribute attr_xor_mapped_address m'.attributes)
          ≡ ok (record a { zone = [] })
    put_in none e h none_there = absurd (cc)
    put_in (some v) e h none_there =
        let (found, one) = get_attribute-add attr_xor_mapped_address v m.attributes none_there in
        subst
          (λ (x : Message).
            single_address attr_xor_mapped_address true x
              (get_attribute attr_xor_mapped_address x.attributes)
            ≡ ok (record a { zone = [] }))
          (ok-injective _ _ h)
          (rw (found, one)
            (decode-address_value true m.transaction_id v a.port a.addr port sizes e))
