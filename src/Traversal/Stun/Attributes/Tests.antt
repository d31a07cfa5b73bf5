-- ===== src/Traversal/Stun/Attributes/Tests.antt =====
-- Attributes of internal/traversal/stun/message.go, and the theorems at them.
use anti_nat_agent.Base.{◌≡◌, refl, [], ◌∷◌, arith, replicate, ◌++◌, text, ok}
use anti_nat_agent.Protocol.Endpoint.{v4, v6}
use anti_nat_agent.Traversal.Stun.{Message, add, count}
use anti_nat_agent.Traversal.Stun.Xor.{xor_bits}
use anti_nat_agent.Traversal.Stun.Attributes.{
  AddrPort, mask_bytes, address_value, add_xor_mapped_address, xor_mapped_address,
}
use anti_nat_agent.Traversal.Stun.Attributes.Addresses.{xor_mapped_address-add}

abbrev bare : Message
bare = record { kind = 1; transaction_id = replicate 12 7; attributes = []; raw = [] }

abbrev mapped : AddrPort
mapped = record { addr = v4 192 0 2 1; zone = []; port = 32853 }

-- The example of RFC 5769, section 2.2.
abbrev with_mapped : Message
with_mapped = record bare {
  attributes =
      record { kind = 0x0020; value = 0 ∷ 1 ∷ 0xA1 ∷ 0x47 ∷ 0xE1 ∷ 0x12 ∷ 0xA6 ∷ 0x43 ∷ [] } ∷ [];
}

mapped_at : add_xor_mapped_address mapped bare ≡ ok with_mapped
unfolding add_xor_mapped_address address_value add count xor_bits
mapped_at = refl

-- [fe80::1%eth0]:80
abbrev zoned : AddrPort
zoned = record {
  addr = v6 (0xFE ∷ 0x80 ∷ (replicate 13 0 ++ 1 ∷ []));
  zone = text "eth0";
  port = 80;
}

abbrev with_zoned : Message
with_zoned = record bare {
  attributes =
      record {
        kind = 0x0020;
        value = 0 ∷ 2 ∷ 0x21 ∷ 0x42 ∷ 0xDF ∷ 0x92 ∷ 0xA4 ∷ 0x42 ∷ (replicate 11 7 ++ 6 ∷ []);
      }
      ∷ [];
}

zoned_at : add_xor_mapped_address zoned bare ≡ ok with_zoned
unfolding add_xor_mapped_address address_value mask_bytes add count xor_bits
zoned_at = refl

xor_mapped_address-add_example : xor_mapped_address with_zoned ≡ ok (record zoned { zone = [] })
xor_mapped_address-add_example =
    xor_mapped_address-add zoned bare with_zoned (omega arith) (refl, omega arith) zoned_at
