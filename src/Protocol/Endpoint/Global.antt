-- ===== src/Protocol/Endpoint/Global.antt =====
-- `IsGlobalEndpoint` of internal/protocol/endpoint.go against a table of the special-use networks,
-- each an address prefix.
use native.Mathlib.Decide.{ℕ_discrete}
use anti_nat_agent.Base.{
  ◌≢◌, ℕ, ◌+◌, ◌*◌, ◌/◌, ◌^◌, ◌<◌, ◌≡◌, sym, ap, ◌∙◌, Bool, false, not, ◌&&◌, ◌||◌, List, [], ◌∷◌,
  arith, ◌==◌, leb,
}
use anti_nat_agent.Protocol.Endpoint.{v4, is_global_endpoint}

-- The address as a 32-bit number.
abbrev pub address_of : ℕ → ℕ → ℕ → ℕ → ℕ
address_of b0 b1 b2 b3 = ((b0 * 256 + b1) * 256 + b2) * 256 + b3

-- A network is the number of its low, free bits with the value of its fixed, high bits.
abbrev pub special_networks : List (ℕ × ℕ)
special_networks =
    (24, 0)
    ∷ (24, 10)
    ∷ (24, 127)
    ∷ (28, 14)
    ∷ (28, 15)
    ∷ (22, 100 * 4 + 1)
    ∷ (16, 169 * 256 + 254)
    ∷ (20, 172 * 16 + 1)
    ∷ (16, 192 * 256 + 168)
    ∷ (17, 198 * 128 + 9)
    ∷ (8, (192 * 256 + 0) * 256 + 0)
    ∷ (8, (192 * 256 + 31) * 256 + 196)
    ∷ (8, (192 * 256 + 52) * 256 + 193)
    ∷ (8, (192 * 256 + 88) * 256 + 99)
    ∷ (8, (192 * 256 + 175) * 256 + 48)
    ∷ []

abbrev pub in_networks : List (ℕ × ℕ) → ℕ → Bool
in_networks [] a = false
in_networks ((free, prefix) ∷ ns) a = (a / 2 ^ free == prefix) || in_networks ns a

-- The same networks, over the bytes.
abbrev special_bytes : ℕ → ℕ → ℕ → Bool
special_bytes b0 b1 b2 =
    b0 == 0
    || (b0 == 10
        || (b0 == 127
            || (b0 / 16 == 14
                || (b0 / 16 == 15
                    || ((b0 == 100 && (leb 64 b1 && leb b1 127))
                        || ((b0 == 169 && b1 == 254)
                            || ((b0 == 172 && (leb 16 b1 && leb b1 31))
                                || ((b0 == 192 && b1 == 168)
                                    || ((b0 == 198 && (leb 18 b1 && leb b1 19))
                                        || ((b0 == 192 && (b1 == 0 && b2 == 0))
                                            || ((b0 == 192 && (b1 == 31 && b2 == 196))
                                                || ((b0 == 192 && (b1 == 52 && b2 == 193))
                                                    || ((b0 == 192 && (b1 == 88 && b2 == 99))
                                                        || ((b0 == 192 && (b1 == 175 && b2 == 48))
                                                            || false))))))))))))))

module _ (b0 b1 b2 b3 : ℕ) (h0 : b0 < 256) (h1 : b1 < 256) (h2 : b2 < 256) (h3 : b3 < 256) where
  prefixes :
      (address_of b0 b1 b2 b3 / 2 ^ 24 ≡ b0)
      × (address_of b0 b1 b2 b3 / 2 ^ 28 ≡ b0 / 16)
      × (address_of b0 b1 b2 b3 / 2 ^ 22 ≡ b0 * 4 + b1 / 64)
      × (address_of b0 b1 b2 b3 / 2 ^ 20 ≡ b0 * 16 + b1 / 16)
      × (address_of b0 b1 b2 b3 / 2 ^ 17 ≡ b0 * 128 + b1 / 2)
      × (address_of b0 b1 b2 b3 / 2 ^ 16 ≡ b0 * 256 + b1)
      × (address_of b0 b1 b2 b3 / 2 ^ 8 ≡ (b0 * 256 + b1) * 256 + b2)
  prefixes = omega arith

  range_cgnat : (b0 * 4 + b1 / 64 == 100 * 4 + 1) ≡ (b0 == 100 && (leb 64 b1 && leb b1 127))
  range_cgnat = ground arith

  range_private : (b0 * 16 + b1 / 16 == 172 * 16 + 1) ≡ (b0 == 172 && (leb 16 b1 && leb b1 31))
  range_private = ground arith

  range_benchmark : (b0 * 128 + b1 / 2 == 198 * 128 + 9) ≡ (b0 == 198 && (leb 18 b1 && leb b1 19))
  range_benchmark = ground arith

  range_two : (x y : ℕ) → y < 256 → (b0 * 256 + b1 == x * 256 + y) ≡ (b0 == x && b1 == y)
  range_two x y h = ground arith

  range_three :
      (x y z : ℕ)
      → y < 256
      → z < 256
      → ((b0 * 256 + b1) * 256 + b2 == (x * 256 + y) * 256 + z) ≡ (b0 == x && (b1 == y && b2 == z))
  range_three x y z h k = ground arith

  -- The table's test over the bytes.
  networks_bytes : in_networks special_networks (address_of b0 b1 b2 b3) ≡ special_bytes b0 b1 b2
  networks_bytes =
      let (p24, p28, p22, p20, p17, p16, p8) = prefixes in
      simp (
        p24,
        p28,
        p22,
        p20,
        p17,
        p16,
        p8,
        range_cgnat,
        range_private,
        range_benchmark,
        range_two 169 254 (omega arith),
        range_two 192 168 (omega arith),
        range_three 192 0 0 (omega arith) (omega arith),
        range_three 192 31 196 (omega arith) (omega arith),
        range_three 192 52 193 (omega arith) (omega arith),
        range_three 192 88 99 (omega arith) (omega arith),
        range_three 192 175 48 (omega arith) (omega arith),
      )

  -- The code's chain of ranges, by the first byte.
  classes_192 : b0 ≡ 192 → is_global_endpoint (v4 b0 b1 b2 b3) ≡ not (special_bytes b0 b1 b2)
  unfolding is_global_endpoint
  classes_192 e = ground arith

  classes_198 : b0 ≡ 198 → is_global_endpoint (v4 b0 b1 b2 b3) ≡ not (special_bytes b0 b1 b2)
  unfolding is_global_endpoint
  classes_198 e = ground arith

  classes_other :
      b0 ≢ 192 → b0 ≢ 198 → is_global_endpoint (v4 b0 b1 b2 b3) ≡ not (special_bytes b0 b1 b2)
  unfolding is_global_endpoint
  classes_other n m = ground arith

  classes_bytes : is_global_endpoint (v4 b0 b1 b2 b3) ≡ not (special_bytes b0 b1 b2)
  classes_bytes = elim (ℕ_discrete b0 192) [
    | yes e ↦ classes_192 e
    | no n ↦ elim (ℕ_discrete b0 198) [ yes e ↦ classes_198 e | no m ↦ classes_other n m ]
  ]

-- For every IPv4 address, IsGlobalEndpoint is true exactly if the address, read as a 32-bit number,
-- lies in none of the special-use networks of the table: this-network, private, shared, loopback,
-- link-local, benchmark, protocol-assignment, AS112, AMT, 6to4, multicast and reserved ones. The
-- documentation networks are not among them.
pub is_global_endpoint-networks :
    (b0 b1 b2 b3 : ℕ)
    → b0 < 256
    → b1 < 256
    → b2 < 256
    → b3 < 256
    → is_global_endpoint (v4 b0 b1 b2 b3)
      ≡ not (in_networks special_networks (address_of b0 b1 b2 b3))
is_global_endpoint-networks b0 b1 b2 b3 h0 h1 h2 h3 =
    classes_bytes b0 b1 b2 b3 h0 h1 h2 h3 ∙ ap not (sym (networks_bytes b0 b1 b2 b3 h0 h1 h2 h3))
