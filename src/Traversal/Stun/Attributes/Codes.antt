-- ===== src/Traversal/Stun/Attributes/Codes.antt =====
-- The error code and the unknown attributes of internal/traversal/stun/message.go, written and read
-- back.
use anti_nat_agent.Base.{
  ℕ, ◌+◌, ◌*◌, ◌/◌, ◌%◌, ◌≤◌, ◌<◌, ◌≡◌, refl, false, ◌||◌, List, [], ◌∷◌, arith, ltb, All, length,
  Bytes, ok, ◌>>=◌,
}
use anti_nat_agent.Traversal.Stun.{Message, add, count, attr_error_code, attr_unknown_attributes}
use anti_nat_agent.Traversal.Stun.Attributes.{
  set_error_code, error_code, types_value, types_of, add_unknown_attributes, unknown_attributes,
}
use anti_nat_agent.Traversal.Stun.Attributes.Addresses.{get_attribute-add}

-- SetErrorCode succeeds on a code from 300 to 699, and ErrorCode then reads the code and the reason
-- back; the message had no error code before.
pub error_code-set_error_code :
    (code : ℕ) (reason : Bytes) (m : Message)
    → 300 ≤ code
    → code ≤ 699
    → count attr_error_code m.attributes ≡ 0
    → (set_error_code code reason m >>= error_code) ≡ ok (code, reason)
unfolding set_error_code error_code add
error_code-set_error_code code reason m low high fresh =
    let value : Bytes = 0 ∷ 0 ∷ code / 100 % 256 ∷ code % 100 ∷ reason in
    let (found, one) = get_attribute-add attr_error_code value m.attributes fresh in
    let valid : (ltb code 300 || ltb 699 code) ≡ false = ground arith in
    let back : code / 100 % 256 * 100 + code % 100 ≡ code = omega arith in
    rw valid (rw (found, one, back) (rw valid (ground arith)))

types_of-types_value :
    (ts : List ℕ)
    → All (λ t. t < 65536) ts
    → (types_of (types_value ts) ≡ ts) × (length (types_value ts) % 2 ≡ 0)
unfolding types_of types_value
types_of-types_value [] h = (refl, refl)
types_of-types_value (t ∷ ts) h =
    let (back, even) = types_of-types_value ts h.1 in
    let word : t / 256 % 256 * 256 + t % 256 ≡ t = omega arith in
    (rw (word, back) refl, omega arith)

-- The types that AddUnknownAttributes lists are those that UnknownAttributes reads, in their order;
-- the message had no such list before.
pub unknown_attributes-add :
    (ts : List ℕ) (m : Message)
    → All (λ t. t < 65536) ts
    → count attr_unknown_attributes m.attributes ≡ 0
    → unknown_attributes (add_unknown_attributes ts m) ≡ ok ts
unfolding unknown_attributes add_unknown_attributes add
unknown_attributes-add ts m small fresh =
    let (found, one) =
      get_attribute-add attr_unknown_attributes (types_value ts) m.attributes fresh in
    let (back, even) = types_of-types_value ts small in rw (found, even, back) refl
