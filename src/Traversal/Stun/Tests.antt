-- ===== src/Traversal/Stun/Tests.antt =====
-- Messages of internal/traversal/stun/message.go, and the theorems at them.
use anti_nat_agent.Base.{◌≤◌, ◌≡◌, refl, [], ◌∷◌, arith, inl, Bytes, ok, err, Returns}
use anti_nat_agent.Traversal.Stun.{
  truncated, Message, parse_message, marshal, attribute_section_length, count,
  unknown_comprehension_required, unknown_after, known, comprehension_required,
}
use anti_nat_agent.Traversal.Stun.RoundTrip.{parse_message-Returns, parse_message-marshal}

abbrev message : Message
message = record {
  kind = 0x0101;
  transaction_id = 1 ∷ 2 ∷ 3 ∷ 4 ∷ 5 ∷ 6 ∷ 7 ∷ 8 ∷ 9 ∷ 10 ∷ 11 ∷ 12 ∷ [];
  attributes =
      record { kind = 0x8022; value = 65 ∷ 66 ∷ 67 ∷ 68 ∷ 69 ∷ [] }
      ∷ record { kind = 0x0030; value = [] }
      ∷ [];
  raw = [];
}

unknown_one : unknown_comprehension_required message ≡ 0x0030 ∷ []
unfolding unknown_comprehension_required unknown_after known comprehension_required
unknown_one = refl

short : parse_message (0 ∷ 1 ∷ []) ≡ err truncated
unfolding parse_message
short = refl

parse_message-Returns_example : Returns (parse_message (0 ∷ 1 ∷ 0 ∷ 3 ∷ []))
parse_message-Returns_example = parse_message-Returns (0 ∷ 1 ∷ 0 ∷ 3 ∷ [])

no_fingerprint : count 0x8028 message.attributes ≡ 0
unfolding count
no_fingerprint = refl

small : attribute_section_length message.attributes ≤ 65535
unfolding attribute_section_length
small = omega arith

parse_message-marshal_example :
    (w : Bytes) × (marshal message ≡ ok w) × (parse_message w ≡ ok (record message { raw = w }))
parse_message-marshal_example =
    parse_message-marshal message (omega arith) refl (omega arith) small (inl no_fingerprint)
