-- ===== src/Traversal/Stun/Types.antt =====
-- The message type of internal/traversal/stun/message.go through its two parts and back.
use anti_nat_agent.Base.{ℕ, ◌<◌, ◌≡◌, arith}
use anti_nat_agent.Traversal.Stun.{method, class, new_message_type}

-- Every method of 12 bits and every class of 2 bits come back out of the message type that they are
-- encoded into, which has 14 bits.
pub method-class-new_message_type :
    (m c : ℕ)
    → m < 4096
    → c < 4
    → (method (new_message_type m c) ≡ m)
      × (class (new_message_type m c) ≡ c)
      × (new_message_type m c < 16384)
unfolding method class new_message_type
method-class-new_message_type m c h k = omega arith

-- Every message type of 14 bits is the encoding of its method and class.
pub new_message_type-method-class : (t : ℕ) → t < 16384 → new_message_type (method t) (class t) ≡ t
unfolding method class new_message_type
new_message_type-method-class t h = omega arith
