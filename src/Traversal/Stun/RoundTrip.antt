-- ===== src/Traversal/Stun/RoundTrip.antt =====
-- internal/traversal/stun/message.go: messages through Marshal and ParseMessage.
use anti_nat_agent.Base.{
  ℕ, ◌+◌, ◌-◌, ◌%◌, ◌≤◌, ◌<◌, ◌≡◌, refl, ap, ◌∙◌, Bool, true, false, not, some, ◌⊎◌, inl, inr, List,
  [], ◌∷◌, ◌++◌, arith, Bool-cases, ◌==◌, ltb, if◌then◌else◌, All, length, take_all, length-put_be,
  Bytes, be, put_be, be-put_be, chunk, slice, slice_ok, slice-Returns, Returns, guard-Returns,
  bind-Returns, ok, err, ◌>>=◌, ◌>>◌, fail_if, join, offset, part, chunk-join, length-join,
  append-nil,
}
use mathlib.Core.List.{append_assoc}
use anti_nat_agent.Traversal.Stun.{
  Error, truncated, malformed, oversize, Attribute, Message, magic_cookie, header_size,
  max_message_size, attr_fingerprint, count, last_kind, ends_with, check_fingerprint_last,
  parse_attributes, parse_message, attribute_section_length, marshal_attributes, header, marshal,
}
use anti_nat_agent.Traversal.Stun.Sections.{
  parse_attributes-Returns, parse_attributes-marshal_attributes, length-marshal_attributes, IsShort,
}

check-Returns_last : (m : Message) → Returns (check_fingerprint_last m)
unfolding count
check-Returns_last m = last m.attributes refl
  where
    nonempty :
        (a : Attribute) (as' : List Attribute)
        → Returns (ends_with attr_fingerprint (last_kind (a ∷ as')))
    nonempty a [] = tt
    nonempty a (b ∷ as') = nonempty b as'

    tail : (b : Bool) → Returns {E = Error} (if b then ok m else err malformed)
    tail true = tt
    tail false = tt

    last : (as' : List Attribute) → m.attributes ≡ as' → Returns (check_fingerprint_last m)
    last [] e = rw (e, count) tt
    last (a ∷ as') e = elim (Bool-cases (count attr_fingerprint m.attributes == 0)) [
      | inl none_there ↦ rw none_there tt
      | inr there ↦ rw there (
          bind-Returns (ends_with attr_fingerprint (last_kind m.attributes)) _
            (rw e (nonempty a as')) tail)
    ]

-- ParseMessage never panics: no byte string makes it slice or index out of bounds, and its loop
-- ends.
pub parse_message-Returns : (wire : Bytes) → Returns (parse_message wire)
unfolding parse_message
parse_message-Returns wire =
    guard-Returns {E = Error} {A = Message} (ltb (length wire) header_size) _ _ (λ header.
      slice-Returns wire 4 8 _ (omega arith) (ground arith) (λ l0.
        guard-Returns {E = Error} {A = Message} (not (be (chunk 4 (8 - 4) wire) == magic_cookie)) _
          _
          (λ cookie.
            slice-Returns wire 2 4 _ (omega arith) (ground arith)
              (λ l1. sized (be (chunk 2 (4 - 2) wire)) (ground arith)))))
  where
    sized :
        (size : ℕ)
        → 20 ≤ length wire
        → Returns (do
          fail_if (ltb max_message_size size) oversize
          fail_if (not (size % 4 == 0)) malformed
          fail_if (ltb (length wire - header_size) size) truncated
          t ← slice wire 0 2
          txid ← slice wire 8 20
          raw ← slice wire 0 (header_size + size)
          rest ← slice wire header_size (header_size + size)
          attributes ← parse_attributes (length rest) rest
          check_fingerprint_last
              (record { kind = be t; transaction_id = txid; attributes = attributes; raw = raw }))
    sized size long =
        guard-Returns {E = Error} {A = Message} (ltb max_message_size size) _ _ (λ small.
          guard-Returns {E = Error} {A = Message} (not (size % 4 == 0)) _ _ (λ words.
            guard-Returns {E = Error} {A = Message} (ltb (length wire - header_size) size) _ _
              (λ fits. slice-Returns wire 0 2 _ (omega arith) (omega arith) (λ l0.
                slice-Returns wire 8 20 _ (omega arith) (omega arith) (λ l1.
                  slice-Returns wire 0 (header_size + size) _ (omega arith) (ground arith) (λ l2.
                    slice-Returns wire header_size (header_size + size) _ (omega arith)
                      (ground arith)
                      (λ l3.
                        bind-Returns (parse_attributes _ _) _
                          (parse_attributes-Returns _ _ (omega arith) (ground arith))
                          (λ as'. check-Returns_last _))))))))

section_words : (as' : List Attribute) → attribute_section_length as' % 4 ≡ 0
unfolding attribute_section_length
section_words [] = refl
section_words (a ∷ as') = omega (arith, section_words as')

count-le-section : (as' : List Attribute) → length as' ≤ attribute_section_length as'
unfolding attribute_section_length
count-le-section [] = omega arith
count-le-section (a ∷ as') = omega (arith, count-le-section as')

section-IsShort :
    (as' : List Attribute)
    → All (λ a. a.kind < 65536) as'
    → attribute_section_length as' ≤ max_message_size
    → All IsShort as'
unfolding attribute_section_length
section-IsShort [] kinds small = tt
section-IsShort (a ∷ as') kinds small =
    ((kinds.0, omega arith), section-IsShort as' kinds.1 (omega arith))

-- What ParseMessage makes of a wire, from what its slices are.
parsed :
    (wire cookie size t txid raw rest : Bytes) (section : ℕ) (as' : List Attribute)
    → ltb (length wire) header_size ≡ false
    → slice {E = Error} wire 4 8 ≡ ok cookie
    → (be cookie == magic_cookie) ≡ true
    → slice {E = Error} wire 2 4 ≡ ok size
    → be size ≡ section
    → ltb max_message_size section ≡ false
    → (section % 4 == 0) ≡ true
    → ltb (length wire - header_size) section ≡ false
    → slice {E = Error} wire 0 2 ≡ ok t
    → slice {E = Error} wire 8 20 ≡ ok txid
    → slice {E = Error} wire 0 (header_size + section) ≡ ok raw
    → slice {E = Error} wire header_size (header_size + section) ≡ ok rest
    → parse_attributes (length rest) rest ≡ ok as'
    → parse_message wire
      ≡ check_fingerprint_last
          (record { kind = be t; transaction_id = txid; attributes = as'; raw = raw })
unfolding parse_message
parsed wire cookie size t txid raw rest section as' e0 e1 e2 e3 e4 e5 e6 e7 e8 e9 e10 e11 e12 =
    rw (e0, e1, e2, e3, e4, e5, e6, e7, e8, e9, e10, e11, e12) refl

-- FINGERPRINT stands last, if it is there.
abbrev pub HasFingerprintLast : List Attribute → Type 0
HasFingerprintLast as' = (count attr_fingerprint as' ≡ 0) ⊎ (last_kind as' ≡ some attr_fingerprint)

check_passes : (m : Message) → HasFingerprintLast m.attributes → check_fingerprint_last m ≡ ok m
check_passes m h = ground arith

module _ (m : Message) (kind : m.kind < 65536) (txid : length m.transaction_id ≡ 12)
    (kinds : All (λ a. a.kind < 65536) m.attributes)
    (small : attribute_section_length m.attributes ≤ max_message_size)
    (fingerprint : HasFingerprintLast m.attributes) where
  abbrev section : ℕ
  section = attribute_section_length m.attributes

  abbrev wire_parts : List Bytes
  wire_parts =
      put_be 2 m.kind
      ∷ put_be 2 section
      ∷ put_be 4 magic_cookie
      ∷ m.transaction_id
      ∷ marshal_attributes m.attributes
      ∷ []

  abbrev pub wire : Bytes
  wire = header m section ++ marshal_attributes m.attributes

  wire-parts : wire ≡ join wire_parts
  unfolding header
  wire-parts = simp (append_assoc, append-nil)

  length-wire : length wire ≡ header_size + section
  length-wire =
      ap length wire-parts
      ∙ omega (
        arith,
        length-join wire_parts,
        length-put_be 2 m.kind,
        length-put_be 2 section,
        length-put_be 4 magic_cookie,
        length-marshal_attributes m.attributes,
      )

  at :
      (i lo hi : ℕ) (b : Bytes)
      → offset wire_parts i ≡ lo
      → part wire_parts i ≡ b
      → length b ≡ hi - lo
      → lo ≤ hi
      → hi ≤ length wire
      → slice {E = Error} wire lo hi ≡ ok b
  at i lo hi b o p l le within =
      slice_ok wire lo hi le within
      ∙ ap (λ w. ok (chunk lo (hi - lo) w)) wire-parts
      ∙ ap ok (chunk-join wire_parts i lo (hi - lo) o (ap length p ∙ l) ∙ p)

-- Marshal succeeds on a message, and what it writes is read back, with its wire: its type, its
-- transaction identity and its attributes in their order. The conditions are those of a message: a
-- type and attribute types of 16 bits, twelve bytes of transaction identity, attributes that fit
-- the length field, and FINGERPRINT last if it is there.
pub parse_message-marshal :
    (m : Message)
    → m.kind < 65536
    → length m.transaction_id ≡ 12
    → All (λ a. a.kind < 65536) m.attributes
    → attribute_section_length m.attributes ≤ max_message_size
    → HasFingerprintLast m.attributes
    → (w : Bytes) × (marshal m ≡ ok w) × (parse_message w ≡ ok (record m { raw = w }))
unfolding marshal
parse_message-marshal m kind txid kinds small fp =
    let n = attribute_section_length m.attributes in
    let w = wire m kind txid kinds small fp in
    let all = length-wire m kind txid kinds small fp in
    let body = length-marshal_attributes m.attributes in
    let fits : ltb max_message_size n ≡ false = ground arith in
    (
      w,
      rw fits refl,
      parsed w (put_be 4 magic_cookie) (put_be 2 n) (put_be 2 m.kind) m.transaction_id w
            (marshal_attributes m.attributes) n m.attributes (ground arith)
            (at m kind txid kinds small fp 2 4 8 _
              (omega (arith, length-put_be 2 m.kind, length-put_be 2 n)) refl refl (omega arith)
              (omega arith))
            refl
            (at m kind txid kinds small fp 1 2 4 _ (omega (arith, length-put_be 2 m.kind)) refl
              (length-put_be 2 n) (omega arith) (omega arith))
            (be-put_be 2 n (omega arith)) fits (ground (arith, section_words m.attributes))
            (ground arith)
            (at m kind txid kinds small fp 0 0 2 _ refl refl (length-put_be 2 m.kind) (omega arith)
              (omega arith))
            (at m kind txid kinds small fp 3 8 20 _
              (omega (arith, length-put_be 2 m.kind, length-put_be 2 n)) refl txid (omega arith)
              (omega arith))
            (slice_ok w 0 (header_size + n) (omega arith) (omega arith)
              ∙ ap ok (take_all (header_size + n - 0) w (omega arith)))
            (at m kind txid kinds small fp 4 20 (header_size + n) _
              (omega (arith, length-put_be 2 m.kind, length-put_be 2 n)) refl (omega arith)
              (omega arith) (omega arith))
            (parse_attributes-marshal_attributes (length (marshal_attributes m.attributes))
              m.attributes (section-IsShort m.attributes kinds small)
              (omega (arith, count-le-section m.attributes)))
          ∙ ap
              (λ k. check_fingerprint_last (record {
                kind = k;
                transaction_id = m.transaction_id;
                attributes = m.attributes;
                raw = w;
              }))
              (be-put_be 2 m.kind (omega arith))
          ∙ check_passes (record m { raw = w }) fp,
    )
