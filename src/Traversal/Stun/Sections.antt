-- ===== src/Traversal/Stun/Sections.antt =====
-- The attribute section of internal/traversal/stun/message.go.
use anti_nat_agent.Base.{
  ℕ, zero, suc, ◌+◌, ◌-◌, ◌%◌, ◌≤◌, ◌<◌, ◌≡◌, refl, ap, ◌∙◌, false, List, [], ◌∷◌, ◌++◌, arith, inl,
  inr, Bool-cases, ◌==◌, ltb, All, length, replicate, length-append, length-replicate,
  length-put_be, Bytes, be, put_be, be-put_be, chunk, slice, slice_ok, slice-Returns, Returns,
  guard-Returns, bind-Returns, ok, ◌>>=◌, ◌>>◌, fail_if, append-nil, join, chunk-join, length-join,
}
use mathlib.Core.List.{append_assoc}
use anti_nat_agent.Traversal.Stun.{
  Error, truncated, Attribute, padded, parse_attributes, attribute_section_length,
  marshal_attribute, marshal_attributes,
}

-- The loop never slices out of bounds and never runs out of fuel, on a section of whole words.
pub parse_attributes-Returns :
    (fuel : ℕ) (rest : Bytes)
    → length rest ≤ fuel
    → length rest % 4 ≡ 0
    → Returns (parse_attributes fuel rest)
unfolding parse_attributes
parse_attributes-Returns zero rest enough words = ground arith
parse_attributes-Returns (suc fuel) rest enough words = elim (Bool-cases (length rest == 0)) [
  | inl done ↦ rw done tt
  | inr more ↦ rw more (
      guard-Returns {E = Error} {A = List Attribute} (ltb (length rest) 4) _ _ (λ four.
        slice-Returns rest 0 2 _ (omega arith) (ground arith) (λ l0.
          slice-Returns rest 2 4 _ (omega arith) (ground arith) (λ l1.
            value (λ r h k. parse_attributes-Returns fuel r h k) (be (chunk 2 2 rest))
              (be (chunk 0 2 rest)) (ground arith)))))
]
  where
    value :
        (ih : (r : Bytes) → length r ≤ fuel → length r % 4 ≡ 0 → Returns (parse_attributes fuel r))
        (n t : ℕ)
        → 4 ≤ length rest
        → Returns (do
          fail_if (ltb (length rest - 4) n) truncated
          value ← slice rest 4 (4 + n)
          later ← slice rest (padded (4 + n)) (length rest)
          more ← parse_attributes fuel later
          ok (record { kind = t; value = value } ∷ more))
    value ih n t four =
        guard-Returns {E = Error} {A = List Attribute} (ltb (length rest - 4) n) _ _ (λ fits.
          slice-Returns rest 4 (4 + n) _ (omega arith) (ground arith) (λ l0.
            slice-Returns rest (padded (4 + n)) (length rest) _ (ground arith) (omega arith) (λ l1.
              bind-Returns (parse_attributes fuel _) _ (ih _ (omega arith) (omega arith))
                (λ more. tt))))

pub length-marshal_attribute :
    (a : Attribute) → length (marshal_attribute a) ≡ 4 + padded (length a.value)
unfolding marshal_attribute
length-marshal_attribute a = omega (
  arith,
  length-append (put_be 2 a.kind) (
      put_be 2 (length a.value)
      ++ a.value
      ++ replicate (padded (length a.value) - length a.value) 0),
  length-append (put_be 2 (length a.value))
      (a.value ++ replicate (padded (length a.value) - length a.value) 0),
  length-append a.value (replicate (padded (length a.value) - length a.value) 0),
  length-replicate {A = ℕ} (padded (length a.value) - length a.value) 0,
  length-put_be 2 a.kind,
  length-put_be 2 (length a.value),
)

pub length-marshal_attributes :
    (as' : List Attribute) → length (marshal_attributes as') ≡ attribute_section_length as'
unfolding marshal_attributes attribute_section_length
length-marshal_attributes [] = refl
length-marshal_attributes (a ∷ as') = omega (
  arith,
  length-append (marshal_attribute a) (marshal_attributes as'),
  length-marshal_attribute a,
  length-marshal_attributes as',
)

-- One round, from what its slices are.
round :
    (fuel n : ℕ) (rest tb nb value later : Bytes) (more : List Attribute)
    → (length rest == 0) ≡ false
    → ltb (length rest) 4 ≡ false
    → slice {E = Error} rest 0 2 ≡ ok tb
    → slice {E = Error} rest 2 4 ≡ ok nb
    → be nb ≡ n
    → ltb (length rest - 4) n ≡ false
    → slice {E = Error} rest 4 (4 + n) ≡ ok value
    → slice {E = Error} rest (padded (4 + n)) (length rest) ≡ ok later
    → parse_attributes fuel later ≡ ok more
    → parse_attributes (suc fuel) rest ≡ ok (record { kind = be tb; value = value } ∷ more)
unfolding parse_attributes
round fuel n rest tb nb value later more e0 e1 e2 e3 e4 e5 e6 e7 e8 =
    rw (e0, e1, e2, e3, e4, e5, e6, e7, e8) refl

abbrev pub IsShort : Attribute → Type 0
IsShort a = (a.kind < 65536) × (length a.value < 65536)

abbrev parts : Attribute → Bytes → List Bytes
parts a more =
    put_be 2 a.kind
    ∷ put_be 2 (length a.value)
    ∷ a.value
    ∷ replicate (padded (length a.value) - length a.value) 0
    ∷ more
    ∷ []

marshal-parts : (a : Attribute) (more : Bytes) → marshal_attribute a ++ more ≡ join (parts a more)
unfolding marshal_attribute
marshal-parts a more = simp (append_assoc, append-nil)

total-parts :
    (a : Attribute) (more : Bytes)
    → length (join (parts a more)) ≡ 4 + padded (length a.value) + length more
total-parts a more = omega (
  arith,
  length-join (parts a more),
  length-replicate {A = ℕ} (padded (length a.value) - length a.value) 0,
  length-put_be 2 a.kind,
  length-put_be 2 (length a.value),
)

first_round :
    (fuel : ℕ) (a : Attribute) (m : Bytes) (as' : List Attribute)
    → IsShort a
    → parse_attributes fuel m ≡ ok as'
    → parse_attributes (suc fuel) (join (parts a m)) ≡ ok (a ∷ as')
first_round fuel a m as' short later =
    let n = length a.value in
    let r = join (parts a m) in
    let all = total-parts a m in
    let pad = length-replicate {A = ℕ} (padded n - n) 0 in
    let l0 = length-put_be 2 a.kind in
    let l1 = length-put_be 2 n in
    let kind : be (put_be 2 a.kind) ≡ a.kind = be-put_be 2 a.kind (omega arith) in
    round fuel n r (put_be 2 a.kind) (put_be 2 n) a.value m as' (ground arith) (ground arith)
      (slice_ok r 0 2 (omega arith) (omega arith) ∙ ap ok (chunk-join (parts a m) 0 0 2 refl l0))
      (slice_ok r 2 4 (omega arith) (omega arith)
        ∙ ap ok (chunk-join (parts a m) 1 2 2 (omega arith) l1))
      (be-put_be 2 n (omega arith)) (ground arith)
      (slice_ok r 4 (4 + n) (omega arith) (omega arith)
        ∙ ap ok (chunk-join (parts a m) 2 4 (4 + n - 4) (omega arith) (omega arith)))
      (slice_ok r (padded (4 + n)) (length r) (omega arith) (omega arith)
        ∙ ap ok (
            chunk-join (parts a m) 4 (padded (4 + n)) (length r - padded (4 + n)) (omega arith)
              (omega arith)))
      later
    ∙ ap (λ k. ok (record { kind = k; value = a.value } ∷ as')) kind

-- The attributes that the encoder writes are read back, whatever the number of their bytes.
pub parse_attributes-marshal_attributes :
    (fuel : ℕ) (as' : List Attribute)
    → All IsShort as'
    → length as' ≤ fuel
    → parse_attributes fuel (marshal_attributes as') ≡ ok as'
unfolding parse_attributes marshal_attributes
parse_attributes-marshal_attributes zero [] short enough = refl
parse_attributes-marshal_attributes (suc fuel) [] short enough = refl
parse_attributes-marshal_attributes zero (a ∷ as') short enough = absurd (omega arith)
parse_attributes-marshal_attributes (suc fuel) (a ∷ as') short enough =
    ap (parse_attributes (suc fuel)) (marshal-parts a (marshal_attributes as'))
    ∙ first_round fuel a (marshal_attributes as') as' short.0
        (parse_attributes-marshal_attributes fuel as' short.1 (omega arith))
