-- ===== src/Protocol/Frames/RoundTrip.antt =====
-- internal/protocol/probe.go: the arm of a probe through Canonical and ParseProbeArm and back.
use anti_nat_agent.Base.{
  ℕ, ◌+◌, ◌%◌, ◌^◌, ◌<◌, ◌≡◌, refl, sym, ◌∙◌, none, List, [], ◌∷◌, ◌++◌, arith, ok, Returns,
  check-ok, check-Returns, subst, Bytes, AreBytes, length, get_or, ◌≢◌, drop, chunk, be, put_be,
  length-put_be, length-chunk, inl, inr, be-put_be, put_be-be, AreBytes-chunk, take_all,
  length-drop, join, length-join, offset, part, chunk-join, get_or-chunk, get_or-drop, chunk_join,
  append-nil,
}
use anti_nat_agent.Protocol.Platform.{Platform}
use anti_nat_agent.Protocol.Frames.{
  ProbeArm, arm_canonical, magic_arm, validate_arm, parse_probe_arm,
}
use anti_nat_agent.Protocol.Frames.Layout.{HasSizes, IsArm, arm_of, parse_IsArm, not-IsArm}

abbrev arm_parts : ProbeArm → List Bytes
arm_parts a =
    magic_arm
    ∷ a.probe_id
    ∷ a.provider_id
    ∷ a.provider_public_key
    ∷ a.expected_source_ip
    ∷ a.activation
    ∷ ((length a.endpoint % 256) ∷ [])
    ∷ a.endpoint
    ∷ put_be 8 a.ttl_ms
    ∷ a.expiry_opaque
    ∷ []

canonical-parts : (a : ProbeArm) → arm_canonical a ≡ join (arm_parts a)
unfolding arm_canonical
canonical-parts a = rw (append-nil a.expiry_opaque) refl

module _ (a : ProbeArm) (sizes : HasSizes a) (nonempty : length a.endpoint ≢ 0)
    (short : length a.endpoint < 256) where
  field :
      (i k n : ℕ)
      → offset (arm_parts a) i ≡ k
      → length (part (arm_parts a) i) ≡ n
      → chunk k n (arm_canonical a) ≡ part (arm_parts a) i
  field i k n e l = rw (canonical-parts a) (chunk-join (arm_parts a) i k n e l)

  endpoint_len : get_or (arm_canonical a) 88 0 ≡ length a.endpoint
  endpoint_len =
      get_or-chunk 88 (arm_canonical a) (length a.endpoint % 256) (field 6 88 1 (omega arith) refl)
      ∙ omega arith

  length-canonical : length (arm_canonical a) ≡ 113 + length a.endpoint
  length-canonical =
      rw (canonical-parts a, length-join (arm_parts a)) (omega (arith, length-put_be 8 a.ttl_ms))

  canonical-IsArm : IsArm (arm_canonical a)
  canonical-IsArm = record {
    magic_right = field 0 0 4 refl refl;
    endpoint_some = λ z. nonempty (omega (arith, endpoint_len));
    endpoint_within = omega (arith, endpoint_len);
    length_exact = omega (arith, endpoint_len, length-canonical);
  }

  arm_of-canonical : a.ttl_ms < 2 ^ 64 → arm_of (arm_canonical a) ≡ a
  arm_of-canonical h =
      let l : ℕ = length a.endpoint in
      let f1 : chunk 4 16 (arm_canonical a) ≡ a.probe_id =
        field 1 4 16 refl (sizes.probe_id_size) in
      let f2 : chunk 20 16 (arm_canonical a) ≡ a.provider_id =
        field 2 20 16 (omega arith) (sizes.provider_id_size) in
      let f3 : chunk 36 32 (arm_canonical a) ≡ a.provider_public_key =
        field 3 36 32 (omega arith) (sizes.provider_public_key_size) in
      let f4 : chunk 68 4 (arm_canonical a) ≡ a.expected_source_ip =
        field 4 68 4 (omega arith) (sizes.expected_source_ip_size) in
      let f5 : chunk 72 16 (arm_canonical a) ≡ a.activation =
        field 5 72 16 (omega arith) (sizes.activation_size) in
      let f7 : chunk 89 l (arm_canonical a) ≡ a.endpoint = field 7 89 l (omega arith) refl in
      let f8 : chunk (89 + l) 8 (arm_canonical a) ≡ put_be 8 a.ttl_ms =
        field 8 (89 + l) 8 (omega arith) (length-put_be 8 a.ttl_ms) in
      let f9 : chunk (89 + l + 8) 16 (arm_canonical a) ≡ a.expiry_opaque =
        field 9 (89 + l + 8) 16 (omega (arith, length-put_be 8 a.ttl_ms))
          (sizes.expiry_opaque_size) in
      rw (endpoint_len, f1, f2, f3, f4, f5, f7, f8, f9, be-put_be 8 a.ttl_ms h) refl

-- A frame is its pieces.
pieces :
    (raw : Bytes)
    → (m t : Bytes) (b : ℕ) → IsArm raw
    → m ≡ chunk 0 4 raw
    → b ≡ get_or raw 88 0
    → t ≡ chunk (89 + get_or raw 88 0) 8 raw
    → let n : ℕ = get_or raw 88 0 in
      m
        ++ (chunk 4 16 raw
            ++ (chunk 20 16 raw
                ++ (chunk 36 32 raw
                    ++ (chunk 68 4 raw
                        ++ (chunk 72 16 raw
                            ++ (b ∷ (chunk 89 n raw ++ (t ++ chunk (89 + n + 8) 16 raw))))))))
      ≡ raw
pieces raw m t b v me be te =
    let n : ℕ = get_or raw 88 0 in
    let l : length raw ≡ 113 + n = v.length_exact in
    let o : chunk (89 + n + 8) 16 raw ≡ drop (89 + n + 8) raw =
      take_all 16 (drop (89 + n + 8) raw) (omega (arith, length-drop (89 + n + 8) raw)) in
    rw
      (
        me,
        be,
        te,
        o,
        chunk_join (89 + n) 8 raw,
        chunk_join 89 n raw,
        get_or-drop 88 raw (omega arith),
        chunk_join 72 16 raw,
        chunk_join 68 4 raw,
        chunk_join 36 32 raw,
        chunk_join 20 16 raw,
        chunk_join 4 16 raw,
      )
      (chunk_join 0 4 raw)

canonical-arm_of : (raw : Bytes) → AreBytes raw → IsArm raw → arm_canonical (arm_of raw) ≡ raw
unfolding arm_canonical
canonical-arm_of raw bytes v =
    let n : ℕ = get_or raw 88 0 in
    let l : length raw ≡ 113 + n = v.length_exact in
    let e : length (arm_of raw).endpoint % 256 ≡ n =
      omega (arith, length-chunk 89 n raw (omega arith), v.endpoint_within) in
    let t : put_be 8 (arm_of raw).ttl_ms ≡ chunk (89 + n) 8 raw =
      put_be-be 8 (chunk (89 + n) 8 raw) (length-chunk (89 + n) 8 raw (omega arith))
        (AreBytes-chunk (89 + n) 8 raw bytes) in
    pieces raw magic_arm _ _ v (sym v.magic_right) e t

valid_endpoint :
    (p : Platform) (a : ProbeArm)
    → validate_arm p a ≡ none
    → (length a.endpoint ≢ 0) × (length a.endpoint < 256)
unfolding validate_arm
valid_endpoint p a h = (λ z. ground arith, ground arith)

-- An arm that is valid, with arrays of the source's sizes and a 64-bit lifetime, is read back from
-- its canonical bytes as it was.
pub parse_arm-canonical :
    (p : Platform) (a : ProbeArm)
    → HasSizes a
    → a.ttl_ms < 2 ^ 64
    → validate_arm p a ≡ none
    → parse_probe_arm p (arm_canonical a) ≡ ok a
parse_arm-canonical p a sizes h v =
    let (nonempty, short) = valid_endpoint p a v in
    rw
      (
        parse_IsArm p (arm_canonical a) (canonical-IsArm a sizes nonempty short),
        arm_of-canonical a sizes nonempty short h,
        v,
      )
      refl

accepted_arm :
    (p : Platform) (raw : Bytes) (a : ProbeArm)
    → IsArm raw
    → parse_probe_arm p raw ≡ ok a
    → (a ≡ arm_of raw) × (validate_arm p a ≡ none)
accepted_arm p raw a v e =
    let (valid, same) =
      check-ok (validate_arm p (arm_of raw)) (arm_of raw) a (sym (parse_IsArm p raw v) ∙ e) in
    (sym same, subst (λ x. validate_arm p x ≡ none) same valid)

-- Every frame of bytes that the parser accepts is the canonical form of the arm that it returns,
-- and that arm is valid.
pub parse_arm_sound :
    (p : Platform) (raw : Bytes) (a : ProbeArm)
    → AreBytes raw
    → parse_probe_arm p raw ≡ ok a
    → (arm_canonical a ≡ raw) × (validate_arm p a ≡ none)
parse_arm_sound p raw a bytes e = elim (not-IsArm p raw bytes) [
  | inl f ↦ cc
  | inr v ↦ let (g, h) = accepted_arm p raw a v e in (rw g (canonical-arm_of raw bytes v), h)
]

-- No frame of bytes makes the parser of arms panic.
pub parse_arm-Returns :
    (p : Platform) (raw : Bytes) → AreBytes raw → Returns (parse_probe_arm p raw)
parse_arm-Returns p raw bytes = elim (not-IsArm p raw bytes) [
  | inl f ↦ rw f tt
  | inr v ↦ rw (parse_IsArm p raw v) (check-Returns (validate_arm p (arm_of raw)) (arm_of raw))
]
