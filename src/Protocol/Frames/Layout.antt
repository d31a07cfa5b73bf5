-- ===== src/Protocol/Frames/Layout.antt =====
-- The frames of internal/protocol/probe.go on the wire: what is written is read back, what is read
-- was written so, and no byte string makes a parser panic.
use anti_nat_agent.Base.{
  ℕ, ◌+◌, ◌-◌, ◌≤◌, ◌<◌, ◌≡◌, refl, false, arith, ok, err, Bytes, AreBytes, bytes_eq, length,
  get_or, get_or-byte, take-take, ◌⊎◌, index_ok, ◌≢◌, drop, chunk, be, slice_ok, Bool-cases, inl,
  inr, check, ◌>>◌, bytes_eq→eq, ltb, ◌==◌, not, ◌||◌,
}
use anti_nat_agent.Protocol.Platform.{Platform}
use anti_nat_agent.Protocol.Frames.{
  Error, malformed, ProbeArm, magic_arm, validate_arm, parse_probe_arm, probe_frame_max,
}

-- What the array types of the source keep.
pub record HasSizes (a : ProbeArm) : Type 0 where
  pub probe_id_size : length a.probe_id ≡ 16
  pub provider_id_size : length a.provider_id ≡ 16
  pub provider_public_key_size : length a.provider_public_key ≡ 32
  pub expected_source_ip_size : length a.expected_source_ip ≡ 4
  pub activation_size : length a.activation ≡ 16
  pub expiry_opaque_size : length a.expiry_opaque ≡ 16

-- The arm that a frame of the right length carries.
abbrev pub arm_of : Bytes → ProbeArm
arm_of raw =
    let n = get_or raw 88 0 in
    record {
      probe_id = chunk 4 16 raw;
      provider_id = chunk 20 16 raw;
      provider_public_key = chunk 36 32 raw;
      expected_source_ip = chunk 68 4 raw;
      activation = chunk 72 16 raw;
      endpoint = chunk 89 n raw;
      ttl_ms = be (chunk (89 + n) 8 raw);
      expiry_opaque = chunk (89 + n + 8) 16 raw;
    }

-- A frame that is an arm by its length, its magic and its endpoint's length.
pub record IsArm (raw : Bytes) : Type 0 where
  pub magic_right : chunk 0 4 raw ≡ magic_arm
  pub endpoint_some : get_or raw 88 0 ≢ 0
  pub endpoint_within : get_or raw 88 0 < 256
  pub length_exact : length raw ≡ 113 + get_or raw 88 0

pub parse_IsArm :
    (p : Platform) (raw : Bytes)
    → IsArm raw
    → parse_probe_arm p raw ≡ (check (validate_arm p (arm_of raw)) >> ok (arm_of raw))
unfolding parse_probe_arm
parse_IsArm p raw v =
    let n : ℕ = get_or raw 88 0 in
    let l : length raw ≡ 113 + n = v.length_exact in
    let short : (ltb (length raw) 89 || ltb probe_frame_max (length raw)) ≡ false =
      ground (arith, v.endpoint_within) in
    let magic : not (bytes_eq (chunk 0 4 raw) magic_arm) ≡ false = rw (v.magic_right) refl in
    let exact : ((n == 0) || not (length raw == 89 + n + 8 + 16)) ≡ false =
      ground (arith, v.endpoint_some) in
    let e1 : 89 + n - 89 ≡ n = omega arith in
    let e2 : 89 + n + 8 - (89 + n) ≡ 8 = omega arith in
    let e3 : length raw - (89 + n + 8) ≡ 16 = omega arith in
    rw
      (
        short,
        slice_ok {E = Error} raw 0 4 (omega arith) (omega arith),
        magic,
        index_ok {E = Error} raw 88 (omega arith),
        exact,
        slice_ok {E = Error} raw 4 20 (omega arith) (omega arith),
        slice_ok {E = Error} raw 20 36 (omega arith) (omega arith),
        slice_ok {E = Error} raw 36 68 (omega arith) (omega arith),
        slice_ok {E = Error} raw 68 72 (omega arith) (omega arith),
        slice_ok {E = Error} raw 72 88 (omega arith) (omega arith),
        slice_ok {E = Error} raw 89 (89 + n) (omega arith) (omega arith),
        slice_ok {E = Error} raw (89 + n) (89 + n + 8) (omega arith) (omega arith),
        slice_ok {E = Error} raw (89 + n + 8) (length raw) (omega arith) (omega arith),
        e1,
        e2,
        e3,
        take-take 16 (drop (89 + n + 8) raw),
      )
      refl

pub not-IsArm :
    (p : Platform) (raw : Bytes)
    → AreBytes raw
    → (parse_probe_arm p raw ≡ err malformed) ⊎ IsArm raw
unfolding parse_probe_arm
not-IsArm p raw bytes =
    let n : ℕ = get_or raw 88 0 in
    let n_byte : n < 256 = get_or-byte raw 88 bytes in
    elim (Bool-cases (ltb (length raw) 89 || ltb probe_frame_max (length raw))) [
      | inl e ↦ inl (rw e refl)
      | inr e ↦
          let l : 89 ≤ length raw = ground arith in
          elim (Bool-cases (bytes_eq (chunk 0 4 raw) magic_arm)) [
            | inr f ↦ inl (rw (e, slice_ok {E = Error} raw 0 4 (omega arith) (omega arith), f) refl)
            | inl f ↦ elim (Bool-cases ((n == 0) || not (length raw == 89 + n + 8 + 16))) [
              | inl g ↦ inl (
                  rw
                    (
                      e,
                      slice_ok {E = Error} raw 0 4 (omega arith) (omega arith),
                      f,
                      index_ok {E = Error} raw 88 (omega arith),
                      g,
                    )
                    refl)
              | inr g ↦ inr (record {
                magic_right = bytes_eq→eq (chunk 0 4 raw) magic_arm f;
                endpoint_some = λ z. ground arith;
                endpoint_within = n_byte;
                length_exact = ground arith;
              })
            ]
          ]
    ]
