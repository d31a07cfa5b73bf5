-- ===== src/Traversal/NatPmp/Wire.antt =====
-- internal/traversal/natpmp/natpmp.go: the responses against the packets of RFC 6886.
use anti_nat_agent.Base.{
  ℕ, Bool, if◌then◌else◌, ◌+◌, ◌%◌, ◌^◌, ◌≤◌, ◌<◌, ◌≡◌, refl, sym, ap, ◌∙◌, true, false, not, ◌&&◌,
  ◌∷◌, ◌++◌, ◌==◌, arith, ok, err, Returns, Bytes, AreBytes, length, get_or, ◌⊎◌, ◌≢◌, drop, chunk,
  be, ltb, subst, put_be, length-chunk, inl, inr, be-put_be, put_be-be, AreBytes-chunk, take_all,
  length-drop, slice_ok, index_ok, get_or-drop, chunk_join, Bool-cases, ◌↔◌,
}
use anti_nat_agent.Traversal.NatPmp.{
  Error, MapResponse, parse_map_response, response_size, truncated, wrong_version, wrong_opcode,
  trailing_bytes, internal_port_mismatch,
}

-- The packet of a MAP response (RFC 6886, 3.3) to a request of the opcode.
abbrev pub map_response_packet : ℕ → MapResponse → Bytes
map_response_packet opcode r =
    0
    ∷ ((opcode + 128) % 256)
    ∷ (put_be 2 r.result_code
        ++ (put_be 4 r.epoch
            ++ (put_be 2 r.internal_port
                ++ (put_be 2 r.assigned_external_port ++ put_be 4 r.lifetime_seconds))))

-- The widths of the source's fields.
pub record HasWidths (r : MapResponse) : Type 0 where
  pub result_code_16 : r.result_code < 2 ^ 16
  pub epoch_32 : r.epoch < 2 ^ 32
  pub internal_port_16 : r.internal_port < 2 ^ 16
  pub assigned_external_port_16 : r.assigned_external_port < 2 ^ 16
  pub lifetime_seconds_32 : r.lifetime_seconds < 2 ^ 32

-- What the packet of the right length says.
abbrev response_of : Bytes → MapResponse
response_of packet = record {
  result_code = be (chunk 2 2 packet);
  epoch = be (chunk 4 4 packet);
  internal_port = be (chunk 8 2 packet);
  assigned_external_port = be (chunk 10 2 packet);
  lifetime_seconds = be (chunk 12 4 packet);
}

response_of-packet :
    (opcode : ℕ) (r : MapResponse) → HasWidths r → response_of (map_response_packet opcode r) ≡ r
response_of-packet opcode r w =
    rw
      (
        be-put_be 2 r.result_code w.result_code_16,
        be-put_be 4 r.epoch w.epoch_32,
        be-put_be 2 r.internal_port w.internal_port_16,
        be-put_be 2 r.assigned_external_port w.assigned_external_port_16,
        be-put_be 4 r.lifetime_seconds w.lifetime_seconds_32,
      )
      refl

record IsResponse (opcode : ℕ) (packet : Bytes) : Type 0 where
  long : length packet ≡ 16
  version_right : get_or packet 0 0 ≡ 0
  opcode_right : get_or packet 1 0 ≡ (opcode + 128) % 256

-- The check of the internal port, of a success.
abbrev port_differs : ℕ → MapResponse → Bool
port_differs want r = r.result_code == 0 && not (r.internal_port == want)

parse_IsResponse :
    (packet : Bytes) (opcode want : ℕ)
    → IsResponse opcode packet
    → parse_map_response packet opcode want ≡ (
        if port_differs want (response_of packet)
        then err internal_port_mismatch
        else ok (response_of packet))
unfolding parse_map_response
parse_IsResponse packet opcode want v =
    let l : length packet ≡ 16 = v.long in
    let size : not (length packet == response_size) ≡ false = ground arith in
    let short : ltb (length packet) response_size ≡ false = ground arith in
    let b0 : not (get_or packet 0 0 == 0) ≡ false = ground (arith, v.version_right) in
    let b1 : not (get_or packet 1 0 == (opcode + 128) % 256) ≡ false =
      ground (arith, v.opcode_right) in
    rw
      (
        short,
        size,
        index_ok {E = Error} packet 0 (omega arith),
        b0,
        index_ok {E = Error} packet 1 (omega arith),
        b1,
        slice_ok {E = Error} packet 2 4 (omega arith) (omega arith),
        slice_ok {E = Error} packet 4 8 (omega arith) (omega arith),
        slice_ok {E = Error} packet 8 10 (omega arith) (omega arith),
        slice_ok {E = Error} packet 10 12 (omega arith) (omega arith),
        slice_ok {E = Error} packet 12 16 (omega arith) (omega arith),
      )
      (elim (Bool-cases (port_differs want (response_of packet))) [
        | inl e ↦ rw e refl
        | inr e ↦ rw e refl
      ])

not-IsResponse :
    (packet : Bytes) (opcode want : ℕ)
    → ((e : Error) × (parse_map_response packet opcode want ≡ err e)) ⊎ IsResponse opcode packet
unfolding parse_map_response
not-IsResponse packet opcode want = elim (Bool-cases (ltb (length packet) response_size)) [
  | inl e ↦ inl (truncated, rw e refl)
  | inr e ↦
      let l : 16 ≤ length packet = ground arith in
      elim (Bool-cases (not (get_or packet 0 0 == 0))) [
        | inl f ↦ inl (wrong_version, rw (e, index_ok {E = Error} packet 0 (omega arith), f) refl)
        | inr f ↦ elim (Bool-cases (not (get_or packet 1 0 == (opcode + 128) % 256))) [
          | inl g ↦ inl (
            wrong_opcode,
            rw
                (
                  e,
                  index_ok {E = Error} packet 0 (omega arith),
                  f,
                  index_ok {E = Error} packet 1 (omega arith),
                  g,
                )
                refl,
          )
          | inr g ↦ elim (Bool-cases (not (length packet == response_size))) [
            | inr h ↦ inr (record {
              long = ground arith;
              version_right = ground arith;
              opcode_right = ground arith;
            })
            | inl h ↦ inl (
              trailing_bytes,
              rw
                  (
                    e,
                    index_ok {E = Error} packet 0 (omega arith),
                    f,
                    index_ok {E = Error} packet 1 (omega arith),
                    g,
                    slice_ok {E = Error} packet 2 4 (omega arith) (omega arith),
                    slice_ok {E = Error} packet 4 8 (omega arith) (omega arith),
                    slice_ok {E = Error} packet 8 10 (omega arith) (omega arith),
                    slice_ok {E = Error} packet 10 12 (omega arith) (omega arith),
                    slice_ok {E = Error} packet 12 16 (omega arith) (omega arith),
                    h,
                  )
                  refl,
            )
          ]
        ]
      ]
]

-- A packet is its pieces.
packet_of-response :
    (packet : Bytes) (opcode : ℕ)
    → AreBytes packet
    → IsResponse opcode packet
    → map_response_packet opcode (response_of packet) ≡ packet
packet_of-response packet opcode bytes v =
    let l : length packet ≡ 16 = v.long in
    let o : chunk 12 4 packet ≡ drop 12 packet =
      take_all 4 (drop 12 packet) (omega (arith, length-drop 12 packet)) in
    whole
      (put_be-be 2 (chunk 2 2 packet) (length-chunk 2 2 packet (omega arith))
        (AreBytes-chunk 2 2 packet bytes))
      (put_be-be 4 (chunk 4 4 packet) (length-chunk 4 4 packet (omega arith))
        (AreBytes-chunk 4 4 packet bytes))
      (put_be-be 2 (chunk 8 2 packet) (length-chunk 8 2 packet (omega arith))
        (AreBytes-chunk 8 2 packet bytes))
      (put_be-be 2 (chunk 10 2 packet) (length-chunk 10 2 packet (omega arith))
        (AreBytes-chunk 10 2 packet bytes))
      (put_be-be 4 (chunk 12 4 packet) (length-chunk 12 4 packet (omega arith))
          (AreBytes-chunk 12 4 packet bytes)
        ∙ o)
      (sym v.version_right) (sym v.opcode_right)
  where
    whole :
        {a b c d e : Bytes} {v0 v1 : ℕ}
        → a ≡ chunk 2 2 packet
        → b ≡ chunk 4 4 packet
        → c ≡ chunk 8 2 packet
        → d ≡ chunk 10 2 packet
        → e ≡ drop 12 packet
        → v0 ≡ get_or packet 0 0
        → v1 ≡ get_or packet 1 0
        → v0 ∷ v1 ∷ (a ++ (b ++ (c ++ (d ++ e)))) ≡ packet
    whole ea eb ec ed ee e0 e1 =
        let l : length packet ≡ 16 = v.long in
        rw
          (
            ea,
            eb,
            ec,
            ed,
            ee,
            e0,
            e1,
            chunk_join 10 2 packet,
            chunk_join 8 2 packet,
            chunk_join 4 4 packet,
            chunk_join 2 2 packet,
            get_or-drop 1 packet (omega arith),
          )
          (get_or-drop 0 packet (omega arith))

length-packet : (opcode : ℕ) (r : MapResponse) → length (map_response_packet opcode r) ≡ 16
length-packet opcode r = refl

packet-IsResponse :
    (opcode : ℕ) (r : MapResponse) → IsResponse opcode (map_response_packet opcode r)
packet-IsResponse opcode r = record { long = refl; version_right = refl; opcode_right = refl }

if_ok :
    (b : Bool) (x r : MapResponse)
    → (if b then err internal_port_mismatch else ok x) ≡ ok r
    → (b ≡ false) × (x ≡ r)
if_ok true x r e = cc
if_ok false x r e = (refl, cc)

-- A MAP response is decoded to `r` exactly when the bytes are RFC 6886's packet of `r` for the opcode
-- asked about, and `r` is a failure or is about the internal port asked about.
pub parse_map_response_iff :
    (packet : Bytes) (opcode want : ℕ) (r : MapResponse)
    → AreBytes packet
    → HasWidths r
    → (parse_map_response packet opcode want ≡ ok r)
      ↔ ((packet ≡ map_response_packet opcode r) × ((r.result_code ≢ 0) ⊎ (r.internal_port ≡ want)))
parse_map_response_iff packet opcode want r bytes w = (
  λ e. elim (not-IsResponse packet opcode want) [
    | inl (x, f) ↦ cc
    | inr v ↦
        let (same_port, same) =
          if_ok (port_differs want (response_of packet)) (response_of packet) r
            (sym (parse_IsResponse packet opcode want v) ∙ e) in
        (
          sym (packet_of-response packet opcode bytes v) ∙ ap (map_response_packet opcode) same,
          port_agrees (ap (port_differs want) (sym same) ∙ same_port),
        )
  ],
  λ (e, port).
      let v : IsResponse opcode packet =
        subst (IsResponse opcode) (sym e) (packet-IsResponse opcode r) in
      let same : response_of packet ≡ r = ap response_of e ∙ response_of-packet opcode r w in
      parse_IsResponse packet opcode want v
      ∙ ap (λ x. if port_differs want x then err internal_port_mismatch else ok x) same
      ∙ rw (port_same port) refl,
)
  where
    port_agrees : port_differs want r ≡ false → (r.result_code ≢ 0) ⊎ (r.internal_port ≡ want)
    port_agrees h = elim (Bool-cases (r.result_code == 0)) [
      | inl f ↦ inr (ground arith)
      | inr f ↦ inl (λ z. ground arith)
    ]

    port_same : (r.result_code ≢ 0) ⊎ (r.internal_port ≡ want) → port_differs want r ≡ false
    port_same (inl h) = ground arith
    port_same (inr h) = ground arith

-- No packet makes the decoder of MAP responses panic.
pub parse_map_response-Returns :
    (packet : Bytes) (opcode want : ℕ) → Returns (parse_map_response packet opcode want)
parse_map_response-Returns packet opcode want = elim (not-IsResponse packet opcode want) [
  | inl (x, f) ↦ rw f tt
  | inr v ↦
      rw (parse_IsResponse packet opcode want v)
        (elim (Bool-cases (port_differs want (response_of packet))) [
          | inl e ↦ rw e tt
          | inr e ↦ rw e tt
        ])
]
