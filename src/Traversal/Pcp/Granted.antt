-- ===== src/Traversal/Pcp/Granted.antt =====
-- internal/traversal/pcp/pcp.go: what the decoders of responses accept, and that they return.
use anti_nat_agent.Base.{
  ℕ, ◌≡◌, sym, ap, ◌∙◌, not, ok, Returns, Bytes, arith, length, chunk, get_or, ltb, ◌==◌,
  guard-Returns, bind-Returns, slice-Returns, index-Returns, be, inl, inr, Bool-cases, bind-ok,
  guard-ok, ok-injective, length-chunk, slice_ok, index_ok, ◌-◌, ◌%◌, ◌≤◌,
}
use anti_nat_agent.Traversal.Pcp.{
  Error, MapResponse, parse_announce_response, parse_granted, parse_map_response, mapped_to_v4,
}
use anti_nat_agent.Traversal.Pcp.Mapped.{mapped_to_v4-Returns}

granted-Returns :
    (packet : Bytes) (want_protocol want_port : ℕ) (response : MapResponse)
    → Returns (parse_granted packet want_protocol want_port response)
unfolding parse_granted
granted-Returns packet want_protocol want_port response =
    guard-Returns {E = Error} {A = MapResponse} (not (length packet == 60)) _ _ λ g.
      let l : length packet ≡ 60 = ground arith in
      slice-Returns packet 24 (length packet) _ (omega arith) (omega arith) λ s.
        slice-Returns (chunk 24 (length packet - 24) packet) 0 12 _ (omega arith) (omega arith) λ n.
          index-Returns (chunk 24 (length packet - 24) packet) 12 _ (omega arith) λ protocol.
            slice-Returns (chunk 24 (length packet - 24) packet) 16 18 _ (omega arith) (omega arith)
              λ a.
                slice-Returns (chunk 24 (length packet - 24) packet) 18 20 _ (omega arith)
                  (omega arith)
                  λ b.
                    slice-Returns (chunk 24 (length packet - 24) packet) 20 36 _ (omega arith)
                      (omega arith)
                      λ c. bind-Returns (mapped_to_v4 _) _ (mapped_to_v4-Returns _) λ external.
                        guard-Returns {E = Error} {A = MapResponse}
                          (not (protocol == want_protocol)) _ _
                          λ p.
                            guard-Returns {E = Error} {A = MapResponse}
                              (not (
                                be (chunk 16 2 (chunk 24 (length packet - 24) packet))
                                == want_port))
                              _ _ λ q. tt

-- No packet makes the decoders of announcements and of MAP responses panic.
pub parse_response-Returns :
    (packet : Bytes) (want_protocol want_port : ℕ)
    → Returns (parse_announce_response packet)
      × Returns (parse_map_response packet want_protocol want_port)
unfolding parse_announce_response parse_map_response
parse_response-Returns packet want_protocol want_port = (
  guard-Returns {E = Error} {A = MapResponse} (ltb (length packet) 24) _ _ λ g.
      let l : 24 ≤ length packet = ground arith in
      guard-Returns {E = Error} {A = MapResponse} (not (length packet == 24)) _ _ λ h.
        index-Returns packet 0 _ (omega arith) λ b0.
          guard-Returns {E = Error} {A = MapResponse} (not (b0 == 2)) _ _ λ g0.
            index-Returns packet 1 _ (omega arith) λ b1.
              guard-Returns {E = Error} {A = MapResponse} (not (b1 == 128)) _ _ λ g1.
                index-Returns packet 3 _ (omega arith) λ code.
                  slice-Returns packet 4 8 _ (omega arith) (omega arith)
                    λ a. slice-Returns packet 8 12 _ (omega arith) (omega arith) λ b. tt,
  guard-Returns {E = Error} {A = MapResponse} (ltb (length packet) 24) _ _ λ g.
      let l : 24 ≤ length packet = ground arith in
      guard-Returns {E = Error} {A = MapResponse} (not (length packet % 4 == 0)) _ _ λ h.
        index-Returns packet 0 _ (omega arith) λ b0.
          guard-Returns {E = Error} {A = MapResponse} (not (b0 == 2)) _ _ λ g0.
            index-Returns packet 1 _ (omega arith) λ b1.
              guard-Returns {E = Error} {A = MapResponse} (not (b1 == 129)) _ _ λ g1.
                index-Returns packet 3 _ (omega arith) λ code.
                  slice-Returns packet 4 8 _ (omega arith) (omega arith) λ a.
                    slice-Returns packet 8 12 _ (omega arith) (omega arith) λ b.
                      elim (Bool-cases (code == 0)) [
                        | inl e ↦ rw e (granted-Returns packet want_protocol want_port _)
                        | inr e ↦ rw e tt
                      ],
)

-- The payload carries the result: nonce, protocol, internal port, external port and external address
-- stand at their places, and protocol and internal port are those asked about.
pub record Carries (payload : Bytes) (want_protocol want_port : ℕ) (r : MapResponse) : Type 0 where
  of_nonce : r.nonce ≡ chunk 0 12 payload
  of_protocol : (r.protocol ≡ get_or payload 12 0) × (r.protocol ≡ want_protocol)
  of_port : (r.internal_port ≡ be (chunk 16 2 payload)) × (r.internal_port ≡ want_port)
  of_external_port : r.assigned_external_port ≡ be (chunk 18 2 payload)
  of_address : mapped_to_v4 (chunk 20 16 payload) ≡ ok r.assigned_external_address

-- The result is what the packet's bytes say, by the layout of RFC 6887, figures 3 and 10, and is what
-- was asked about.
pub record Grants (packet : Bytes) (want_protocol want_port : ℕ) (r : MapResponse) : Type 0 where
  long : length packet ≡ 60
  of_version : get_or packet 0 0 ≡ 2
  of_opcode : get_or packet 1 0 ≡ 129
  of_code : get_or packet 3 0 ≡ 0
  of_lifetime : r.lifetime_seconds ≡ be (chunk 4 4 packet)
  of_epoch : r.epoch ≡ be (chunk 8 4 packet)
  of_payload : Carries (chunk 24 36 packet) want_protocol want_port r

granted :
    (packet : Bytes) (want_protocol want_port : ℕ) (response r : MapResponse)
    → parse_granted packet want_protocol want_port response ≡ ok r
    → (length packet ≡ 60)
      × (r.lifetime_seconds ≡ response.lifetime_seconds)
      × (r.epoch ≡ response.epoch)
      × Carries (chunk 24 36 packet) want_protocol want_port r
unfolding parse_granted
granted packet want_protocol want_port response r e =
    let (g, e1) = guard-ok {E = Error} {A = MapResponse} (not (length packet == 60)) _ _ r e in
    let l : length packet ≡ 60 = ground arith in
    let pl : length (chunk 24 36 packet) ≡ 36 = length-chunk 24 36 packet (omega arith) in
    let e2 =
      rw
        (
          l,
          slice_ok {E = Error} packet 24 60 (omega arith) (omega arith),
          slice_ok {E = Error} (chunk 24 36 packet) 0 12 (omega arith) (omega arith),
          index_ok {E = Error} (chunk 24 36 packet) 12 (omega arith),
          slice_ok {E = Error} (chunk 24 36 packet) 16 18 (omega arith) (omega arith),
          slice_ok {E = Error} (chunk 24 36 packet) 18 20 (omega arith) (omega arith),
          slice_ok {E = Error} (chunk 24 36 packet) 20 36 (omega arith) (omega arith),
        )
        at e1 in
    let (external, m, e3) =
      bind-ok {E = Error} {B = MapResponse} (mapped_to_v4 (chunk 20 16 (chunk 24 36 packet))) _ r
        e2 in
    let (p, e4) =
      guard-ok {E = Error} {A = MapResponse}
        (not (get_or (chunk 24 36 packet) 12 0 == want_protocol)) _ _ r e3 in
    let (q, e5) =
      guard-ok {E = Error} {A = MapResponse}
        (not (be (chunk 16 2 (chunk 24 36 packet)) == want_port)) _ _ r e4 in
    let p' : get_or (chunk 24 36 packet) 12 0 ≡ want_protocol = ground arith in
    let q' : be (chunk 16 2 (chunk 24 36 packet)) ≡ want_port = ground arith in
    let same = ok-injective {E = Error} _ r e5 in
    (
      l,
      sym (ap (λ x. x.lifetime_seconds) same),
      sym (ap (λ x. x.epoch) same),
      record {
        of_nonce = sym (ap (λ x. x.nonce) same);
        of_protocol = (sym (ap (λ x. x.protocol) same), sym (ap (λ x. x.protocol) same) ∙ p');
        of_port = (sym (ap (λ x. x.internal_port) same), sym (ap (λ x. x.internal_port) same) ∙ q');
        of_external_port = sym (ap (λ x. x.assigned_external_port) same);
        of_address = m ∙ ap (λ x. ok x.assigned_external_address) same;
      },
    )

-- A MAP response that is accepted as a success is a packet of 60 bytes with version 2, the MAP opcode
-- of a response and the code 0, and its payload's protocol and internal port are those asked about;
-- the lifetime, the epoch, the nonce, both ports and the external address that are returned are
-- those at their places in the packet.
pub parse_map_response-granted :
    (packet : Bytes) (want_protocol want_port : ℕ) (r : MapResponse)
    → parse_map_response packet want_protocol want_port ≡ ok r
    → r.result_code ≡ 0
    → Grants packet want_protocol want_port r
unfolding parse_map_response
parse_map_response-granted packet want_protocol want_port r e zero_code =
    let (g, e1) = guard-ok {E = Error} {A = MapResponse} (ltb (length packet) 24) _ _ r e in
    let l : 24 ≤ length packet = ground arith in
    let (h, e2) = guard-ok {E = Error} {A = MapResponse} (not (length packet % 4 == 0)) _ _ r e1 in
    let e3 = rw (index_ok {E = Error} packet 0 (omega arith)) at e2 in
    let (i, e4) = guard-ok {E = Error} {A = MapResponse} (not (get_or packet 0 0 == 2)) _ _ r e3 in
    let e5 = rw (index_ok {E = Error} packet 1 (omega arith)) at e4 in
    let (j, e6) =
      guard-ok {E = Error} {A = MapResponse} (not (get_or packet 1 0 == 129)) _ _ r e5 in
    let e7 =
      rw
        (
          index_ok {E = Error} packet 3 (omega arith),
          slice_ok {E = Error} packet 4 8 (omega arith) (omega arith),
          slice_ok {E = Error} packet 8 12 (omega arith) (omega arith),
        )
        at e6 in
    elim (Bool-cases (get_or packet 3 0 == 0)) [
      | inl k ↦
          let (long, lifetime, epoch, payload) =
            granted packet want_protocol want_port _ r (rw k at e7) in
          record {
            long = long;
            of_version = ground arith;
            of_opcode = ground arith;
            of_code = ground arith;
            of_lifetime = lifetime;
            of_epoch = epoch;
            of_payload = payload;
          }
      | inr k ↦
          let e8 = rw k at e7 in
          let same = ok-injective {E = Error} _ r e8 in
          let c : get_or packet 3 0 ≡ r.result_code = ap (λ x. x.result_code) same in
          absurd (ground arith)
    ]
