-- ===== src/Protocol/Frames/Safe.antt =====
-- internal/protocol/probe.go: the parsers of the other frames return on every byte string.
use anti_nat_agent.Base.{
  ℕ, ◌≡◌, ◌≤◌, ◌-◌, ◌+◌, not, ◌||◌, Returns, Bytes, arith, length, chunk, get_or, ltb, ◌==◌,
  guard-Returns, slice-Returns, index_ok, Option-cases, bytes_eq, inl, inr, Bool-cases,
}
use anti_nat_agent.Protocol.Platform.{Platform, verify}
use anti_nat_agent.Protocol.Frames.{
  Error, ProbeArmed, ProbeAck, ProbeReceipt, ProviderFrame, parse_probe_armed, parse_provider_frame,
  parse_probe_ack, parse_probe_receipt, magic_armed, magic_ack, magic_receipt, magic_wan,
  probe_frame_max, validate_probe_endpoint, armed_signing_bytes, ack_signing_bytes,
  receipt_signing_bytes,
}

module _ (p : Platform) (raw : Bytes) where
  armed-Returns :
      (node_pub want_digest : Bytes) → Returns (parse_probe_armed p raw node_pub want_digest)
  unfolding parse_probe_armed
  armed-Returns node_pub want_digest =
      guard-Returns {E = Error} {A = ProbeArmed} (not (length raw == 100)) _ _ λ g.
        let l : length raw ≡ 100 = ground arith in
        slice-Returns raw 0 4 _ (omega arith) (omega arith) λ m.
          guard-Returns {E = Error} {A = ProbeArmed} (not (bytes_eq (chunk 0 4 raw) magic_armed)) _
            _
            λ h. slice-Returns raw 4 36 _ (omega arith) (omega arith) λ d.
              slice-Returns raw 36 (length raw) _ (omega arith) (omega arith) λ s.
                guard-Returns {E = Error} {A = ProbeArmed}
                  (not (bytes_eq (chunk 4 32 raw) want_digest)) _ _
                  λ i.
                    elim (Bool-cases (
                      verify p node_pub
                        (armed_signing_bytes (record {
                          arm_digest = chunk 4 32 raw;
                          signature = chunk 36 (length raw - 36) raw;
                        }))
                        (chunk 36 (length raw - 36) raw))) [ inl v ↦ rw v tt | inr v ↦ rw v tt ]

  ack-Returns : (node_pub : Bytes) → Returns (parse_probe_ack p raw node_pub)
  unfolding parse_probe_ack
  ack-Returns node_pub = guard-Returns {E = Error} {A = ProbeAck} (not (length raw == 132)) _ _ λ g.
      let l : length raw ≡ 132 = ground arith in
      slice-Returns raw 0 4 _ (omega arith) (omega arith) λ m.
        guard-Returns {E = Error} {A = ProbeAck} (not (bytes_eq (chunk 0 4 raw) magic_ack)) _ _ λ h.
          slice-Returns raw 4 36 _ (omega arith) (omega arith) λ d.
            slice-Returns raw 36 68 _ (omega arith) (omega arith) λ c.
              slice-Returns raw 68 (length raw) _ (omega arith) (omega arith) λ s.
                elim (Bool-cases (
                  verify p node_pub
                    (ack_signing_bytes (record {
                      arm_digest = chunk 4 32 raw;
                      challenge_hash = chunk 36 32 raw;
                      signature = chunk 68 (length raw - 68) raw;
                    }))
                    (chunk 68 (length raw - 68) raw))) [ inl v ↦ rw v tt | inr v ↦ rw v tt ]

  receipt-Returns : (node_pub : Bytes) → Returns (parse_probe_receipt p raw node_pub)
  unfolding parse_probe_receipt
  receipt-Returns node_pub =
      guard-Returns {E = Error} {A = ProbeReceipt} (not (length raw == 148)) _ _ λ g.
        let l : length raw ≡ 148 = ground arith in
        slice-Returns raw 0 4 _ (omega arith) (omega arith) λ m.
          guard-Returns {E = Error} {A = ProbeReceipt}
            (not (bytes_eq (chunk 0 4 raw) magic_receipt)) _ _
            λ h. slice-Returns raw 4 36 _ (omega arith) (omega arith) λ d.
              slice-Returns raw 36 68 _ (omega arith) (omega arith) λ c.
                slice-Returns raw 68 84 _ (omega arith) (omega arith) λ i.
                  slice-Returns raw 84 (length raw) _ (omega arith) (omega arith) λ s.
                    elim (Bool-cases (
                      verify p node_pub
                        (receipt_signing_bytes (record {
                          arm_digest = chunk 4 32 raw;
                          challenge_hash = chunk 36 32 raw;
                          provider_id = chunk 68 16 raw;
                          signature = chunk 84 (length raw - 84) raw;
                        }))
                        (chunk 84 (length raw - 84) raw))) [ inl v ↦ rw v tt | inr v ↦ rw v tt ]

  frame-Returns : Returns (parse_provider_frame p raw)
  unfolding parse_provider_frame
  frame-Returns =
      let n : ℕ = get_or raw 84 0 in
      guard-Returns {E = Error} {A = ProviderFrame}
        (ltb (length raw) 85 || ltb probe_frame_max (length raw)) _ _
        λ g.
          let l : 85 ≤ length raw = ground arith in
          slice-Returns raw 0 4 _ (omega arith) (omega arith) λ m.
            guard-Returns {E = Error} {A = ProviderFrame} (not (bytes_eq (chunk 0 4 raw) magic_wan))
              _ _
              λ h. rw (index_ok {E = Error} raw 84 (omega arith)) (
                guard-Returns {E = Error} {A = ProviderFrame}
                  ((n == 0) || not (length raw == 85 + n + (16 + 32 + 64))) _ _
                  λ i.
                    let k : length raw ≡ 85 + n + 112 = ground arith in
                    slice-Returns raw 4 36 _ (omega arith) (omega arith) λ a.
                      slice-Returns raw 36 52 _ (omega arith) (omega arith) λ b.
                        slice-Returns raw 52 68 _ (omega arith) (omega arith) λ c.
                          slice-Returns raw 68 84 _ (omega arith) (omega arith) λ d.
                            slice-Returns raw 85 (85 + n) _ (omega arith) (omega arith) λ e.
                              elim (Option-cases
                                (validate_probe_endpoint p (chunk 85 (85 + n - 85) raw))) [
                                  | inr (x, f) ↦ rw f tt
                                  | inl f ↦ rw f (
                                      slice-Returns raw (85 + n) (85 + n + 16) _ (omega arith)
                                        (omega arith)
                                        λ o.
                                          slice-Returns raw (85 + n + 16) (85 + n + 16 + 32) _
                                            (omega arith) (omega arith)
                                            λ q.
                                              slice-Returns raw (85 + n + 16 + 32) (length raw) _
                                                (omega arith) (omega arith) λ r. tt)
                                ])

  -- No byte string makes the parsers of the armed answer, the provider's frame, the acknowledgement
  -- and the receipt panic.
  pub frame_parsers-Return :
      (node_pub want_digest : Bytes)
      → Returns (parse_probe_armed p raw node_pub want_digest)
        × Returns (parse_provider_frame p raw)
        × Returns (parse_probe_ack p raw node_pub)
        × Returns (parse_probe_receipt p raw node_pub)
  frame_parsers-Return node_pub want_digest = (
    armed-Returns node_pub want_digest,
    frame-Returns,
    ack-Returns node_pub,
    receipt-Returns node_pub,
  )
