-- ===== src/Protocol/ProbeAgent/Join.antt =====
-- internal/protocol/probe.go: what a join of the Controller (VerifyProbeJoin) proves.
use anti_nat_agent.Base.{◌≡◌, true, none, Bytes, arith, ◌↔◌, inl, inr, Option-cases, bytes_eq→eq}
use anti_nat_agent.Protocol.Platform.{Platform, verify}
use anti_nat_agent.Protocol.Frames.{
  ProbeArm, ProviderFrame, ProbeAck, ProbeReceipt, frame_canonical, ack_signing_bytes,
  receipt_signing_bytes, validate_arm, arm_digest_of,
}
use anti_nat_agent.Protocol.ProbeAgent.Binding.{equal_bytes}
use anti_nat_agent.Protocol.ProbeAgent.{verify_probe_join, challenge_hash_of}

-- One operation, one challenge and one provider.
pub record Joined (p : Platform) (arm : ProbeArm) (frame : ProviderFrame) (ack : ProbeAck)
    (receipt : ProbeReceipt) (node_pub : Bytes) : Type 0 where
  pub valid : validate_arm p arm ≡ none
  pub frame_digest : frame.arm_digest ≡ arm_digest_of p arm
  pub ack_digest : ack.arm_digest ≡ arm_digest_of p arm
  pub receipt_digest : receipt.arm_digest ≡ arm_digest_of p arm
  pub probe : frame.probe_id ≡ arm.probe_id
  pub provider : frame.provider_id ≡ arm.provider_id
  pub activation : frame.activation ≡ arm.activation
  pub endpoint : frame.endpoint ≡ arm.endpoint
  pub expiry : frame.expiry_opaque ≡ arm.expiry_opaque
  pub receipt_provider : receipt.provider_id ≡ arm.provider_id
  pub frame_signed : verify p arm.provider_public_key (frame_canonical frame) frame.signature ≡ true
  pub ack_challenge : ack.challenge_hash ≡ challenge_hash_of p frame
  pub receipt_challenge : receipt.challenge_hash ≡ challenge_hash_of p frame
  pub ack_signed : verify p node_pub (ack_signing_bytes ack) ack.signature ≡ true
  pub receipt_signed : verify p node_pub (receipt_signing_bytes receipt) receipt.signature ≡ true

module _ (p : Platform) (arm : ProbeArm) (frame : ProviderFrame) (ack : ProbeAck)
    (receipt : ProbeReceipt) (node_pub : Bytes) where
  joined :
      verify_probe_join p arm frame ack receipt node_pub ≡ true
      → Joined p arm frame ack receipt node_pub
  unfolding verify_probe_join
  joined e = elim (Option-cases (validate_arm p arm)) [
    | inr (x, f) ↦ ground arith
    | inl v ↦ record {
      valid = v;
      frame_digest = bytes_eq→eq frame.arm_digest (arm_digest_of p arm) (ground arith);
      ack_digest = bytes_eq→eq ack.arm_digest (arm_digest_of p arm) (ground arith);
      receipt_digest = bytes_eq→eq receipt.arm_digest (arm_digest_of p arm) (ground arith);
      probe = bytes_eq→eq frame.probe_id arm.probe_id (ground arith);
      provider = bytes_eq→eq frame.provider_id arm.provider_id (ground arith);
      activation = bytes_eq→eq frame.activation arm.activation (ground arith);
      endpoint = bytes_eq→eq frame.endpoint arm.endpoint (ground arith);
      expiry = bytes_eq→eq frame.expiry_opaque arm.expiry_opaque (ground arith);
      receipt_provider = bytes_eq→eq receipt.provider_id arm.provider_id (ground arith);
      frame_signed = ground arith;
      ack_challenge = bytes_eq→eq ack.challenge_hash (challenge_hash_of p frame) (ground arith);
      receipt_challenge =
          bytes_eq→eq receipt.challenge_hash (challenge_hash_of p frame) (ground arith);
      ack_signed = ground arith;
      receipt_signed = ground arith;
    }
  ]

  joins :
      Joined p arm frame ack receipt node_pub
      → verify_probe_join p arm frame ack receipt node_pub ≡ true
  unfolding verify_probe_join
  joins j = ground (
    arith,
    equal_bytes _ _ j.frame_digest,
    equal_bytes _ _ j.ack_digest,
    equal_bytes _ _ j.receipt_digest,
    equal_bytes _ _ j.probe,
    equal_bytes _ _ j.provider,
    equal_bytes _ _ j.activation,
    equal_bytes _ _ j.endpoint,
    equal_bytes _ _ j.expiry,
    equal_bytes _ _ j.receipt_provider,
    equal_bytes _ _ j.ack_challenge,
    equal_bytes _ _ j.receipt_challenge,
  )

  -- The join succeeds exactly when the arm is valid, the provider's frame, the acknowledgement and
  -- the receipt carry the arm's digest, the frame and the receipt name the arm's provider, the frame
  -- its probe, activation, endpoint and expiry, the acknowledgement and the receipt carry the digest
  -- of the frame's challenge, and all three signatures verify.
  pub verify_probe_join_iff :
      (verify_probe_join p arm frame ack receipt node_pub ≡ true)
      ↔ Joined p arm frame ack receipt node_pub
  verify_probe_join_iff = (joined, joins)
