-- ===== src/Protocol/ProbeAgent/Binding.antt =====
-- internal/protocol/probe.go: what an accepted frame and an accepted join are bound to.
use anti_nat_agent.Base.{
  ℕ, ◌+◌, ◌≤◌, ◌≡◌, refl, sym, ap, ◌∙◌, Bool, true, false, not, ◌||◌, some, ltb, Bytes, bytes_eq,
  find, put, arith, ◌⊎◌, ◌↔◌, inl, inr, Option-cases, Bool-cases, bytes_eq→eq, bytes_eq_refl,
}
use anti_nat_agent.Protocol.Platform.{Platform, verify}
use anti_nat_agent.Protocol.Frames.{ProviderFrame, frame_canonical}
use anti_nat_agent.Protocol.ProbeAgent.{
  ProbeAgent, ArmedProbeState, handle_probe_ingress, frame_matches, probe_replay_window,
}

-- What a frame must answer for, of the operation that its ID names.
pub record Answers (p : Platform) (op : ArmedProbeState) (frame : ProviderFrame) (source_ip : Bytes)
    : Type 0 where
  pub source : source_ip ≡ op.arm.expected_source_ip
  pub digest : frame.arm_digest ≡ op.digest
  pub provider : frame.provider_id ≡ op.arm.provider_id
  pub activation : frame.activation ≡ op.arm.activation
  pub endpoint : frame.endpoint ≡ op.arm.endpoint
  pub expiry : frame.expiry_opaque ≡ op.arm.expiry_opaque
  pub signed : verify p op.arm.provider_public_key (frame_canonical frame) frame.signature ≡ true

split_or : (a b : Bool) → not (not a || b) ≡ true → (a ≡ true) × (not b ≡ true)
split_or true b h = (refl, h)
split_or false b h = cc

double_not : (a : Bool) → not (not a) ≡ true → a ≡ true
double_not true h = refl
double_not false h = h

matches→Answers :
    (p : Platform) (op : ArmedProbeState) (frame : ProviderFrame) (source_ip : Bytes)
    → frame_matches p op frame source_ip ≡ true
    → Answers p op frame source_ip
unfolding frame_matches
matches→Answers p op frame source_ip h =
    let (a, h1) = split_or (bytes_eq source_ip op.arm.expected_source_ip) _ h in
    let (b, h2) = split_or (bytes_eq frame.arm_digest op.digest) _ h1 in
    let (c, h3) = split_or (bytes_eq frame.provider_id op.arm.provider_id) _ h2 in
    let (d, h4) = split_or (bytes_eq frame.activation op.arm.activation) _ h3 in
    let (e, h5) = split_or (bytes_eq frame.endpoint op.arm.endpoint) _ h4 in
    let (f, h6) = split_or (bytes_eq frame.expiry_opaque op.arm.expiry_opaque) _ h5 in
    record {
      source = bytes_eq→eq _ _ a;
      digest = bytes_eq→eq _ _ b;
      provider = bytes_eq→eq _ _ c;
      activation = bytes_eq→eq _ _ d;
      endpoint = bytes_eq→eq _ _ e;
      expiry = bytes_eq→eq _ _ f;
      signed = double_not _ h6;
    }

pub equal_bytes : (x y : Bytes) → x ≡ y → bytes_eq x y ≡ true
equal_bytes x y e = rw e (bytes_eq_refl y)

Answers→matches :
    (p : Platform) (op : ArmedProbeState) (frame : ProviderFrame) (source_ip : Bytes)
    → Answers p op frame source_ip
    → frame_matches p op frame source_ip ≡ true
unfolding frame_matches
Answers→matches p op frame source_ip a =
    rw
      (
        a.signed,
        equal_bytes _ _ a.source,
        equal_bytes _ _ a.digest,
        equal_bytes _ _ a.provider,
        equal_bytes _ _ a.activation,
        equal_bytes _ _ a.endpoint,
        equal_bytes _ _ a.expiry,
      )
      refl

-- An operation of the frame's ID that is armed, not used and in time, and that the frame answers.
pub record Acceptable (p : Platform) (s : ProbeAgent) (frame : ProviderFrame) (source_ip : Bytes)
    (now : ℕ) : Type 0 where
  pub op : ArmedProbeState
  pub armed : find frame.probe_id s.ops ≡ some op
  pub unused : op.used ≡ false
  pub in_time : now ≤ op.deadline
  pub answers : Answers p op frame source_ip

module _ (p : Platform) (s : ProbeAgent) (frame : ProviderFrame) (source_ip : Bytes) (now : ℕ) where
  ingress_cases :
      (handle_probe_ingress p s frame source_ip now ≡ (s, false))
      ⊎ Acceptable p s frame source_ip now
  unfolding handle_probe_ingress
  ingress_cases = elim (Option-cases (find frame.probe_id s.ops)) [
    | inl e ↦ inl (rw e refl)
    | inr (op, e) ↦ elim (Bool-cases (op.used || ltb op.deadline now)) [
      | inl f ↦ inl (rw (e, f) refl)
      | inr f ↦ elim (Bool-cases (frame_matches p op frame source_ip)) [
        | inr g ↦ inl (rw (e, f, g) refl)
        | inl g ↦ inr (record {
          op = op;
          armed = e;
          unused = ground arith;
          in_time = ground arith;
          answers = matches→Answers p op frame source_ip g;
        })
      ]
    ]
  ]

  -- The state after an accepted frame.
  pub accepted :
      (a : Acceptable p s frame source_ip now)
      → handle_probe_ingress p s frame source_ip now ≡ (
        record {
          node_key = s.node_key;
          ops =
              put frame.probe_id
                (record {
                  arm = a.op.arm;
                  digest = a.op.digest;
                  deadline = a.op.deadline;
                  used = true;
                })
                s.ops;
          replays = put frame.probe_id (now + probe_replay_window) s.replays;
        },
        true,
      )
  unfolding handle_probe_ingress
  accepted a =
      let late : ltb a.op.deadline now ≡ false = ground (arith, a.in_time) in
      rw (a.armed, Answers→matches p a.op frame source_ip a.answers, a.unused, late) refl

  -- A frame is accepted exactly when its ID names an armed operation that is unused and in time,
  -- the source address, the arm's digest, the provider, the activation, the endpoint and the
  -- opaque expiry are the operation's, and the signature verifies under the arm's provider key.
  pub handle_probe_ingress_iff :
      ((handle_probe_ingress p s frame source_ip now).1 ≡ true) ↔ Acceptable p s frame source_ip now
  handle_probe_ingress_iff = (
    λ e. elim ingress_cases [ inl f ↦ absurd (true≢false (sym e ∙ ap (λ x. x.1) f)) | inr a ↦ a ],
    λ a. ap (λ x. x.1) (accepted a),
  )
    where
      true≢false : true ≡ false → ⊥
      true≢false e = cc

  -- A frame that is not accepted leaves the agent as it was.
  pub handle_probe_ingress-rejects :
      (handle_probe_ingress p s frame source_ip now).1 ≡ false
      → (handle_probe_ingress p s frame source_ip now).0 ≡ s
  handle_probe_ingress-rejects e = elim ingress_cases [
    | inl f ↦ ap (λ x. x.0) f
    | inr a ↦ absurd (true≢false (sym (ap (λ x. x.1) (accepted a)) ∙ e))
  ]
    where
      true≢false : true ≡ false → ⊥
      true≢false e = cc
