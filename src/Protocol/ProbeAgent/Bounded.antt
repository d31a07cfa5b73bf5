-- ===== src/Protocol/ProbeAgent/Bounded.antt =====
-- internal/protocol/probe.go: what holds of an agent's operations in every state that it reaches.
use anti_nat_agent.Base.{
  ℕ, ◌+◌, ◌≤◌, ◌<◌, ◌≡◌, refl, sym, ◌∙◌, true, Option, none, some, List, [], ◌∷◌, ltb, leb, Bytes,
  bytes_eq, length, find, remove, arith, inl, inr, Option-cases, Bool-cases, retain-HasUniqueKeys,
  put-HasUniqueKeys, remove-HasUniqueKeys, All, subst, length-retain, length-put, length-put_found,
  All-retain, All-remove, find-All,
}
use anti_nat_agent.Protocol.Platform.{Platform}
use anti_nat_agent.Protocol.Frames.{ProbeArm, ProviderFrame, validate_arm, arm_digest_of}
use anti_nat_agent.Protocol.ProbeAgent.{
  ProbeAgent, ArmedProbeState, handle_probe_ingress, arm_probe, probe_replay_window, probe_op_max,
  sweep, fresh_op, op_lives, replay_lives, arm_fresh, arm_replay, Call, arms, ingress, serve_all,
  new_probe_agent,
}
use anti_nat_agent.Protocol.ProbeAgent.Binding.{
  accepted, handle_probe_ingress_iff, handle_probe_ingress-rejects,
}
use anti_nat_agent.Protocol.ProbeAgent.Consumption.{IsAgent}

-- An operation stands under its arm's probe ID, with the arm's digest, and the arm is valid.
pub record IsOp (p : Platform) (entry : Bytes × ArmedProbeState) : Type 0 where
  pub own_id : entry.0 ≡ entry.1.arm.probe_id
  pub own_digest : entry.1.digest ≡ arm_digest_of p entry.1.arm
  pub valid : validate_arm p entry.1.arm ≡ none

pub record IsSound (p : Platform) (s : ProbeAgent) : Type 0 where
  pub unique : IsAgent s
  pub bounded : length s.ops ≤ probe_op_max
  pub sound_ops : All (IsOp p) s.ops

module _ (p : Platform) where
  new-IsSound : (key : Bytes) → IsSound p (new_probe_agent key)
  new-IsSound key = record {
    unique = record { ops_unique = tt; replays_unique = tt };
    bounded = omega arith;
    sound_ops = tt;
  }

  sweep-IsSound : (now : ℕ) (s : ProbeAgent) → IsSound p s → IsSound p (sweep now s)
  sweep-IsSound now s v = record {
    unique = record {
      ops_unique = retain-HasUniqueKeys (op_lives now) s.ops v.unique.ops_unique;
      replays_unique = retain-HasUniqueKeys (replay_lives now) s.replays v.unique.replays_unique;
    };
    bounded = omega (arith, length-retain (op_lives now) s.ops, v.bounded);
    sound_ops = All-retain (IsOp p) (op_lives now) s.ops v.sound_ops;
  }

  fresh-IsSound :
      (s : ProbeAgent) (arm : ProbeArm) (now : ℕ) (old : Option ArmedProbeState)
      → validate_arm p arm ≡ none
      → IsSound p s
      → IsSound p (arm_fresh p s arm now old).0
  fresh-IsSound s arm now (some old) valid v =
      elim (Bool-cases (bytes_eq old.digest (arm_digest_of p arm))) [
        | inl f ↦ rw f v
        | inr f ↦ rw f v
      ]
  fresh-IsSound s arm now none valid v = elim (Bool-cases (leb probe_op_max (length s.ops))) [
    | inl f ↦ rw f v
    | inr f ↦
        let room : length s.ops < probe_op_max = ground arith in
        rw f (record {
          unique = record {
            ops_unique =
                put-HasUniqueKeys arm.probe_id (fresh_op p arm now) s.ops v.unique.ops_unique;
            replays_unique = v.unique.replays_unique;
          };
          bounded = omega (arith, length-put arm.probe_id (fresh_op p arm now) s.ops, room);
          sound_ops = (
            record { own_id = refl; own_digest = refl; valid = valid },
            All-remove (IsOp p) arm.probe_id s.ops v.sound_ops,
          );
        })
  ]

  replay-IsSound :
      (s : ProbeAgent) (arm : ProbeArm) (now : ℕ) (cached : Option ℕ)
      → validate_arm p arm ≡ none
      → IsSound p s
      → IsSound p (arm_replay p s arm now cached).0
  replay-IsSound s arm now none valid v = fresh-IsSound s arm now (find arm.probe_id s.ops) valid v
  replay-IsSound s arm now (some expire) valid v = elim (Bool-cases (ltb now expire)) [
    | inl f ↦ rw f v
    | inr f ↦ rw f (
        fresh-IsSound
          (record { node_key = s.node_key; ops = s.ops; replays = remove arm.probe_id s.replays })
          arm now (find arm.probe_id s.ops) valid
          (record {
            unique = record {
              ops_unique = v.unique.ops_unique;
              replays_unique = remove-HasUniqueKeys arm.probe_id s.replays v.unique.replays_unique;
            };
            bounded = v.bounded;
            sound_ops = v.sound_ops;
          }))
  ]

  arm-IsSound :
      (s : ProbeAgent) (arm : ProbeArm) (now : ℕ)
      → IsSound p s
      → IsSound p (arm_probe p s arm now).0
  unfolding arm_probe
  arm-IsSound s arm now v = elim (Option-cases (validate_arm p arm)) [
    | inr (x, f) ↦ rw f v
    | inl f ↦ rw f (
        replay-IsSound (sweep now s) arm now (find arm.probe_id (sweep now s).replays) f
          (sweep-IsSound now s v))
  ]

  ingress-IsSound :
      (s : ProbeAgent) (frame : ProviderFrame) (source_ip : Bytes) (now : ℕ)
      → IsSound p s
      → IsSound p (handle_probe_ingress p s frame source_ip now).0
  ingress-IsSound s frame source_ip now v =
      elim (Bool-cases (handle_probe_ingress p s frame source_ip now).1) [
        | inr f ↦ subst (IsSound p) (sym (handle_probe_ingress-rejects p s frame source_ip now f)) v
        | inl f ↦
            let a = (handle_probe_ingress_iff p s frame source_ip now).0 f in
            let op : ArmedProbeState = record {
              arm = a.op.arm;
              digest = a.op.digest;
              deadline = a.op.deadline;
              used = true;
            } in
            let was : IsOp p (frame.probe_id, a.op) =
              find-All (IsOp p) frame.probe_id a.op s.ops a.armed v.sound_ops in
            subst (λ r. IsSound p r.0) (sym (accepted p s frame source_ip now a))
              (record {
                unique = record {
                  ops_unique = put-HasUniqueKeys frame.probe_id op s.ops v.unique.ops_unique;
                  replays_unique =
                      put-HasUniqueKeys frame.probe_id (now + probe_replay_window) s.replays
                        v.unique.replays_unique;
                };
                bounded =
                    omega (arith, length-put_found frame.probe_id op a.op s.ops a.armed, v.bounded);
                sound_ops = (
                  record { own_id = was.own_id; own_digest = was.own_digest; valid = was.valid },
                  All-remove (IsOp p) frame.probe_id s.ops v.sound_ops,
                );
              })
      ]

  run-IsSound : (s : ProbeAgent) (calls : List Call) → IsSound p s → IsSound p (serve_all p s calls)
  run-IsSound s [] v = v
  run-IsSound s (arms arm now ∷ calls) v =
      run-IsSound (arm_probe p s arm now).0 calls (arm-IsSound s arm now v)
  run-IsSound s (ingress frame source_ip now ∷ calls) v =
      run-IsSound (handle_probe_ingress p s frame source_ip now).0 calls
        (ingress-IsSound s frame source_ip now v)

  -- In every state that an agent reaches, its operations are at most ProbeOpMax, with one for an
  -- ID, and each stands under its own arm's ID with that arm's digest, the arm being valid.
  pub serve_all-IsSound :
      (key : Bytes) (calls : List Call) → IsSound p (serve_all p (new_probe_agent key) calls)
  serve_all-IsSound key calls = run-IsSound (new_probe_agent key) calls (new-IsSound key)

  -- Whatever the calls before, a frame that an agent accepts belongs to a valid arm: it carries that
  -- arm's probe ID and digest, and its provider, activation, endpoint and opaque expiry.
  pub accepted_arm-valid :
      (key : Bytes) (calls : List Call) (frame : ProviderFrame) (source_ip : Bytes) (now : ℕ)
      → (handle_probe_ingress p (serve_all p (new_probe_agent key) calls) frame source_ip now).1
        ≡ true
      → (arm : ProbeArm) × (validate_arm p arm ≡ none)
        × (frame.arm_digest ≡ arm_digest_of p arm)
        × (frame.probe_id ≡ arm.probe_id)
        × (frame.provider_id ≡ arm.provider_id)
        × (frame.activation ≡ arm.activation)
        × (frame.endpoint ≡ arm.endpoint)
        × (frame.expiry_opaque ≡ arm.expiry_opaque)
        × (source_ip ≡ arm.expected_source_ip)
  accepted_arm-valid key calls frame source_ip now f =
      let s : ProbeAgent = serve_all p (new_probe_agent key) calls in
      let a = (handle_probe_ingress_iff p s frame source_ip now).0 f in
      let was : IsOp p (frame.probe_id, a.op) =
        find-All (IsOp p) frame.probe_id a.op s.ops a.armed
          (serve_all-IsSound key calls).sound_ops in
      (
        a.op.arm,
        was.valid,
        a.answers.digest ∙ was.own_digest,
        was.own_id,
        a.answers.provider,
        a.answers.activation,
        a.answers.endpoint,
        a.answers.expiry,
        a.answers.source,
      )
