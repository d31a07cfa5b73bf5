-- ===== src/Protocol/ProbeAgent/Held.antt =====
-- internal/protocol/probe.go: the operation of a probe ID through the calls that an agent serves.
use anti_nat_agent.Base.{
  ℕ, ◌+◌, ◌≤◌, ◌≡◌, refl, sym, ap, subst, ◌∙◌, true, false, Option, none, some, List, [], ◌∷◌, ltb,
  leb, Bytes, bytes_eq, length, find, remove, put, arith, inl, inr, Option-cases, Bool-cases,
  bytes_eq→eq, find-put, find-put_other, find-retain, retain-HasUniqueKeys, put-HasUniqueKeys,
  remove-HasUniqueKeys, All,
}
use anti_nat_agent.Protocol.Platform.{Platform}
use anti_nat_agent.Protocol.Frames.{ProbeArm, ProviderFrame, validate_arm, arm_digest_of}
use anti_nat_agent.Protocol.ProbeAgent.{
  ProbeAgent, ArmedProbeState, handle_probe_ingress, arm_probe, probe_replay_window, sweep,
  fresh_op, op_lives, replay_lives, arm_fresh, arm_replay, Call, arms, ingress, serve_all,
}
use anti_nat_agent.Protocol.ProbeAgent.Binding.{
  Acceptable, accepted, handle_probe_ingress_iff, handle_probe_ingress-rejects,
}
use anti_nat_agent.Protocol.ProbeAgent.Consumption.{IsAgent, time}

-- The ID `k` has an operation of the digest `d` until `deadline`, and the agent's key is `key`.
pub record Holds (k d : Bytes) (deadline : ℕ) (key : Bytes) (s : ProbeAgent) : Type 0 where
  pub unique : IsAgent s
  pub own_key : s.node_key ≡ key
  pub op : ArmedProbeState
  pub there : find k s.ops ≡ some op
  pub same_digest : op.digest ≡ d
  pub same_deadline : op.deadline ≡ deadline

some-injective : {a b : ArmedProbeState} → some a ≡ some b → a ≡ b
some-injective e = cc

put-IsAgent :
    (s : ProbeAgent) (k : Bytes) (op : ArmedProbeState) (expire : ℕ)
    → IsAgent s
    → IsAgent
        (record { node_key = s.node_key; ops = put k op s.ops; replays = put k expire s.replays })
put-IsAgent s k op expire v = record {
  ops_unique = put-HasUniqueKeys k op s.ops v.ops_unique;
  replays_unique = put-HasUniqueKeys k expire s.replays v.replays_unique;
}

module _ (p : Platform) (k d : Bytes) (deadline : ℕ) (key : Bytes) where
  pub sweep-Holds :
      (s : ProbeAgent) (now : ℕ)
      → now ≤ deadline
      → Holds k d deadline key s
      → Holds k d deadline key (sweep now s)
  sweep-Holds s now h c =
      let lives : op_lives now c.op ≡ true = ground (arith, c.same_deadline) in
      record {
        unique = record {
          ops_unique = retain-HasUniqueKeys (op_lives now) s.ops c.unique.ops_unique;
          replays_unique =
              retain-HasUniqueKeys (replay_lives now) s.replays c.unique.replays_unique;
        };
        own_key = c.own_key;
        op = c.op;
        there = find-retain k (op_lives now) s.ops c.unique.ops_unique ∙ rw (c.there, lives) refl;
        same_digest = c.same_digest;
        same_deadline = c.same_deadline;
      }

  found-Holds :
      (s : ProbeAgent) (arm : ProbeArm) (now : ℕ) (old : ArmedProbeState)
      → Holds k d deadline key s
      → Holds k d deadline key (arm_fresh p s arm now (some old)).0
  found-Holds s arm now old c = elim (Bool-cases (bytes_eq old.digest (arm_digest_of p arm))) [
    | inl f ↦ rw f c
    | inr f ↦ rw f c
  ]

  -- An arm of another ID that enters an operation.
  entered-Holds :
      (s : ProbeAgent) (arm : ProbeArm) (now : ℕ)
      → bytes_eq k arm.probe_id ≡ false
      → Holds k d deadline key s
      → Holds k d deadline key (arm_fresh p s arm now none).0
  entered-Holds s arm now other c = elim (Bool-cases (leb 1024 (length s.ops))) [
    | inl f ↦ rw f c
    | inr f ↦ rw f (record {
      unique = record {
        ops_unique = put-HasUniqueKeys arm.probe_id (fresh_op p arm now) s.ops c.unique.ops_unique;
        replays_unique = c.unique.replays_unique;
      };
      own_key = c.own_key;
      op = c.op;
      there = find-put_other k arm.probe_id (fresh_op p arm now) s.ops other ∙ c.there;
      same_digest = c.same_digest;
      same_deadline = c.same_deadline;
    })
  ]

  fresh-Holds :
      (s : ProbeAgent) (arm : ProbeArm) (now : ℕ)
      → Holds k d deadline key s
      → Holds k d deadline key (arm_fresh p s arm now (find arm.probe_id s.ops)).0
  fresh-Holds s arm now c = elim (Option-cases (find arm.probe_id s.ops)) [
    | inr (old, f) ↦ rw f (found-Holds s arm now old c)
    | inl f ↦ elim (Bool-cases (bytes_eq k arm.probe_id)) [
      | inr other ↦ rw f (entered-Holds s arm now other c)
      | inl same ↦
          absurd
            (missing (sym (ap (λ j. find j s.ops) (bytes_eq→eq k arm.probe_id same) ∙ f) ∙ c.there))
    ]
  ]
    where
      missing : none ≡ some c.op → ⊥
      missing e = cc

  replay-Holds :
      (s : ProbeAgent) (arm : ProbeArm) (now : ℕ) (cached : Option ℕ)
      → Holds k d deadline key s
      → Holds k d deadline key (arm_replay p s arm now cached).0
  replay-Holds s arm now none c = fresh-Holds s arm now c
  replay-Holds s arm now (some expire) c = elim (Bool-cases (ltb now expire)) [
    | inl f ↦ rw f c
    | inr f ↦ rw f (
        fresh-Holds
          (record { node_key = s.node_key; ops = s.ops; replays = remove arm.probe_id s.replays })
          arm now
          (record {
            unique = record {
              ops_unique = c.unique.ops_unique;
              replays_unique = remove-HasUniqueKeys arm.probe_id s.replays c.unique.replays_unique;
            };
            own_key = c.own_key;
            op = c.op;
            there = c.there;
            same_digest = c.same_digest;
            same_deadline = c.same_deadline;
          }))
  ]

  arm-Holds :
      (s : ProbeAgent) (arm : ProbeArm) (now : ℕ)
      → now ≤ deadline
      → Holds k d deadline key s
      → Holds k d deadline key (arm_probe p s arm now).0
  unfolding arm_probe
  arm-Holds s arm now h c = elim (Option-cases (validate_arm p arm)) [
    | inr (x, f) ↦ rw f c
    | inl f ↦ rw f (
        replay-Holds (sweep now s) arm now (find arm.probe_id (sweep now s).replays)
          (sweep-Holds s now h c))
  ]

  -- An accepted frame marks its operation, and leaves its digest and its deadline.
  accepted-Holds :
      (s : ProbeAgent) (frame : ProviderFrame) (source_ip : Bytes) (now : ℕ)
      → Acceptable p s frame source_ip now
      → Holds k d deadline key s
      → Holds k d deadline key (handle_probe_ingress p s frame source_ip now).0
  accepted-Holds s frame source_ip now a c =
      let op : ArmedProbeState = record {
        arm = a.op.arm;
        digest = a.op.digest;
        deadline = a.op.deadline;
        used = true;
      } in
      subst (λ r. Holds k d deadline key r.0) (sym (accepted p s frame source_ip now a))
        (elim (Bool-cases (bytes_eq k frame.probe_id)) [
          | inr other ↦ record {
            unique = put-IsAgent s frame.probe_id op (now + probe_replay_window) c.unique;
            own_key = c.own_key;
            op = c.op;
            there = find-put_other k frame.probe_id op s.ops other ∙ c.there;
            same_digest = c.same_digest;
            same_deadline = c.same_deadline;
          }
          | inl same ↦
              let at : k ≡ frame.probe_id = bytes_eq→eq k frame.probe_id same in
              let held : a.op ≡ c.op =
                some-injective (sym a.armed ∙ ap (λ j. find j s.ops) (sym at) ∙ c.there) in
              record {
                unique = put-IsAgent s frame.probe_id op (now + probe_replay_window) c.unique;
                own_key = c.own_key;
                op = op;
                there =
                    subst (λ j. find j (put frame.probe_id op s.ops) ≡ some op) (sym at)
                      (find-put frame.probe_id op s.ops);
                same_digest = ap (λ o. o.digest) held ∙ c.same_digest;
                same_deadline = ap (λ o. o.deadline) held ∙ c.same_deadline;
              }
        ])

  ingress-Holds :
      (s : ProbeAgent) (frame : ProviderFrame) (source_ip : Bytes) (now : ℕ)
      → Holds k d deadline key s
      → Holds k d deadline key (handle_probe_ingress p s frame source_ip now).0
  ingress-Holds s frame source_ip now c =
      elim (Bool-cases (handle_probe_ingress p s frame source_ip now).1) [
        | inl f ↦
            accepted-Holds s frame source_ip now
              ((handle_probe_ingress_iff p s frame source_ip now).0 f) c
        | inr f ↦
            subst (Holds k d deadline key)
              (sym (handle_probe_ingress-rejects p s frame source_ip now f)) c
      ]

  pub serve_all-Holds :
      (s : ProbeAgent) (calls : List Call)
      → All (λ c. time c ≤ deadline) calls
      → Holds k d deadline key s
      → Holds k d deadline key (serve_all p s calls)
  serve_all-Holds s [] h c = c
  serve_all-Holds s (arms arm now ∷ calls) h c =
      serve_all-Holds (arm_probe p s arm now).0 calls h.1 (arm-Holds s arm now h.0 c)
  serve_all-Holds s (ingress frame source_ip now ∷ calls) h c =
      serve_all-Holds (handle_probe_ingress p s frame source_ip now).0 calls h.1
        (ingress-Holds s frame source_ip now c)
