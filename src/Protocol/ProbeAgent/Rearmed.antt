-- ===== src/Protocol/ProbeAgent/Rearmed.antt =====
-- internal/protocol/probe.go: an armed probe ID keeps its material until its operation's deadline.
use anti_nat_agent.Base.{
  ℕ, ◌+◌, ◌*◌, ◌≤◌, ◌≡◌, ◌≢◌, refl, sym, ap, subst, ◌∙◌, true, false, Option, none, some, List, ltb,
  leb, Bytes, bytes_eq, length, find, remove, ◌⊎◌, inl, inr, Option-cases, Bool-cases, bytes_eq→eq,
  find-put, find-retain, retain-HasUniqueKeys, put-HasUniqueKeys, remove-HasUniqueKeys, All,
}
use anti_nat_agent.Protocol.Platform.{Platform}
use anti_nat_agent.Protocol.Frames.{
  Error, ProbeArm, ProbeArmed, validate_arm, arm_digest_of, id_conflict, replay, state_full,
}
use anti_nat_agent.Protocol.ProbeAgent.{
  ProbeAgent, arm_probe, sign_armed, millisecond, sweep, fresh_op, op_lives, replay_lives,
  replay_error, arm_fresh, arm_replay, Call, serve_all, ArmAnswer, armed_with, arm_refused,
}
use anti_nat_agent.Protocol.ProbeAgent.Binding.{equal_bytes}
use anti_nat_agent.Protocol.ProbeAgent.Consumption.{IsAgent, time}
use anti_nat_agent.Protocol.ProbeAgent.Held.{Holds, sweep-Holds, serve_all-Holds}

armed-injective : {a b : ProbeArmed} → armed_with a ≡ armed_with b → a ≡ b
armed-injective e = cc

-- What a first arm of an ID comes to, when it is answered.
abbrev Enters : Platform → ProbeAgent → ProbeArm → ℕ → ProbeArmed → ProbeAgent → Type 0
Enters p s arm now a t =
    Holds arm.probe_id (arm_digest_of p arm) (now + arm.ttl_ms * millisecond) s.node_key t
    × (a ≡ sign_armed p s.node_key (arm_digest_of p arm))

module _ (p : Platform) (arm : ProbeArm) (now : ℕ) (a : ProbeArmed) where
  fresh-Enters :
      (s : ProbeAgent)
      → IsAgent s
      → (arm_fresh p s arm now none).1 ≡ armed_with a
      → Enters p s arm now a (arm_fresh p s arm now none).0
  fresh-Enters s v h = elim (Bool-cases (leb 1024 (length s.ops))) [
    | inl full ↦ absurd (refused (rw full at h))
    | inr room ↦ rw room (
      record {
        unique = record {
          ops_unique = put-HasUniqueKeys arm.probe_id (fresh_op p arm now) s.ops v.ops_unique;
          replays_unique = v.replays_unique;
        };
        own_key = refl;
        op = fresh_op p arm now;
        there = find-put arm.probe_id (fresh_op p arm now) s.ops;
        same_digest = refl;
        same_deadline = refl;
      },
      sym (armed-injective (rw room at h)),
    )
  ]
    where
      refused : arm_refused state_full ≡ armed_with a → ⊥
      refused e = cc

  replay-Enters :
      (s : ProbeAgent) (cached : Option ℕ)
      → IsAgent s
      → find arm.probe_id s.ops ≡ none
      → (arm_replay p s arm now cached).1 ≡ armed_with a
      → Enters p s arm now a (arm_replay p s arm now cached).0
  replay-Enters s none v new h = rw new (fresh-Enters s v (rw new at h))
  replay-Enters s (some expire) v new h = elim (Bool-cases (ltb now expire)) [
    | inl live ↦
        absurd
          (refused (replay_error (arm_digest_of p arm) (find arm.probe_id s.ops)) (rw live at h))
    | inr over ↦
        let s' : ProbeAgent = record {
          node_key = s.node_key;
          ops = s.ops;
          replays = remove arm.probe_id s.replays;
        } in
        rw (over, new)
          (fresh-Enters s'
            (record {
              ops_unique = v.ops_unique;
              replays_unique = remove-HasUniqueKeys arm.probe_id s.replays v.replays_unique;
            })
            (rw (over, new) at h))
  ]
    where
      refused : (e : Error) → arm_refused e ≡ armed_with a → ⊥
      refused x e = cc

  arm-Enters :
      (s : ProbeAgent)
      → IsAgent s
      → find arm.probe_id s.ops ≡ none
      → (arm_probe p s arm now).1 ≡ armed_with a
      → Enters p s arm now a (arm_probe p s arm now).0
  unfolding arm_probe
  arm-Enters s v new h = elim (Option-cases (validate_arm p arm)) [
    | inr (x, f) ↦ absurd (refused x (rw f at h))
    | inl f ↦ rw f (
        replay-Enters (sweep now s) (find arm.probe_id (sweep now s).replays)
          (record {
            ops_unique = retain-HasUniqueKeys (op_lives now) s.ops v.ops_unique;
            replays_unique = retain-HasUniqueKeys (replay_lives now) s.replays v.replays_unique;
          })
          (find-retain arm.probe_id (op_lives now) s.ops v.ops_unique ∙ rw new refl) (rw f at h))
  ]
    where
      refused : (e : Error) → arm_refused e ≡ armed_with a → ⊥
      refused x e = cc

-- The answer to an arm of a held ID: by the digest of the operation.
abbrev Answers : Platform → Bytes → Bytes → ProbeArm → ArmAnswer → Type 0
Answers p d key again answer =
    ((arm_digest_of p again ≡ d)
      × ((answer ≡ armed_with (sign_armed p key d)) ⊎ (answer ≡ arm_refused replay)))
    ⊎ ((arm_digest_of p again ≢ d) × (answer ≡ arm_refused id_conflict))

module _ (p : Platform) (d : Bytes) (deadline : ℕ) (key : Bytes) (again : ProbeArm) (now : ℕ) where
  replay-Answers :
      (s : ProbeAgent) (cached : Option ℕ)
      → Holds again.probe_id d deadline key s
      → Answers p d key again (arm_replay p s again now cached).1
  replay-Answers s cached c = elim (Bool-cases (bytes_eq c.op.digest (arm_digest_of p again))) [
    | inl f ↦
        let same : arm_digest_of p again ≡ d =
          sym (bytes_eq→eq c.op.digest (arm_digest_of p again) f) ∙ c.same_digest in
        inl (same, as_before cached f same)
    | inr f ↦ inr (
      λ e. absurd (unequal (sym (equal_bytes _ _ (c.same_digest ∙ sym e)) ∙ f)),
      conflict cached f,
    )
  ]
    where
      unequal : true ≡ false → ⊥
      unequal e = cc

      as_before :
          (cached : Option ℕ)
          → bytes_eq c.op.digest (arm_digest_of p again) ≡ true
          → arm_digest_of p again ≡ d
          → ((arm_replay p s again now cached).1 ≡ armed_with (sign_armed p key d))
            ⊎ ((arm_replay p s again now cached).1 ≡ arm_refused replay)
      as_before none f same = inl (
          rw (c.there, f)
            (ap (λ x. armed_with (sign_armed p s.node_key x)) same
              ∙ ap (λ x. armed_with (sign_armed p x d)) c.own_key))
      as_before (some expire) f same = elim (Bool-cases (ltb now expire)) [
        | inl live ↦ inr (rw (live, c.there, f) refl)
        | inr over ↦ inl (
            rw (over, c.there, f)
              (ap (λ x. armed_with (sign_armed p s.node_key x)) same
                ∙ ap (λ x. armed_with (sign_armed p x d)) c.own_key))
      ]

      conflict :
          (cached : Option ℕ)
          → bytes_eq c.op.digest (arm_digest_of p again) ≡ false
          → (arm_replay p s again now cached).1 ≡ arm_refused id_conflict
      conflict none f = rw (c.there, f) refl
      conflict (some expire) f = elim (Bool-cases (ltb now expire)) [
        | inl live ↦ rw (live, c.there, f) refl
        | inr over ↦ rw (over, c.there, f) refl
      ]

-- When an arm of an ID that has no operation is answered, the ID keeps it until the operation's
-- deadline, whatever calls come in up to then. A valid arm of the ID within that time gets the same
-- signed answer again, or a replay rejection, if its digest is the same, and an ID conflict if it
-- is another.
pub arm_probe-again :
    (p : Platform) (s : ProbeAgent) (arm : ProbeArm) (now : ℕ) (a : ProbeArmed) (calls : List Call)
    (again : ProbeArm) (later : ℕ)
    → IsAgent s
    → find arm.probe_id s.ops ≡ none
    → (arm_probe p s arm now).1 ≡ armed_with a
    → All (λ c. time c ≤ now + arm.ttl_ms * millisecond) calls
    → again.probe_id ≡ arm.probe_id
    → validate_arm p again ≡ none
    → later ≤ now + arm.ttl_ms * millisecond
    → let answer = (arm_probe p (serve_all p (arm_probe p s arm now).0 calls) again later).1 in
      ((arm_digest_of p again ≡ arm_digest_of p arm)
        × ((answer ≡ armed_with a) ⊎ (answer ≡ arm_refused replay)))
      ⊎ ((arm_digest_of p again ≢ arm_digest_of p arm) × (answer ≡ arm_refused id_conflict))
unfolding arm_probe
arm_probe-again p s arm now a calls again later v new h within same valid soon =
    let d : Bytes = arm_digest_of p arm in
    let deadline : ℕ = now + arm.ttl_ms * millisecond in
    let (entered, signed) = arm-Enters p arm now a s v new h in
    let t : ProbeAgent = serve_all p (arm_probe p s arm now).0 calls in
    let held : Holds again.probe_id d deadline s.node_key t =
      subst (λ k. Holds k d deadline s.node_key t) (sym same)
        (serve_all-Holds p arm.probe_id d deadline s.node_key (arm_probe p s arm now).0 calls within
          entered) in
    rw (signed, valid)
      (replay-Answers p d deadline s.node_key again later (sweep later t)
        (find again.probe_id (sweep later t).replays)
        (sweep-Holds p again.probe_id d deadline s.node_key t later soon held))
