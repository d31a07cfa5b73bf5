-- ===== src/Protocol/ProbeAgent/Consumption.antt =====
-- internal/protocol/probe.go: what keeps a consumed probe ID consumed in its replay window.
use anti_nat_agent.Base.{
  ℕ, ◌+◌, ◌<◌, ◌≡◌, refl, sym, ap, ◌∙◌, Bool, true, false, Option, none, some, List, [], ◌∷◌, ltb,
  leb, Bytes, bytes_eq, length, find, remove, filtered, HasUniqueKeys, arith, inl, inr,
  Option-cases, Bool-cases, bytes_eq→eq, find-put, find-put_other, find-remove_other, find-retain,
  retain-HasUniqueKeys, put-HasUniqueKeys, remove-HasUniqueKeys, All, subst,
}
use anti_nat_agent.Protocol.Platform.{Platform}
use anti_nat_agent.Protocol.Frames.{ProbeArm, ProviderFrame, validate_arm, arm_digest_of}
use anti_nat_agent.Protocol.ProbeAgent.{
  ProbeAgent, ArmedProbeState, handle_probe_ingress, arm_probe, probe_replay_window, sweep,
  fresh_op, op_lives, replay_lives, replay_error, arm_fresh, arm_replay, Call, arms, ingress,
  serve_all, arm_refused,
}
use anti_nat_agent.Protocol.ProbeAgent.Binding.{
  accepted, handle_probe_ingress_iff, handle_probe_ingress-rejects,
}

-- Both maps have one entry for a key.
pub record IsAgent (s : ProbeAgent) : Type 0 where
  pub ops_unique : HasUniqueKeys s.ops
  pub replays_unique : HasUniqueKeys s.replays

abbrev pub is_used : Option ArmedProbeState → Bool
is_used none = true
is_used (some op) = op.used

-- The ID `k` is consumed until `e`: it is in the replay cache, and its operation, when it is still
-- there, is used.
pub record Consumed (k : Bytes) (e : ℕ) (s : ProbeAgent) : Type 0 where
  pub unique : IsAgent s
  pub cached : find k s.replays ≡ some e
  pub spent : is_used (find k s.ops) ≡ true

abbrev pub time : Call → ℕ
time (arms arm now) = now
time (ingress frame source_ip now) = now

filtered-used :
    (t : ArmedProbeState → Bool) (o : Option ArmedProbeState)
    → is_used o ≡ true
    → is_used (filtered t o) ≡ true
filtered-used t none h = refl
filtered-used t (some op) h = ground arith

pub sweep-Consumed :
    (k : Bytes) (e now : ℕ) (s : ProbeAgent) → now < e → Consumed k e s → Consumed k e (sweep now s)
sweep-Consumed k e now s h c =
    let lives : ltb now e ≡ true = ground arith in
    record {
      unique = record {
        ops_unique = retain-HasUniqueKeys (op_lives now) s.ops c.unique.ops_unique;
        replays_unique = retain-HasUniqueKeys (replay_lives now) s.replays c.unique.replays_unique;
      };
      cached =
          find-retain k (replay_lives now) s.replays c.unique.replays_unique
          ∙ rw (c.cached, lives) refl;
      spent =
          ap is_used (find-retain k (op_lives now) s.ops c.unique.ops_unique)
          ∙ filtered-used (op_lives now) (find k s.ops) c.spent;
    }

module _ (p : Platform) (k : Bytes) (e : ℕ) where
  fresh-Consumed :
      (s : ProbeAgent) (arm : ProbeArm) (now : ℕ) (old : Option ArmedProbeState)
      → bytes_eq k arm.probe_id ≡ false
      → Consumed k e s
      → Consumed k e (arm_fresh p s arm now old).0
  fresh-Consumed s arm now (some old) other c =
      elim (Bool-cases (bytes_eq old.digest (arm_digest_of p arm))) [
        | inl f ↦ rw f c
        | inr f ↦ rw f c
      ]
  fresh-Consumed s arm now none other c = elim (Bool-cases (leb 1024 (length s.ops))) [
    | inl f ↦ rw f c
    | inr f ↦ rw f (record {
      unique = record {
        ops_unique = put-HasUniqueKeys arm.probe_id (fresh_op p arm now) s.ops c.unique.ops_unique;
        replays_unique = c.unique.replays_unique;
      };
      cached = c.cached;
      spent = ap is_used (find-put_other k arm.probe_id (fresh_op p arm now) s.ops other) ∙ c.spent;
    })
  ]

  replay-Consumed :
      (s : ProbeAgent) (arm : ProbeArm) (now : ℕ) (cached : Option ℕ)
      → bytes_eq k arm.probe_id ≡ false
      → Consumed k e s
      → Consumed k e (arm_replay p s arm now cached).0
  replay-Consumed s arm now none other c =
      fresh-Consumed s arm now (find arm.probe_id s.ops) other c
  replay-Consumed s arm now (some expire) other c = elim (Bool-cases (ltb now expire)) [
    | inl f ↦ rw f c
    | inr f ↦ rw f (
        fresh-Consumed
          (record { node_key = s.node_key; ops = s.ops; replays = remove arm.probe_id s.replays })
          arm now (find arm.probe_id s.ops) other
          (record {
            unique = record {
              ops_unique = c.unique.ops_unique;
              replays_unique = remove-HasUniqueKeys arm.probe_id s.replays c.unique.replays_unique;
            };
            cached = find-remove_other k arm.probe_id s.replays other ∙ c.cached;
            spent = c.spent;
          }))
  ]

  -- An arm of the consumed ID is turned down before anything is written.
  pub same-refused :
      (s : ProbeAgent) (arm : ProbeArm) (now : ℕ)
      → arm.probe_id ≡ k
      → now < e
      → Consumed k e s
      → arm_replay p s arm now (find arm.probe_id s.replays)
        ≡ (s, arm_refused (replay_error (arm_digest_of p arm) (find arm.probe_id s.ops)))
  same-refused s arm now same h c =
      let lives : ltb now e ≡ true = ground arith in
      rw (ap (λ j. find j s.replays) same ∙ c.cached, lives) refl

  pub arm-Consumed :
      (s : ProbeAgent) (arm : ProbeArm) (now : ℕ)
      → now < e
      → Consumed k e s
      → Consumed k e (arm_probe p s arm now).0
  unfolding arm_probe
  arm-Consumed s arm now h c =
      let swept : Consumed k e (sweep now s) = sweep-Consumed k e now s h c in
      elim (Option-cases (validate_arm p arm)) [
        | inr (x, f) ↦ rw f c
        | inl f ↦ elim (Bool-cases (bytes_eq k arm.probe_id)) [
          | inr other ↦ rw f (
              replay-Consumed (sweep now s) arm now (find arm.probe_id (sweep now s).replays) other
                swept)
          | inl same ↦ rw f (
              subst (λ r. Consumed k e r.0)
                (sym (
                  same-refused (sweep now s) arm now (sym (bytes_eq→eq k arm.probe_id same)) h
                    swept))
                swept)
        ]
      ]

  -- A frame of the consumed ID is turned down.
  pub ingress-refused :
      (s : ProbeAgent) (frame : ProviderFrame) (source_ip : Bytes) (now : ℕ)
      → frame.probe_id ≡ k
      → Consumed k e s
      → handle_probe_ingress p s frame source_ip now ≡ (s, false)
  unfolding handle_probe_ingress
  ingress-refused s frame source_ip now same c = elim (Option-cases (find frame.probe_id s.ops)) [
    | inl f ↦ rw f refl
    | inr (op, f) ↦
        let u : op.used ≡ true =
          sym (ap is_used (ap (λ j. find j s.ops) (sym same) ∙ f)) ∙ c.spent in
        rw f (rw u refl)
  ]

  ingress-Consumed :
      (s : ProbeAgent) (frame : ProviderFrame) (source_ip : Bytes) (now : ℕ)
      → Consumed k e s
      → Consumed k e (handle_probe_ingress p s frame source_ip now).0
  ingress-Consumed s frame source_ip now c = elim (Bool-cases (bytes_eq k frame.probe_id)) [
    | inl same ↦
        subst (λ r. Consumed k e r.0)
          (sym (ingress-refused s frame source_ip now (sym (bytes_eq→eq k frame.probe_id same)) c))
          c
    | inr other ↦ elim (Bool-cases (handle_probe_ingress p s frame source_ip now).1) [
      | inr f ↦
          subst (Consumed k e) (sym (handle_probe_ingress-rejects p s frame source_ip now f)) c
      | inl f ↦
          let a = (handle_probe_ingress_iff p s frame source_ip now).0 f in
          let op : ArmedProbeState = record {
            arm = a.op.arm;
            digest = a.op.digest;
            deadline = a.op.deadline;
            used = true;
          } in
          subst (λ r. Consumed k e r.0) (sym (accepted p s frame source_ip now a))
            (record {
              unique = record {
                ops_unique = put-HasUniqueKeys frame.probe_id op s.ops c.unique.ops_unique;
                replays_unique =
                    put-HasUniqueKeys frame.probe_id (now + probe_replay_window) s.replays
                      c.unique.replays_unique;
              };
              cached =
                  find-put_other k frame.probe_id (now + probe_replay_window) s.replays other
                  ∙ c.cached;
              spent = ap is_used (find-put_other k frame.probe_id op s.ops other) ∙ c.spent;
            })
    ]
  ]

  pub serve_all-Consumed :
      (s : ProbeAgent) (calls : List Call)
      → All (λ c. time c < e) calls
      → Consumed k e s
      → Consumed k e (serve_all p s calls)
  serve_all-Consumed s [] h c = c
  serve_all-Consumed s (arms arm now ∷ calls) h c =
      serve_all-Consumed (arm_probe p s arm now).0 calls h.1 (arm-Consumed s arm now h.0 c)
  serve_all-Consumed s (ingress frame source_ip now ∷ calls) h c =
      serve_all-Consumed (handle_probe_ingress p s frame source_ip now).0 calls h.1
        (ingress-Consumed s frame source_ip now c)

-- An accepted frame consumes its ID.
pub accepted-Consumed :
    (p : Platform) (s : ProbeAgent) (frame : ProviderFrame) (source_ip : Bytes) (now : ℕ)
    → IsAgent s
    → (handle_probe_ingress p s frame source_ip now).1 ≡ true
    → Consumed frame.probe_id
        (now + probe_replay_window)
        (handle_probe_ingress p s frame source_ip now).0
accepted-Consumed p s frame source_ip now v f =
    let a = (handle_probe_ingress_iff p s frame source_ip now).0 f in
    let op : ArmedProbeState = record {
      arm = a.op.arm;
      digest = a.op.digest;
      deadline = a.op.deadline;
      used = true;
    } in
    subst (λ r. Consumed frame.probe_id (now + probe_replay_window) r.0)
      (sym (accepted p s frame source_ip now a))
      (record {
        unique = record {
          ops_unique = put-HasUniqueKeys frame.probe_id op s.ops v.ops_unique;
          replays_unique =
              put-HasUniqueKeys frame.probe_id (now + probe_replay_window) s.replays
                v.replays_unique;
        };
        cached = find-put frame.probe_id (now + probe_replay_window) s.replays;
        spent = ap is_used (find-put frame.probe_id op s.ops);
      })
