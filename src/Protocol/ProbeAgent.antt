-- ===== src/Protocol/ProbeAgent.antt =====
-- internal/protocol/probe.go, the state machine of the Agent's probes (ProbeAgent) and the
-- Controller's join (VerifyProbeJoin). A time is a count of nanoseconds.
pub mod Binding
pub mod Join
pub mod Consumption
pub mod Once
pub mod Held
pub mod Rearmed
pub mod Bounded
mod Tests
use anti_nat_agent.Base.{
  ℕ, ◌+◌, ◌*◌, Bool, true, false, not, ◌&&◌, ◌||◌, Option, none, some, List, [], ◌∷◌, ltb, leb,
  if◌then◌else◌, Bytes, bytes_eq, length, Map, find, remove, put, retain,
}
use anti_nat_agent.Protocol.Platform.{Platform, sign, verify}
use anti_nat_agent.Protocol.Frames.{
  Error, replay, id_conflict, state_full, ProbeArm, ProbeArmed, ProviderFrame, ProbeAck,
  ProbeReceipt, validate_arm, arm_digest_of, armed_signing_bytes, frame_canonical,
  ack_signing_bytes, receipt_signing_bytes,
}

abbrev pub probe_op_max : ℕ
probe_op_max = 1024

-- `time.Millisecond`, and `ProbeReplayWindow`, five minutes.
abbrev pub millisecond : ℕ
millisecond = 1_000_000

abbrev pub probe_replay_window : ℕ
probe_replay_window = 5 * 60 * 1000 * millisecond

pub record ArmedProbeState : Type 0 where
  pub arm : ProbeArm
  pub digest : Bytes
  pub deadline : ℕ
  pub used : Bool

pub record ProbeAgent : Type 0 where
  pub node_key : Bytes
  pub ops : Map ArmedProbeState
  pub replays : Map ℕ

abbrev pub new_probe_agent : Bytes → ProbeAgent
new_probe_agent key = record { node_key = key; ops = []; replays = [] }

-- What the ranges of `sweep` keep.
abbrev pub op_lives : ℕ → ArmedProbeState → Bool
op_lives now op = not (ltb op.deadline now)

abbrev pub replay_lives : ℕ → ℕ → Bool
replay_lives now expire = ltb now expire

abbrev pub sweep : ℕ → ProbeAgent → ProbeAgent
sweep now s = record {
  node_key = s.node_key;
  ops = retain (op_lives now) s.ops;
  replays = retain (replay_lives now) s.replays;
}

pub data ArmAnswer : Type 0 where
  armed_with : ProbeArmed → ArmAnswer
  arm_refused : Error → ArmAnswer

abbrev pub replay_error : Bytes → Option ArmedProbeState → Error
replay_error digest none = id_conflict
replay_error digest (some old) = if bytes_eq old.digest digest then replay else id_conflict

-- The calls that an agent serves.
pub data Call : Type 0 where
  arms : (arm : ProbeArm) (now : ℕ) → Call
  ingress : (frame : ProviderFrame) (source_ip : Bytes) (now : ℕ) → Call

module _ (p : Platform) where
  abbrev pub signed_with : Bytes → Option Bytes → ProbeArmed
  signed_with digest none = record { arm_digest = digest; signature = [] }
  signed_with digest (some sig) = record { arm_digest = digest; signature = sig }

  unfoldable pub sign_armed : Bytes → Bytes → ProbeArmed
  sign_armed key digest =
      signed_with digest
        (sign p key (armed_signing_bytes (record { arm_digest = digest; signature = [] })))

  abbrev pub fresh_op : ProbeArm → ℕ → ArmedProbeState
  fresh_op arm now = record {
    arm = arm;
    digest = arm_digest_of p arm;
    deadline = now + arm.ttl_ms * millisecond;
    used = false;
  }

  -- The end of ArmProbe: the operation of the ID, when there is one, answers again.
  abbrev pub arm_fresh : ProbeAgent → ProbeArm → ℕ → Option ArmedProbeState → ProbeAgent × ArmAnswer
  arm_fresh s arm now (some old) =
      if not (bytes_eq old.digest (arm_digest_of p arm))
      then (s, arm_refused id_conflict)
      else (s, armed_with (sign_armed s.node_key (arm_digest_of p arm)))
  arm_fresh s arm now none =
      if leb probe_op_max (length s.ops) then (s, arm_refused state_full) else (
        record {
          node_key = s.node_key;
          ops = put arm.probe_id (fresh_op arm now) s.ops;
          replays = s.replays;
        },
        armed_with (sign_armed s.node_key (arm_digest_of p arm)),
      )

  -- The entry of the replay cache is looked at first.
  abbrev pub arm_replay : ProbeAgent → ProbeArm → ℕ → Option ℕ → ProbeAgent × ArmAnswer
  arm_replay s arm now none = arm_fresh s arm now (find arm.probe_id s.ops)
  arm_replay s arm now (some expire) =
      if ltb now expire
      then (s, arm_refused (replay_error (arm_digest_of p arm) (find arm.probe_id s.ops)))
      else arm_fresh
          (record { node_key = s.node_key; ops = s.ops; replays = remove arm.probe_id s.replays })
          arm now (find arm.probe_id s.ops)

  abbrev pub arm_checked : ProbeAgent → ProbeArm → ℕ → Option Error → ProbeAgent × ArmAnswer
  arm_checked s arm now (some e) = (s, arm_refused e)
  arm_checked s arm now none =
      arm_replay (sweep now s) arm now (find arm.probe_id (sweep now s).replays)

  unfoldable pub arm_probe : ProbeAgent → ProbeArm → ℕ → ProbeAgent × ArmAnswer
  arm_probe s arm now = arm_checked s arm now (validate_arm p arm)

  -- The guards of HandleProbeIngress on the operation of the frame's ID.
  unfoldable pub frame_matches : ArmedProbeState → ProviderFrame → Bytes → Bool
  frame_matches op frame source_ip = not (
      not (bytes_eq source_ip op.arm.expected_source_ip)
      || (not (bytes_eq frame.arm_digest op.digest)
          || (not (bytes_eq frame.provider_id op.arm.provider_id)
              || (not (bytes_eq frame.activation op.arm.activation)
                  || (not (bytes_eq frame.endpoint op.arm.endpoint)
                      || (not (bytes_eq frame.expiry_opaque op.arm.expiry_opaque)
                          || not (
                              verify p op.arm.provider_public_key (frame_canonical frame)
                                frame.signature)))))))

  abbrev pub ingress_on :
      ProbeAgent → ProviderFrame → Bytes → ℕ → Option ArmedProbeState → ProbeAgent × Bool
  ingress_on s frame source_ip now none = (s, false)
  ingress_on s frame source_ip now (some op) =
      if op.used || ltb op.deadline now
      then (s, false)
      else if not (frame_matches op frame source_ip)
      then (s, false)
      else (
        record {
          node_key = s.node_key;
          ops =
              put frame.probe_id
                (record { arm = op.arm; digest = op.digest; deadline = op.deadline; used = true })
                s.ops;
          replays = put frame.probe_id (now + probe_replay_window) s.replays;
        },
        true,
      )

  unfoldable pub handle_probe_ingress : ProbeAgent → ProviderFrame → Bytes → ℕ → ProbeAgent × Bool
  handle_probe_ingress s frame source_ip now =
      ingress_on s frame source_ip now (find frame.probe_id s.ops)

  abbrev pub serve : ProbeAgent → Call → ProbeAgent
  serve s (arms arm now) = (arm_probe s arm now).0
  serve s (ingress frame source_ip now) = (handle_probe_ingress s frame source_ip now).0

  abbrev pub serve_all : ProbeAgent → List Call → ProbeAgent
  serve_all s [] = s
  serve_all s (c ∷ cs) = serve_all (serve s c) cs

  -- ProviderFrame.ChallengeHash
  abbrev pub challenge_hash_of : ProviderFrame → Bytes
  challenge_hash_of f = p.sha256 f.challenge

  unfoldable pub verify_probe_join :
      ProbeArm → ProviderFrame → ProbeAck → ProbeReceipt → Bytes → Bool
  verify_probe_join arm frame ack receipt node_pub = elim (validate_arm p arm) [
    | some e ↦ false
    | none ↦
        let digest = arm_digest_of p arm in
        let ch = challenge_hash_of frame in
        if not (bytes_eq frame.arm_digest digest)
          || (not (bytes_eq ack.arm_digest digest) || not (bytes_eq receipt.arm_digest digest))
        then false
        else if not (bytes_eq frame.probe_id arm.probe_id)
            || (not (bytes_eq frame.provider_id arm.provider_id)
                || (not (bytes_eq frame.activation arm.activation)
                    || (not (bytes_eq frame.endpoint arm.endpoint)
                        || not (bytes_eq frame.expiry_opaque arm.expiry_opaque))))
        then false
        else if not (bytes_eq receipt.provider_id arm.provider_id)
        then false
        else if not (verify p arm.provider_public_key (frame_canonical frame) frame.signature)
        then false
        else if not (bytes_eq ack.challenge_hash ch) || not (bytes_eq receipt.challenge_hash ch)
        then false
        else if not (verify p node_pub (ack_signing_bytes ack) ack.signature)
            || not (verify p node_pub (receipt_signing_bytes receipt) receipt.signature)
        then false
        else true
  ]
