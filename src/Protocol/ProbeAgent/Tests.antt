-- ===== src/Protocol/ProbeAgent/Tests.antt =====
-- Runs and witnesses of the Agent's probes and of the Controller's join, on a small platform.
use anti_nat_agent.Base.{
  ◌≡◌, ◌≢◌, refl, ap, ◌∙◌, true, false, none, List, [], ◌∷◌, ◌++◌, arith, Bytes, take, replicate,
  ◌⊎◌, ◌↔◌,
}
use anti_nat_agent.Protocol.Platform.{verify}
use anti_nat_agent.Protocol.Frames.{
  ProbeArm, ProviderFrame, ProbeAck, ProbeReceipt, arm_canonical, arm_digest_of, frame_canonical,
  ack_signing_bytes, receipt_signing_bytes, validate_arm, id_conflict, replay, ProbeArmed,
}
use anti_nat_agent.Protocol.Frames.Tests.{small_platform, sample_arm, sample_is_valid}
use anti_nat_agent.Protocol.ProbeAgent.{
  ProbeAgent, new_probe_agent, arm_probe, handle_probe_ingress, frame_matches, Call, arms, ingress,
  serve_all, sign_armed, verify_probe_join, challenge_hash_of, fresh_op, armed_with, arm_refused,
}
use anti_nat_agent.Protocol.ProbeAgent.Binding.{
  Acceptable, handle_probe_ingress_iff, handle_probe_ingress-rejects,
}
use anti_nat_agent.Protocol.ProbeAgent.Join.{Joined, verify_probe_join_iff}
use anti_nat_agent.Protocol.ProbeAgent.Consumption.{IsAgent}
use anti_nat_agent.Protocol.ProbeAgent.Once.{accepted_once, consumed-rearm, is_refused}
use anti_nat_agent.Protocol.ProbeAgent.Rearmed.{arm_probe-again}
use anti_nat_agent.Protocol.ProbeAgent.Bounded.{IsSound, serve_all-IsSound, accepted_arm-valid}

abbrev node_key : Bytes
node_key = replicate 64 9

abbrev node_pub : Bytes
node_pub = replicate 32 9

abbrev unsigned_frame : ProviderFrame
unsigned_frame = record {
  arm_digest = arm_digest_of small_platform sample_arm;
  probe_id = replicate 16 1;
  provider_id = replicate 16 2;
  activation = replicate 16 4;
  endpoint = b'2' ∷ b':' ∷ b'8' ∷ [];
  expiry_opaque = replicate 16 5;
  challenge = replicate 32 6;
  signature = [];
}

abbrev signed_by_all : Bytes → Bytes
signed_by_all message = take 64 (message ++ replicate 64 0)

abbrev good_frame : ProviderFrame
good_frame = record {
  arm_digest = arm_digest_of small_platform sample_arm;
  probe_id = replicate 16 1;
  provider_id = replicate 16 2;
  activation = replicate 16 4;
  endpoint = b'2' ∷ b':' ∷ b'8' ∷ [];
  expiry_opaque = replicate 16 5;
  challenge = replicate 32 6;
  signature = signed_by_all (frame_canonical unsigned_frame);
}

abbrev source_ip : Bytes
source_ip = 198 ∷ 51 ∷ 100 ∷ 1 ∷ []

-- An agent that was armed at time 0.
abbrev armed_agent : ProbeAgent
armed_agent = record {
  node_key = node_key;
  ops = (replicate 16 1, fresh_op small_platform sample_arm 0) ∷ [];
  replays = [];
}

abbrev armed_agent-IsAgent : IsAgent armed_agent
armed_agent-IsAgent = record { ops_unique = (refl, tt); replays_unique = tt }

arming : (arm_probe small_platform (new_probe_agent node_key) sample_arm 0).0 ≡ armed_agent
unfolding arm_probe
arming = rw sample_is_valid refl

good_is_accepted : (handle_probe_ingress small_platform armed_agent good_frame source_ip 5).1 ≡ true
unfolding handle_probe_ingress frame_matches verify frame_canonical arm_canonical
good_is_accepted = refl

wrong_source_is_not :
    (handle_probe_ingress small_platform armed_agent good_frame (1 ∷ 2 ∷ 3 ∷ 4 ∷ []) 5).1 ≡ false
unfolding handle_probe_ingress frame_matches verify frame_canonical arm_canonical
wrong_source_is_not = refl

handle_probe_ingress_iff_example :
    ((handle_probe_ingress small_platform armed_agent good_frame source_ip 5).1 ≡ true)
    ↔ Acceptable small_platform armed_agent good_frame source_ip 5
handle_probe_ingress_iff_example =
    handle_probe_ingress_iff small_platform armed_agent good_frame source_ip 5

handle_probe_ingress-rejects_example :
    (handle_probe_ingress small_platform armed_agent good_frame (1 ∷ 2 ∷ 3 ∷ 4 ∷ []) 5).0
    ≡ armed_agent
handle_probe_ingress-rejects_example =
    handle_probe_ingress-rejects small_platform armed_agent good_frame (1 ∷ 2 ∷ 3 ∷ 4 ∷ []) 5
      wrong_source_is_not

abbrev after_good : ProbeAgent
after_good = (handle_probe_ingress small_platform armed_agent good_frame source_ip 5).0

-- The same arm and the same frame again.
abbrev meanwhile : List Call
meanwhile = arms sample_arm 1000 ∷ ingress good_frame source_ip 2000 ∷ []

accepted_once_example :
    (handle_probe_ingress small_platform
      (serve_all small_platform after_good meanwhile)
      good_frame
      source_ip
      3000).1
    ≡ false
accepted_once_example =
    accepted_once small_platform armed_agent good_frame source_ip 5 meanwhile good_frame source_ip
      3000 armed_agent-IsAgent good_is_accepted (omega arith, (omega arith, tt)) refl

consumed-rearm_example :
    is_refused
      (arm_probe small_platform (serve_all small_platform after_good meanwhile) sample_arm 3000).1
    ≡ true
consumed-rearm_example =
    consumed-rearm small_platform armed_agent good_frame source_ip 5 meanwhile sample_arm 3000
      armed_agent-IsAgent good_is_accepted (omega arith, (omega arith, tt)) refl (omega arith)

abbrev first_answer : ProbeArmed
first_answer = sign_armed small_platform node_key (arm_digest_of small_platform sample_arm)

first_arming :
    (arm_probe small_platform (new_probe_agent node_key) sample_arm 0).1 ≡ armed_with first_answer
unfolding arm_probe
first_arming = rw sample_is_valid refl

arm_probe-again_example :
    let t =
      serve_all small_platform
        (arm_probe small_platform (new_probe_agent node_key) sample_arm 0).0
        meanwhile in
    let answer = (arm_probe small_platform t sample_arm 3000).1 in
    ((arm_digest_of small_platform sample_arm ≡ arm_digest_of small_platform sample_arm)
      × ((answer ≡ armed_with first_answer) ⊎ (answer ≡ arm_refused replay)))
    ⊎ ((arm_digest_of small_platform sample_arm ≢ arm_digest_of small_platform sample_arm)
        × (answer ≡ arm_refused id_conflict))
arm_probe-again_example =
    arm_probe-again small_platform (new_probe_agent node_key) sample_arm 0 first_answer meanwhile
      sample_arm 3000 (record { ops_unique = tt; replays_unique = tt }) refl first_arming
      (omega arith, (omega arith, tt)) refl sample_is_valid (omega arith)

serve_all-IsSound_example :
    IsSound small_platform (serve_all small_platform (new_probe_agent node_key) meanwhile)
serve_all-IsSound_example = serve_all-IsSound small_platform node_key meanwhile

accepted_after_arming :
    (handle_probe_ingress small_platform
      (serve_all small_platform (new_probe_agent node_key) (arms sample_arm 0 ∷ []))
      good_frame
      source_ip
      5).1
    ≡ true
accepted_after_arming =
    ap (λ s. (handle_probe_ingress small_platform s good_frame source_ip 5).1) arming
    ∙ good_is_accepted

accepted_arm-valid_example :
    (arm : ProbeArm) × (validate_arm small_platform arm ≡ none)
    × (good_frame.arm_digest ≡ arm_digest_of small_platform arm)
    × (good_frame.probe_id ≡ arm.probe_id)
    × (good_frame.provider_id ≡ arm.provider_id)
    × (good_frame.activation ≡ arm.activation)
    × (good_frame.endpoint ≡ arm.endpoint)
    × (good_frame.expiry_opaque ≡ arm.expiry_opaque)
    × (source_ip ≡ arm.expected_source_ip)
accepted_arm-valid_example =
    accepted_arm-valid small_platform node_key (arms sample_arm 0 ∷ []) good_frame source_ip 5
      accepted_after_arming

abbrev good_ack : ProbeAck
good_ack = record {
  arm_digest = arm_digest_of small_platform sample_arm;
  challenge_hash = challenge_hash_of small_platform good_frame;
  signature = signed_by_all (
      ack_signing_bytes (record {
        arm_digest = arm_digest_of small_platform sample_arm;
        challenge_hash = challenge_hash_of small_platform good_frame;
        signature = [];
      }));
}

abbrev unsigned_receipt : ProbeReceipt
unsigned_receipt = record {
  arm_digest = arm_digest_of small_platform sample_arm;
  challenge_hash = challenge_hash_of small_platform good_frame;
  provider_id = replicate 16 2;
  signature = [];
}

abbrev good_receipt : ProbeReceipt
good_receipt = record {
  arm_digest = arm_digest_of small_platform sample_arm;
  challenge_hash = challenge_hash_of small_platform good_frame;
  provider_id = replicate 16 2;
  signature = signed_by_all (receipt_signing_bytes unsigned_receipt);
}

good_join :
    verify_probe_join small_platform sample_arm good_frame good_ack good_receipt node_pub ≡ true
unfolding verify_probe_join verify frame_canonical arm_canonical
good_join = rw (sample_is_valid, verify_probe_join) refl

verify_probe_join_iff_example :
    (verify_probe_join small_platform sample_arm good_frame good_ack good_receipt node_pub ≡ true)
    ↔ Joined small_platform sample_arm good_frame good_ack good_receipt node_pub
verify_probe_join_iff_example =
    verify_probe_join_iff small_platform sample_arm good_frame good_ack good_receipt node_pub
