-- ===== src/Protocol/Frames/Tests.antt =====
-- Runs and witnesses of the probe frames, on a small platform.
use anti_nat_agent.Base.{
  ◌≡◌, refl, none, some, [], ◌∷◌, ◌++◌, arith, ok, err, Returns, AreBytes, bytes_eq, take,
  replicate,
}
use anti_nat_agent.Protocol.Endpoint.{v4, is_global_endpoint}
use anti_nat_agent.Protocol.Platform.{Platform}
use anti_nat_agent.Protocol.Frames.{
  malformed, ProbeArm, arm_canonical, validate_arm, validate_probe_endpoint, parse_probe_arm,
  parse_probe_armed, parse_provider_frame, parse_probe_ack, parse_probe_receipt,
}
use anti_nat_agent.Protocol.Frames.Layout.{HasSizes}
use anti_nat_agent.Protocol.Frames.Safe.{frame_parsers-Return}
use anti_nat_agent.Protocol.Frames.RoundTrip.{parse_arm-canonical, parse_arm_sound}

-- The endpoint "203.0.113.7:80" is the only one that it can read.
abbrev pub small_platform : Platform
small_platform = record {
  sha256 = λ message. take 32 (message ++ replicate 32 0);
  ed25519_sign = λ key message. take 64 (message ++ replicate 64 0);
  ed25519_verify =
      λ key message signature. bytes_eq signature (take 64 (message ++ replicate 64 0));
  split_host_port = λ endpoint. some (b'2' ∷ [], b'8' ∷ []);
  parse_addr = λ host. some (v4 203 0 113 7);
  atoi = λ text. some 80;
}

abbrev pub sample_arm : ProbeArm
sample_arm = record {
  probe_id = replicate 16 1;
  provider_id = replicate 16 2;
  provider_public_key = replicate 32 3;
  expected_source_ip = 198 ∷ 51 ∷ 100 ∷ 1 ∷ [];
  activation = replicate 16 4;
  endpoint = b'2' ∷ b':' ∷ b'8' ∷ [];
  ttl_ms = 60_000;
  expiry_opaque = replicate 16 5;
}

abbrev sample_sizes : HasSizes sample_arm
sample_sizes = record {
  probe_id_size = refl;
  provider_id_size = refl;
  provider_public_key_size = refl;
  expected_source_ip_size = refl;
  activation_size = refl;
  expiry_opaque_size = refl;
}

pub sample_is_valid : validate_arm small_platform sample_arm ≡ none
unfolding validate_arm validate_probe_endpoint is_global_endpoint
sample_is_valid = refl

sample_is_read : parse_probe_arm small_platform (arm_canonical sample_arm) ≡ ok sample_arm
sample_is_read =
    parse_arm-canonical small_platform sample_arm sample_sizes (omega arith) sample_is_valid

sample_bytes : AreBytes (arm_canonical sample_arm)
unfolding arm_canonical
sample_bytes = ground arith

short_frame : parse_probe_arm small_platform (replicate 88 0) ≡ err malformed
unfolding parse_probe_arm
short_frame = refl

parse_arm-canonical_example :
    parse_probe_arm small_platform (arm_canonical sample_arm) ≡ ok sample_arm
parse_arm-canonical_example =
    parse_arm-canonical small_platform sample_arm sample_sizes (omega arith) sample_is_valid

parse_arm_sound_example :
    (arm_canonical sample_arm ≡ arm_canonical sample_arm)
    × (validate_arm small_platform sample_arm ≡ none)
parse_arm_sound_example =
    parse_arm_sound small_platform (arm_canonical sample_arm) sample_arm sample_bytes sample_is_read

frame_parsers-Return_example :
    Returns (parse_probe_armed small_platform (replicate 100 1) [] [])
    × Returns (parse_provider_frame small_platform (replicate 100 1))
    × Returns (parse_probe_ack small_platform (replicate 100 1) [])
    × Returns (parse_probe_receipt small_platform (replicate 100 1) [])
frame_parsers-Return_example = frame_parsers-Return small_platform (replicate 100 1) [] []
