-- ===== src/Protocol/Frames.antt =====
-- internal/protocol/probe.go, the wire frames: the arm of the Controller, the Agent's armed answer,
-- the frame of the WAN provider, and the Agent's acknowledgement and receipt. A Go array is a byte
-- string whose length is kept by the operations; `E` stands for "the function panics".
pub mod Layout
pub mod RoundTrip
pub mod Safe
pub mod Tests
use anti_nat_agent.Base.{
  ℕ, ◌+◌, ◌*◌, ◌%◌, Bool, true, false, not, ◌&&◌, ◌||◌, Option, none, some, List, [], ◌∷◌, ◌++◌,
  ◌==◌, ltb, leb, if◌then◌else◌, Result, ok, err, panic, ◌>>=◌, ◌>>◌, fail_if, check, Bytes,
  bytes_eq, length, drop, take, slice, index, be, put_be, replicate, is_neg,
}
use anti_nat_agent.Protocol.Endpoint.{Addr, is_global_endpoint, v4, v6, invalid}
use anti_nat_agent.Protocol.Platform.{Platform, verify}

pub data Error : Type 0 where
  malformed bad_signature replay id_conflict state_full bad_endpoint : Error

abbrev pub magic_arm : Bytes
magic_arm = b'A' ∷ b'R' ∷ b'M' ∷ b'1' ∷ []

abbrev pub magic_armed : Bytes
magic_armed = b'R' ∷ b'D' ∷ b'Y' ∷ b'1' ∷ []

abbrev pub magic_wan : Bytes
magic_wan = b'W' ∷ b'A' ∷ b'N' ∷ b'1' ∷ []

abbrev pub magic_ack : Bytes
magic_ack = b'A' ∷ b'C' ∷ b'K' ∷ b'1' ∷ []

abbrev pub magic_receipt : Bytes
magic_receipt = b'R' ∷ b'C' ∷ b'T' ∷ b'1' ∷ []

abbrev pub probe_endpoint_max : ℕ
probe_endpoint_max = 255

-- probeFrameMax
abbrev pub probe_frame_max : ℕ
probe_frame_max = 4 + 32 + 16 + 16 + 16 + 1 + 255 + 16 + 32 + 64

-- `ProbeTTLMax` in milliseconds.
abbrev pub probe_ttl_max : ℕ
probe_ttl_max = 24 * 60 * 60 * 1000

pub record ProbeArm : Type 0 where
  pub probe_id : Bytes
  pub provider_id : Bytes
  pub provider_public_key : Bytes
  pub expected_source_ip : Bytes
  pub activation : Bytes
  pub endpoint : Bytes
  pub ttl_ms : ℕ
  pub expiry_opaque : Bytes

-- ProbeArm.Canonical
unfoldable pub arm_canonical : ProbeArm → Bytes
arm_canonical a =
    magic_arm
    ++ (a.probe_id
        ++ (a.provider_id
            ++ (a.provider_public_key
                ++ (a.expected_source_ip
                    ++ (a.activation
                        ++ ((length a.endpoint % 256)
                            ∷ (a.endpoint ++ (put_be 8 a.ttl_ms ++ a.expiry_opaque))))))))

pub record ProbeArmed : Type 0 where
  pub arm_digest : Bytes
  pub signature : Bytes

abbrev pub armed_signing_bytes : ProbeArmed → Bytes
armed_signing_bytes a = magic_armed ++ a.arm_digest

pub record ProviderFrame : Type 0 where
  pub arm_digest : Bytes
  pub probe_id : Bytes
  pub provider_id : Bytes
  pub activation : Bytes
  pub endpoint : Bytes
  pub expiry_opaque : Bytes
  pub challenge : Bytes
  pub signature : Bytes

-- ProviderFrame.Canonical, which is also its SigningBytes.
unfoldable pub frame_canonical : ProviderFrame → Bytes
frame_canonical f =
    magic_wan
    ++ (f.arm_digest
        ++ (f.probe_id
            ++ (f.provider_id
                ++ (f.activation
                    ++ ((length f.endpoint % 256)
                        ∷ (f.endpoint ++ (f.expiry_opaque ++ f.challenge)))))))

pub record ProbeAck : Type 0 where
  pub arm_digest : Bytes
  pub challenge_hash : Bytes
  pub signature : Bytes

abbrev pub ack_signing_bytes : ProbeAck → Bytes
ack_signing_bytes a = magic_ack ++ (a.arm_digest ++ a.challenge_hash)

pub record ProbeReceipt : Type 0 where
  pub arm_digest : Bytes
  pub challenge_hash : Bytes
  pub provider_id : Bytes
  pub signature : Bytes

abbrev pub receipt_signing_bytes : ProbeReceipt → Bytes
receipt_signing_bytes r = magic_receipt ++ (r.arm_digest ++ (r.challenge_hash ++ r.provider_id))

-- `ip.Is4() && IsGlobalEndpoint(ip)`; `netip.Addr.Is4` is false of a mapped IPv6 address.
abbrev pub is_4 : Addr → Bool
is_4 (v4 a b c d) = true
is_4 _ = false

module _ (p : Platform) where
  check_port : Option ℕ → Option Error
  check_port none = some bad_endpoint
  check_port (some port) =
      if is_neg port || (port == 0 || ltb 65535 port) then some bad_endpoint else none

  check_addr : Option Addr → Bytes → Option Error
  unfolding check_port
  check_addr none port_text = some bad_endpoint
  check_addr (some ip) port_text =
      if not (is_4 ip)
      then some bad_endpoint
      else if not (is_global_endpoint ip)
      then some bad_endpoint
      else check_port (p.atoi port_text)

  check_host : Option (Bytes × Bytes) → Option Error
  unfolding check_addr
  check_host none = some bad_endpoint
  check_host (some (host, port_text)) =
      if length host == 0 then some bad_endpoint else check_addr (p.parse_addr host) port_text

  pub validate_probe_endpoint : Bytes → Option Error
  unfolding check_host
  validate_probe_endpoint endpoint =
      if length endpoint == 0 || ltb probe_endpoint_max (length endpoint)
      then some bad_endpoint
      else check_host (p.split_host_port endpoint)

  -- ProbeArm.Validate
  unfoldable pub validate_arm : ProbeArm → Option Error
  validate_arm a =
      if bytes_eq a.provider_id (replicate 16 0) || bytes_eq a.probe_id (replicate 16 0)
      then some malformed
      else if a.ttl_ms == 0 || ltb probe_ttl_max a.ttl_ms
      then some malformed
      else if length a.endpoint == 0 || ltb probe_endpoint_max (length a.endpoint)
      then some malformed
      else validate_probe_endpoint a.endpoint

  -- ProbeArm.Digest
  abbrev pub arm_digest_of : ProbeArm → Bytes
  arm_digest_of a = p.sha256 (arm_canonical a)

  unfoldable pub parse_probe_arm : Bytes → Result Error ProbeArm
  parse_probe_arm raw = do
    fail_if (ltb (length raw) 89 || ltb probe_frame_max (length raw)) malformed
    magic ← slice raw 0 4
    fail_if (not (bytes_eq magic magic_arm)) malformed
    endpoint_len ← index raw 88
    let expected = 89 + endpoint_len + 8 + 16
    fail_if (endpoint_len == 0 || not (length raw == expected)) malformed
    probe_id ← slice raw 4 20
    provider_id ← slice raw 20 36
    provider_public_key ← slice raw 36 68
    expected_source_ip ← slice raw 68 72
    activation ← slice raw 72 88
    endpoint ← slice raw 89 (89 + endpoint_len)
    ttl ← slice raw (89 + endpoint_len) (89 + endpoint_len + 8)
    expiry_opaque ← slice raw (89 + endpoint_len + 8) (length raw)
    let arm : ProbeArm = record {
      probe_id = probe_id;
      provider_id = provider_id;
      provider_public_key = provider_public_key;
      expected_source_ip = expected_source_ip;
      activation = activation;
      endpoint = endpoint;
      ttl_ms = be ttl;
      expiry_opaque = take 16 expiry_opaque;
    }
    check (validate_arm arm)
    ok arm

  unfoldable pub parse_probe_armed : Bytes → Bytes → Bytes → Result Error ProbeArmed
  parse_probe_armed raw node_pub want_digest = do
    fail_if (not (length raw == 36 + 64)) malformed
    magic ← slice raw 0 4
    fail_if (not (bytes_eq magic magic_armed)) malformed
    arm_digest ← slice raw 4 36
    signature ← slice raw 36 (length raw)
    let a : ProbeArmed = record { arm_digest = arm_digest; signature = signature }
    fail_if (not (bytes_eq arm_digest want_digest)) malformed
    fail_if (not (verify p node_pub (armed_signing_bytes a) signature)) bad_signature
    ok a

  unfoldable pub parse_provider_frame : Bytes → Result Error ProviderFrame
  parse_provider_frame raw = do
    fail_if (ltb (length raw) 85 || ltb probe_frame_max (length raw)) malformed
    magic ← slice raw 0 4
    fail_if (not (bytes_eq magic magic_wan)) malformed
    endpoint_len ← index raw 84
    let expected = 85 + endpoint_len + (16 + 32 + 64)
    fail_if (endpoint_len == 0 || not (length raw == expected)) malformed
    arm_digest ← slice raw 4 36
    probe_id ← slice raw 36 52
    provider_id ← slice raw 52 68
    activation ← slice raw 68 84
    endpoint ← slice raw 85 (85 + endpoint_len)
    check (validate_probe_endpoint endpoint)
    expiry_opaque ← slice raw (85 + endpoint_len) (85 + endpoint_len + 16)
    challenge ← slice raw (85 + endpoint_len + 16) (85 + endpoint_len + 16 + 32)
    signature ← slice raw (85 + endpoint_len + 16 + 32) (length raw)
    ok (record {
      arm_digest = arm_digest;
      probe_id = probe_id;
      provider_id = provider_id;
      activation = activation;
      endpoint = endpoint;
      expiry_opaque = expiry_opaque;
      challenge = challenge;
      signature = signature;
    })

  unfoldable pub parse_probe_ack : Bytes → Bytes → Result Error ProbeAck
  parse_probe_ack raw node_pub = do
    fail_if (not (length raw == 68 + 64)) malformed
    magic ← slice raw 0 4
    fail_if (not (bytes_eq magic magic_ack)) malformed
    arm_digest ← slice raw 4 36
    challenge_hash ← slice raw 36 68
    signature ← slice raw 68 (length raw)
    let a : ProbeAck = record {
      arm_digest = arm_digest;
      challenge_hash = challenge_hash;
      signature = signature;
    }
    fail_if (not (verify p node_pub (ack_signing_bytes a) signature)) bad_signature
    ok a

  unfoldable pub parse_probe_receipt : Bytes → Bytes → Result Error ProbeReceipt
  parse_probe_receipt raw node_pub = do
    fail_if (not (length raw == 84 + 64)) malformed
    magic ← slice raw 0 4
    fail_if (not (bytes_eq magic magic_receipt)) malformed
    arm_digest ← slice raw 4 36
    challenge_hash ← slice raw 36 68
    provider_id ← slice raw 68 84
    signature ← slice raw 84 (length raw)
    let r : ProbeReceipt = record {
      arm_digest = arm_digest;
      challenge_hash = challenge_hash;
      provider_id = provider_id;
      signature = signature;
    }
    fail_if (not (verify p node_pub (receipt_signing_bytes r) signature)) bad_signature
    ok r
