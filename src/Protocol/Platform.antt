-- ===== src/Protocol/Platform.antt =====
-- What the protocol takes from Go's libraries: the digest and the signatures, and the parsers of
-- endpoints. The signature wrappers are those of internal/security/framecrypto/framecrypto.go.
use anti_nat_agent.Base.{
  ℕ, Bool, false, ◌||◌, not, Option, none, some, ◌==◌, if◌then◌else◌, length, Bytes,
}
use anti_nat_agent.Protocol.Endpoint.{Addr}

pub record Platform : Type 0 where
  pub sha256 : Bytes → Bytes
  pub ed25519_sign : (key message : Bytes) → Bytes
  pub ed25519_verify : (key message signature : Bytes) → Bool
  -- net.SplitHostPort, netip.ParseAddr and strconv.Atoi; `none` is an error. An `int` is its 64-bit
  -- pattern.
  pub split_host_port : Bytes → Option (Bytes × Bytes)
  pub parse_addr : Bytes → Option Addr
  pub atoi : Bytes → Option ℕ

abbrev pub public_key_size : ℕ
public_key_size = 32

abbrev pub private_key_size : ℕ
private_key_size = 64

abbrev pub signature_size : ℕ
signature_size = 64

module _ (p : Platform) where
  -- `none` is ErrInvalidKeySize.
  unfoldable pub sign : Bytes → Bytes → Option Bytes
  sign key message =
      if not (length key == private_key_size) then none else some (p.ed25519_sign key message)

  unfoldable pub verify : Bytes → Bytes → Bytes → Bool
  verify key message signature =
      if not (length key == public_key_size) || not (length signature == signature_size)
      then false
      else p.ed25519_verify key message signature
