-- ===== src/Traversal/Stun/Xor.antt =====
-- Go's `^` on unsigned words of a width, bit by bit.
use anti_nat_agent.Base.{ℕ, zero, suc, ◌+◌, ◌*◌, ◌/◌, ◌%◌, ◌^◌, ◌<◌, ◌≡◌, arith}
use native.Mathlib.Nat.{pow-suc}

unfoldable pub xor_bits : ℕ → ℕ → ℕ → ℕ
xor_bits zero a b = 0
xor_bits (suc w) a b = (a + b) % 2 + 2 * xor_bits w (a / 2) (b / 2)

pub xor_bits-xor_bits : (w a b : ℕ) → a < 2 ^ w → xor_bits w (xor_bits w a b) b ≡ a
unfolding xor_bits
xor_bits-xor_bits zero a b h = omega arith
xor_bits-xor_bits (suc w) a b h =
    let x = xor_bits w (a / 2) (b / 2) in
    let half : ((a + b) % 2 + 2 * x) / 2 ≡ x = omega arith in
    let low : ((a + b) % 2 + 2 * x + b) % 2 ≡ a % 2 = omega arith in
    rw (half, low) (omega (arith, xor_bits-xor_bits w (a / 2) (b / 2) (omega (arith, pow-suc 2 w))))

pub xor_bits-lt : (w a b : ℕ) → xor_bits w a b < 2 ^ w
unfolding xor_bits
xor_bits-lt zero a b = omega arith
xor_bits-lt (suc w) a b = omega (arith, xor_bits-lt w (a / 2) (b / 2), pow-suc 2 w)
