-- ===== src/Base/Word.antt =====
-- Go's `int` and `int64` as 64-bit patterns in two's complement, and `uint64`. A pattern is a
-- number below 2 ^ 64; from 2 ^ 63 on it stands for a negative integer.
use Prim.Native.Nat.{ℕ, ◌+◌, ◌-◌, ◌%◌, ◌^◌}
use mathlib.Core.Bool.{Bool}
use anti_nat_agent.Base.Tests.{ltb, leb}

abbrev pub word : ℕ
word = 2 ^ 64

abbrev pub half_word : ℕ
half_word = 2 ^ 63

abbrev pub add64 : ℕ → ℕ → ℕ
add64 a b = (a + b) % word

abbrev pub sub64 : ℕ → ℕ → ℕ
sub64 a b = (a + word - b) % word

-- x < 0, for a signed x.
abbrev pub is_neg : ℕ → Bool
is_neg a = leb half_word a

-- x < y, for signed x and y.
abbrev pub lt64 : ℕ → ℕ → Bool
lt64 a b = ltb ((a + half_word) % word) ((b + half_word) % word)

-- x <= y, for signed x and y.
abbrev pub le64 : ℕ → ℕ → Bool
le64 a b = leb ((a + half_word) % word) ((b + half_word) % word)
