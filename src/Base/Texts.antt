-- ===== src/Base/Texts.antt =====
-- Go's constant strings as the bytes that they stand for (they are ASCII).
use Prim.Native.Char.{code}
use Prim.Native.String.{String}
use mathlib.Core.Bool.{Bool, true, false, ◌&&◌}
use mathlib.Core.List.{[], ◌∷◌}
use anti_nat_agent.Base.Tests.{◌==◌}
use anti_nat_agent.Base.ByteStrings.{Bytes}

abbrev pub text : String → Bytes
text String.[] = []
text (String.◌∷◌ c s) = code c ∷ text s

-- bytes.HasPrefix, the prefix first.
abbrev pub has_prefix : Bytes → Bytes → Bool
has_prefix [] xs = true
has_prefix (p ∷ ps) [] = false
has_prefix (p ∷ ps) (x ∷ xs) = p == x && has_prefix ps xs
