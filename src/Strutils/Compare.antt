-- ===== src/Strutils/Compare.antt =====
-- `oblcore_strcasecmp` of lib/strutils.c.
use obelix.Prelude.{◌≡◌, [], ◌∷◌, length, arith}
use obelix.Prelude.Int.{pos}
use obelix.Strutils.{String, oblcore_strcasecmp}

-- The loop goes on whatever the characters are, so that any two strings of the same length compare
-- equal.
pub oblcore_strcasecmp-length :
    (s₁ s₂ : String) → length s₁ ≡ length s₂ → oblcore_strcasecmp s₁ s₂ ≡ pos 0
unfolding oblcore_strcasecmp
oblcore_strcasecmp-length [] [] h = ground arith
oblcore_strcasecmp-length [] (d ∷ ds) h = absurd (omega arith)
oblcore_strcasecmp-length (c ∷ cs) [] h = absurd (omega arith)
oblcore_strcasecmp-length (c ∷ cs) (d ∷ ds) h = oblcore_strcasecmp-length cs ds (omega arith)
