-- ===== src/Tests/Strings.antt =====
-- lib/strutils.c on short strings.
use obelix.Prelude.{◌≡◌, refl, none, [], ◌∷◌}
use obelix.Prelude.Int.{pos}
use obelix.Strutils.{String, backslash, quote, escape, unescape, strtrim, oblcore_strcasecmp}
use obelix.Strutils.Escapes.{unescape-escape}
use obelix.Strutils.Compare.{oblcore_strcasecmp-length}

-- A quote and a backslash between letters.
abbrev word : String
word = 97 ∷ quote ∷ backslash ∷ 98 ∷ []

escape_run : escape word none 0 ≡ 97 ∷ backslash ∷ quote ∷ backslash ∷ backslash ∷ 98 ∷ []
unfolding escape
escape_run = refl

strtrim_run : strtrim (32 ∷ 9 ∷ 97 ∷ 32 ∷ 98 ∷ 10 ∷ []) ≡ 97 ∷ 32 ∷ 98 ∷ []
unfolding strtrim
strtrim_run = refl

unescape-escape_example : unescape (escape word none 0) 0 ≡ word
unescape-escape_example = unescape-escape word none 0 refl

oblcore_strcasecmp-length_example : oblcore_strcasecmp (97 ∷ 98 ∷ []) (120 ∷ 121 ∷ []) ≡ pos 0
oblcore_strcasecmp-length_example = oblcore_strcasecmp-length (97 ∷ 98 ∷ []) (120 ∷ 121 ∷ []) refl
