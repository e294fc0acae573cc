-- ===== src/Strutils.antt =====
-- The string helpers of lib/strutils.c. A string is the list of its characters' codes, without the
-- zero at its end; `isspace` and `toupper` are those of the C locale.
pub mod Escapes
pub mod Compare
pub mod Trims
use obelix.Prelude.{
  ℕ, zero, suc, ◌-◌, Bool, true, false, ◌&&◌, ◌||◌, Option, none, some, List, [], ◌∷◌, ltb, leb,
  ◌==◌, if◌then◌else◌, length, get_or, take,
}
use obelix.Prelude.Int.{ℤ, pos, ◌-ℤ◌}

abbrev pub String : Type 0
String = List ℕ

abbrev pub backslash : ℕ
backslash = 92

abbrev pub quote : ℕ
quote = 34

abbrev pub isspace : ℕ → Bool
isspace c = c == 32 || (leb 9 c && leb c 13)

abbrev pub toupper : ℕ → ℕ
toupper c = if leb 97 c && leb c 122 then c - 32 else c

-- The first character, the zero at the end of an empty string.
abbrev pub char_at : String → ℕ
char_at [] = 0
char_at (c ∷ cs) = c

unfoldable pub oblcore_strcasecmp : String → String → ℤ
unfolding ◌-ℤ◌
oblcore_strcasecmp (c ∷ cs) (d ∷ ds) = oblcore_strcasecmp cs ds
oblcore_strcasecmp [] ds = pos 0 -ℤ pos (toupper (char_at ds))
oblcore_strcasecmp (c ∷ cs) [] = pos (toupper c) -ℤ pos 0

unfoldable pub strltrim : String → String
strltrim [] = []
strltrim (c ∷ cs) = if isspace c then strltrim cs else c ∷ cs

-- The loop of `strrtrim`, with `ix` one higher than in C.
unfoldable pub cut_back : ℕ → String → String
cut_back zero str = str
cut_back (suc ix) str =
    let rest = cut_back ix (take ix str) in if isspace (get_or str ix 0) then rest else str

unfoldable pub strrtrim : String → String
unfolding cut_back
strrtrim str = cut_back (length str) str

unfoldable pub strtrim : String → String
unfolding strltrim strrtrim
strtrim str = strrtrim (strltrim str)

-- `strpbrk` looks for one of these.
abbrev pub one_of : List ℕ → ℕ → Bool
one_of [] c = false
one_of (x ∷ xs) c = c == x || one_of xs c

abbrev pub escapes : Option (List ℕ) → List ℕ
escapes none = quote ∷ backslash ∷ []
escapes (some set) = set

-- Backslash for a zero.
abbrev pub escape_with : ℕ → ℕ
escape_with escape_char = if escape_char == 0 then backslash else escape_char

-- The loop of `escape`: the rest is shifted to the right at each hit, and the search goes on behind
-- the character that was hit.
unfoldable pub escape_from : List ℕ → ℕ → String → String
escape_from set ch [] = []
escape_from set ch (c ∷ cs) =
    let rest = escape_from set ch cs in if one_of set c then ch ∷ c ∷ rest else c ∷ rest

unfoldable pub escape : String → Option (List ℕ) → ℕ → String
unfolding escape_from
escape str escapeable escape_char = escape_from (escapes escapeable) (escape_with escape_char) str

-- The loop of `unescape`: the rest is shifted to the left at each hit that is not the last
-- character, and the search goes on behind the character that came in its place.
unfoldable pub unescape_from : ℕ → String → String
unescape_from ch [] = []
unescape_from ch (c ∷ []) = c ∷ []
unescape_from ch (c ∷ d ∷ ds) =
    let hit = d ∷ unescape_from ch ds in
    let miss = c ∷ unescape_from ch (d ∷ ds) in if c == ch then hit else miss

unfoldable pub unescape : String → ℕ → String
unfolding unescape_from
unescape str escape_char = unescape_from (escape_with escape_char) str
