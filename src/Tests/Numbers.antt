-- ===== src/Tests/Numbers.antt =====
-- The number scanner of lexer/number.c on "007+".
use obelix.Prelude.{◌≡◌, refl, false, none, some, [], ◌∷◌, arith}
use obelix.Lexer.{Lexer, code_integer, begins}
use obelix.Lexer.Number.{num_config_create, num_match}
use obelix.Lexer.Scans.{num_match_end}
use obelix.Lexer.LeadingZeros.{num_match-integer}

abbrev lexer : Lexer
lexer = record {
  buffer = 48 ∷ 48 ∷ 55 ∷ 43 ∷ [];
  pos = 0;
  token = [];
  success = false;
  place = begins;
  last_token = none;
  scanned = 0;
  count = 0;
  scan_count = 0;
  current = 0;
  prev_char = 0;
}

num_match_end_example : (t : Lexer) × (num_match 5 num_config_create lexer ≡ some t)
num_match_end_example = num_match_end num_config_create lexer

num_match-integer_example :
    (t : Lexer) × (num_match 5 num_config_create lexer ≡ some t)
    × (t.last_token ≡ some (record { code = code_integer; text = 55 ∷ [] }))
    × (t.scanned ≡ 3)
    × (t.pos ≡ 0)
    × (t.token ≡ [])
num_match-integer_example =
    num_match-integer 2 5 num_config_create lexer 55 [] (43 ∷ [])
      (record { reads = refl; counts = refl; fresh = refl; rest = refl }) refl refl refl
      (omega arith)
