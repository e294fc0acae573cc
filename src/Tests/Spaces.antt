-- ===== src/Tests/Spaces.antt =====
-- The whitespace scanner of lexer/whitespace.c on two blanks before "x".
use obelix.Prelude.{◌≡◌, refl, true, false, none, some, [], ◌∷◌, arith}
use obelix.Lexer.{Lexer, code_whitespace, begins}
use obelix.Lexer.Whitespace.{WsConfig, ws_match}
use obelix.Lexer.Blanks.{ws_match-blanks}

abbrev lexer : Lexer
lexer = record {
  buffer = 32 ∷ 9 ∷ 120 ∷ [];
  pos = 0;
  token = [];
  success = false;
  place = begins;
  last_token = none;
  scanned = 0;
  count = 0;
  scan_count = 0;
  current = 0;
  prev_char = 0;
}

-- Blanks are tokens here.
abbrev config : WsConfig
config = record { ignore_nl = true; ignore_ws = false }

ws_match-blanks_example :
    (t : Lexer) × (ws_match 4 config lexer ≡ some t)
    × (t.scanned ≡ 2)
    × (t.pos ≡ 0)
    × (t.success ≡ true)
    × (t.last_token ≡ some (record { code = code_whitespace; text = 32 ∷ 9 ∷ [] }))
ws_match-blanks_example =
    ws_match-blanks 4 config lexer 32 (9 ∷ []) (120 ∷ [])
      (record { reads = refl; counts = refl; fresh = refl; rest = refl }) refl refl (omega arith)
