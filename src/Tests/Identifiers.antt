-- ===== src/Tests/Identifiers.antt =====
-- The identifier scanner of lexer/identifier.c on "x1 ".
use obelix.Prelude.{◌≡◌, refl, false, none, some, [], ◌∷◌, arith}
use obelix.Lexer.{Lexer, code_identifier, begins}
use obelix.Lexer.Identifier.{IdConfig, id_config_create, set_filter, id_match, config_filter}
use obelix.Lexer.Words.{id_match-word, id_match-no_alpha}

abbrev lexer : Lexer
lexer = record {
  buffer = 120 ∷ 49 ∷ 32 ∷ [];
  pos = 0;
  token = [];
  success = false;
  place = begins;
  last_token = none;
  scanned = 0;
  count = 0;
  scan_count = 0;
  current = 0;
  prev_char = 0;
}

-- The settings of `id_config_create`.
abbrev config : IdConfig
config = id_config_create

-- Only digits: the filter is "9".
abbrev digits_only : IdConfig
digits_only = set_filter id_config_create (57 ∷ [])

id_match-word_example :
    (t : Lexer) × (id_match 4 config lexer ≡ some t)
    × (t.last_token ≡ some (record { code = code_identifier; text = 120 ∷ 49 ∷ [] }))
    × (t.scanned ≡ 2)
    × (t.pos ≡ 0)
unfolding id_config_create config_filter
id_match-word_example =
    id_match-word 4 config lexer 120 (49 ∷ []) (32 ∷ []) refl
      (record { reads = refl; counts = refl; fresh = refl; rest = refl }) refl refl (omega arith)

id_match-no_alpha_example :
    (t : Lexer) × (id_match 4 digits_only lexer ≡ some t) × (t.last_token ≡ none)
unfolding id_config_create set_filter
id_match-no_alpha_example = id_match-no_alpha digits_only lexer refl refl
