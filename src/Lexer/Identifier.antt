-- ===== src/Lexer/Identifier.antt =====
-- The scanner of lexer/identifier.c, with its settings.
use obelix.Prelude.{
  ℕ, zero, suc, Bool, true, false, not, ◌&&◌, ◌||◌, Option, none, some, ◌>>=◌, [], ◌∷◌, ltb, leb,
  ◌==◌, if◌then◌else◌, length,
}
use obelix.Strutils.{String, toupper, one_of}
use obelix.Str.Edits.{tolower}
use obelix.Lexer.{TokenCode, Lexer, code_identifier, get_char, push, push_as, accept}
use obelix.Lexer.Number.{isdigit}

-- `id_charclass_t`, the classes of letters.
pub data IdCharclass : Type 0 where
  case_sensitive : IdCharclass
  fold_to_lower : IdCharclass
  only_lower : IdCharclass
  fold_to_upper : IdCharclass
  only_upper : IdCharclass
  no_alpha : IdCharclass

pub record IdConfig : Type 0 where
  pub code : TokenCode
  pub filter : Option String
  pub startwith : Option String
  pub alpha : IdCharclass
  pub digits : Bool
  pub startwith_alpha : IdCharclass
  pub startwith_digits : Bool

-- "X9_" and "X_"
unfoldable pub id_config_create : IdConfig
id_config_create = record {
  code = code_identifier;
  filter = some (88 ∷ 57 ∷ 95 ∷ []);
  startwith = some (88 ∷ 95 ∷ []);
  alpha = case_sensitive;
  digits = true;
  startwith_alpha = case_sensitive;
  startwith_digits = false;
}

-- The class that the first of the letters "XlUAaQ" in a filter stands for.
unfoldable pub class_in : String → IdCharclass
class_in [] = no_alpha
class_in (c ∷ cs) =
    let rest = class_in cs in
    if c == 88
    then case_sensitive
    else if c == 108
    then fold_to_lower
    else if c == 85
    then fold_to_upper
    else if c == 65
    then only_upper
    else if c == 97
    then only_lower
    else if c == 81
    then no_alpha
    else rest

-- `_id_config_set` of the filter and of the characters to start with.
unfoldable pub set_filter : IdConfig → String → IdConfig
unfolding class_in
set_filter config [] = record config { filter = none; alpha = case_sensitive; digits = true }
set_filter config (c ∷ cs) = record config {
  filter = some (c ∷ cs);
  alpha = class_in (c ∷ cs);
  digits = one_of (c ∷ cs) 57;
}

unfoldable pub set_startwith : IdConfig → String → IdConfig
unfolding class_in
set_startwith config [] = record config {
  startwith = none;
  startwith_alpha = case_sensitive;
  startwith_digits = true;
}
set_startwith config (c ∷ cs) = record config {
  startwith = some (c ∷ cs);
  startwith_alpha = class_in (c ∷ cs);
  startwith_digits = one_of (c ∷ cs) 57;
}

abbrev pub islower : ℕ → Bool
islower c = leb 97 c && leb c 122

abbrev pub isupper : ℕ → Bool
isupper c = leb 65 c && leb c 90

abbrev pub alpha_passes : IdCharclass → ℕ → Bool
alpha_passes no_alpha ch = false
alpha_passes only_lower ch = islower ch
alpha_passes only_upper ch = isupper ch
alpha_passes case_sensitive ch = true
alpha_passes fold_to_lower ch = true
alpha_passes fold_to_upper ch = true

abbrev pub other_passes : Option String → ℕ → Bool
other_passes none ch = true
other_passes (some filter) ch = one_of filter ch

unfoldable pub filter_against : Option String → IdCharclass → Bool → ℕ → Bool
filter_against filter alpha digits ch =
    if islower ch || isupper ch
    then alpha_passes alpha ch
    else if isdigit ch
    then digits
    else other_passes filter ch

-- `_id_config_filter` on the token so far.
unfoldable pub config_filter : IdConfig → String → ℕ → Bool
unfolding filter_against
config_filter config token ch =
    not (ch == 0)
    && filter_against config.filter config.alpha config.digits ch
    && (ltb 0 (length token)
        || filter_against config.startwith config.startwith_alpha config.startwith_digits ch)

-- What the loop does with a character.
unfoldable pub push_folded : IdCharclass → Lexer → ℕ → Lexer
unfolding push push_as
push_folded case_sensitive l ch = push l
push_folded only_lower l ch = push l
push_folded only_upper l ch = push l
push_folded fold_to_upper l ch = push_as l (toupper ch)
push_folded fold_to_lower l ch = push_as l (tolower ch)
push_folded no_alpha l ch = l

-- The loop of `_id_match`; `none` is too little fuel.
unfoldable pub scan : ℕ → IdConfig → Lexer → Option Lexer
unfolding config_filter push_folded get_char
scan zero config l = none
scan (suc n) config l =
    let r = get_char l in
    let rest = scan n config (push_folded config.alpha r.1 r.0) in
    if config_filter config l.token r.0 then rest else some r.1

unfoldable pub id_match : ℕ → IdConfig → Lexer → Option Lexer
unfolding scan accept
id_match fuel config l = scan fuel config l >>= λ t. some (accept t config.code)
