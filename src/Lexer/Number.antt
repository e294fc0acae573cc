-- ===== src/Lexer/Number.antt =====
-- The scanner of lexer/number.c, a state machine over the characters that the lexer hands out.
use obelix.Prelude.{
  ℕ, zero, suc, ◌-◌, Bool, true, false, ◌&&◌, ◌||◌, Option, none, some, ◌>>=◌, [], ◌∷◌, ltb, leb,
  ◌==◌, if◌then◌else◌, length, take,
}
use obelix.Strutils.{String}
use obelix.Str.Edits.{tolower}
use obelix.Lexer.{
  TokenCode, Lexer, code_none, code_error, code_integer, code_hex_number, code_float,
  code_identifier, code_whitespace, code_newline, get_char, push, accept, accept_token,
}

pub data NumScannerState : Type 0 where
  start : NumScannerState
  plus_minus : NumScannerState
  zero_seen : NumScannerState
  number : NumScannerState
  period : NumScannerState
  float : NumScannerState
  sci_float : NumScannerState
  sci_float_exp_sign : NumScannerState
  sci_float_exp : NumScannerState
  hex_integer : NumScannerState
  done : NumScannerState
  error : NumScannerState

pub record NumConfig : Type 0 where
  pub scientific : Bool
  pub sign : Bool
  pub hex : Bool
  pub flt : Bool

unfoldable pub num_config_create : NumConfig
num_config_create = record { scientific = true; sign = true; hex = true; flt = true }

abbrev pub isdigit : ℕ → Bool
isdigit c = leb 48 c && leb c 57

abbrev pub isxdigit : ℕ → Bool
isxdigit c = isdigit c || (leb 97 c && leb c 102) || (leb 65 c && leb c 70)

abbrev pub is_sign : ℕ → Bool
is_sign c = c == 43 || c == 45

-- What `_num_scanner_process` does to a state: the next one, the code, and whether the last
-- character of the token, a leading zero, is chopped off.
abbrev pub Step : Type 0
Step = NumScannerState × TokenCode × Bool

abbrev pub go : NumScannerState → Step
go s = (s, code_none, false)

-- `len` is the length of the token so far.
unfoldable pub step : NumConfig → ℕ → NumScannerState → ℕ → Step
step config len start ch =
    if config.sign && is_sign ch
    then go plus_minus
    else if ch == 48
    then go zero_seen
    else if isdigit ch
    then go number
    else if config.flt && ch == 46
    then go period
    else go done
step config len plus_minus ch =
    if ch == 48
    then go zero_seen
    else if config.flt && ch == 46
    then go period
    else if isdigit ch
    then go number
    else go done
step config len period ch =
    if isdigit ch
    then go float
    else if config.scientific && ch == 101 && ltb 1 len
    then go sci_float
    else go done
step config len zero_seen ch =
    if ch == 48
    then (zero_seen, code_none, true)
    else if isdigit ch
    then (number, code_none, true)
    else if config.flt && ch == 46
    then go float
    else if config.hex && ch == 120
    then go hex_integer
    else (done, code_integer, false)
step config len number ch =
    if config.flt && ch == 46
    then go period
    else if config.scientific && ch == 101
    then go sci_float
    else if isdigit ch
    then go number
    else (done, code_integer, false)
step config len float ch =
    if config.scientific && ch == 101
    then go sci_float
    else if isdigit ch
    then go float
    else (done, code_float, false)
step config len sci_float ch =
    if is_sign ch then go sci_float_exp_sign else if isdigit ch then go sci_float_exp else go error
step config len sci_float_exp ch =
    if isdigit ch then go sci_float_exp else (done, code_float, false)
step config len sci_float_exp_sign ch = if isdigit ch then go sci_float_exp else go error
step config len hex_integer ch =
    if isxdigit ch then go hex_integer else (done, code_hex_number, false)
step config len done ch = go done
step config len error ch = go error

abbrev pub is_over : NumScannerState → Bool
is_over done = true
is_over error = true
is_over start = false
is_over plus_minus = false
is_over zero_seen = false
is_over number = false
is_over period = false
is_over float = false
is_over sci_float = false
is_over sci_float_exp_sign = false
is_over sci_float_exp = false
is_over hex_integer = false

-- `str_chop(token, 1)`
abbrev pub chop_one : Lexer → Lexer
chop_one l = record l { token = take (length l.token - 1) l.token }

-- `_num_scanner_process`, with the state and the code.
unfoldable pub process :
    NumConfig → NumScannerState → Lexer → ℕ → NumScannerState × TokenCode × Lexer
unfolding step push
process config state l ch =
    let r = step config (length l.token) state ch in
    let l₁ = if r.2 then chop_one l else l in (r.0, r.1, if is_over r.0 then l₁ else push l₁)

-- The loop of `_num_match`; `none` is too little fuel.
unfoldable pub scan :
    ℕ → NumConfig → NumScannerState → Lexer → Option (NumScannerState × TokenCode × Lexer)
unfolding process get_char
scan zero config state l = none
scan (suc n) config state l =
    let r = process config state (get_char l).1 (tolower (get_char l).0) in
    let rest = scan n config r.0 r.2 in if is_over r.0 then some r else rest

-- The characters of "Malformed number".
abbrev pub malformed : String
malformed =
    77 ∷ 97 ∷ 108 ∷ 102 ∷ 111 ∷ 114 ∷ 109 ∷ 101 ∷ 100 ∷ 32 ∷ 110 ∷ 117 ∷ 109 ∷ 98 ∷ 101 ∷ 114 ∷ []

abbrev pub accept_code : Lexer → TokenCode → Lexer
accept_code l code_none = l
accept_code l code_error = accept l code_error
accept_code l code_integer = accept l code_integer
accept_code l code_hex_number = accept l code_hex_number
accept_code l code_float = accept l code_float
accept_code l code_identifier = accept l code_identifier
accept_code l code_whitespace = accept l code_whitespace
accept_code l code_newline = accept l code_newline

-- The end of `_num_match`.
unfoldable pub settle : NumScannerState × TokenCode × Lexer → Lexer
unfolding accept accept_token
settle (state, code, l) = elim state [
  | error ↦ accept_token l (record { code = code_error; text = malformed })
  | _ ↦ accept_code l code
]

unfoldable pub num_match : ℕ → NumConfig → Lexer → Option Lexer
unfolding scan settle
num_match fuel config l = scan fuel config start l >>= λ r. some (settle r)
