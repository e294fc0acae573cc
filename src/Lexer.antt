-- ===== src/Lexer.antt =====
-- The state of the lexer of lexer/lexer.c and how scanners move it, for a lexer whose reader is the
-- string buffer itself. The buffers `buffer` and `token` are seen as their texts (Str.Contents).
-- A byte from 128 on stands for the negative `int` that `str_peek` makes of it.
pub mod Number
pub mod Scans
pub mod Integers
pub mod LeadingZeros
pub mod Identifier
pub mod Words
pub mod Whitespace
pub mod Blanks
use obelix.Prelude.{
  ℕ, zero, suc, ◌+◌, ◌-◌, Bool, true, false, not, ◌&&◌, ◌||◌, Option, none, some, List, [], ◌∷◌,
  ◌++◌, ltb, leb, ◌==◌, if◌then◌else◌, length, get_or, drop,
}
use obelix.Strutils.{String}

-- The codes of the tokens of the scanners that are modelled.
pub data TokenCode : Type 0 where
  code_none : TokenCode
  code_error : TokenCode
  code_integer : TokenCode
  code_hex_number : TokenCode
  code_float : TokenCode
  code_identifier : TokenCode
  code_whitespace : TokenCode
  code_newline : TokenCode

pub record Token : Type 0 where
  pub code : TokenCode
  pub text : String

pub data Where : Type 0 where
  begins : Where
  middle : Where
  ends : Where

-- `lexer_t`; `pos` is the read position of its buffer, `success` that its state is
-- `LexerStateSuccess`.
pub record Lexer : Type 0 where
  pub buffer : String
  pub pos : ℕ
  pub token : String
  pub success : Bool
  pub place : Where
  pub last_token : Option Token
  pub scanned : ℕ
  pub count : ℕ
  pub scan_count : ℕ
  pub current : ℕ
  pub prev_char : ℕ

unfoldable pub get_char : Lexer → ℕ × Lexer
get_char l =
    let ch = get_or l.buffer l.pos 0 in
    (ch, record l { pos = suc l.pos; current = ch; place = if ch == 0 then ends else middle })

-- `str_append_char` refuses what is not positive: a 0, and a byte from 128 on.
unfoldable pub push_as : Lexer → ℕ → Lexer
push_as l ch = record l {
  token = if ltb 0 ch && ltb ch 128 then l.token ++ ch ∷ [] else l.token;
  prev_char = l.current;
  current = 0;
  scan_count = suc l.scan_count;
}

unfoldable pub push : Lexer → Lexer
unfolding push_as
push l = push_as l l.current

unfoldable pub discard : Lexer → Lexer
unfolding push_as
discard l = push_as l 0

unfoldable pub rewind : Lexer → Lexer
rewind l = record l {
  token = [];
  pos = 0;
  place =
      if ltb 0 l.scan_count || ltb 0 l.current
      then (if l.count == 0 then begins else middle)
      else l.place;
  scan_count = 0;
}

-- What is skipped goes off the front of the buffer.
unfoldable pub reset : Lexer → Lexer
reset l = record l {
  buffer = drop l.scanned l.buffer;
  pos = 0;
  current = 0;
  token = [];
  count = l.count + l.scanned;
  scanned = 0;
  scan_count = 0;
}

abbrev pub is_longer : Lexer → Bool
is_longer l = l.scanned == 0 || ltb l.scanned l.scan_count

unfoldable pub skip : Lexer → Lexer
unfolding rewind
skip l =
    if is_longer l
    then record (rewind (record l { scanned = l.scan_count })) { success = true }
    else l

unfoldable pub accept_token : Lexer → Token → Lexer
unfolding skip
accept_token l t =
    if ltb 0 l.scan_count && is_longer l then skip (record l { last_token = some t }) else l

unfoldable pub accept : Lexer → TokenCode → Lexer
unfolding accept_token
accept l code = accept_token l (record { code = code; text = l.token })
