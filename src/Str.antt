-- ===== src/Str.antt =====
-- The string buffers of lib/str.c. A `char *` argument is the list of its characters, without the
-- zero at its end and without zeros before it. An outer `none` is a loop that does not end within
-- its fuel; a NULL result is the `false` beside a state. An `int` that is stored as a character
-- keeps its lowest 8 bits. `str_wrap` and reading from streams are
-- left out, so that every buffer is the string's own; `realloc` does not fail.
pub mod Bytes
pub mod Growth
pub mod Contents
pub mod Appends
pub mod Moves
pub mod Cuts
pub mod Pieces
pub mod Search
pub mod Backwards
pub mod Joins
pub mod Methods
pub mod Splits
pub mod Reading
pub mod Edits
use obelix.Prelude.{
  ℕ, zero, suc, ◌+◌, ◌-◌, ◌*◌, ◌/◌, ◌%◌, Bool, true, false, ◌&&◌, Option, none, some, List, [], ◌∷◌,
  ◌++◌, ltb, leb, ◌==◌, if◌then◌else◌, length, get_or, set, take, drop, replicate, ◌>>=◌,
}
use obelix.Strutils.{String}

-- `str_t`, with the first `bufsize` bytes at `buffer`.
pub record Str : Type 0 where
  pub buffer : List ℕ
  pub pos : ℕ
  pub len : ℕ
  pub bufsize : ℕ

-- What the functions of the C library find at an address: the characters up to a zero.
abbrev pub chars : List ℕ → String
chars [] = []
chars (zero ∷ cs) = []
chars (suc c ∷ cs) = suc c ∷ chars cs

-- `memmove` and `memcpy` of `xs` to the index `i`.
abbrev pub memmove : List ℕ → ℕ → List ℕ → List ℕ
memmove b i xs = take i b ++ xs ++ drop (i + length xs) b

-- `memset` of `n` zeros.
abbrev pub clear_bytes : List ℕ → ℕ → ℕ → List ℕ
clear_bytes b i n = memmove b i (replicate n 0)

-- `strncat`, which puts a zero behind what it appends.
abbrev pub strncat : List ℕ → String → ℕ → List ℕ
strncat b other n = memmove b (length (chars b)) (take n other ++ 0 ∷ [])

abbrev pub default_size : ℕ
default_size = 32

unfoldable pub str_create : ℕ → Str
str_create size =
    let bufsize = if size == 0 then default_size else size in
    record { buffer = replicate bufsize 0; pos = 0; len = 0; bufsize = bufsize }

unfoldable pub str_copy_nchars : String → ℕ → Str
str_copy_nchars buffer n =
    let len = if leb n (length buffer) then n else length buffer in
    record { buffer = take len buffer ++ 0 ∷ []; pos = 0; len = len; bufsize = suc len }

unfoldable pub str_copy_chars : String → Str
unfolding str_copy_nchars
str_copy_chars buffer = str_copy_nchars buffer (length buffer)

unfoldable pub str_duplicate : Str → Str
str_duplicate s =
    let b = chars s.buffer in
    record { buffer = b ++ 0 ∷ []; pos = 0; len = length b; bufsize = suc (length b) }

-- The loop of `_str_expand`.
unfoldable pub grow : ℕ → ℕ → ℕ → Option ℕ
grow zero newsize target = if ltb newsize (suc target) then none else some newsize
grow (suc n) newsize target =
    let rest = grow n (newsize * 8 / 5) target in
    if ltb newsize (suc target) then rest else some newsize

unfoldable pub expand_to : Str → ℕ → Option Str
unfolding grow
expand_to s target =
    if ltb s.bufsize (suc target)
    then (grow target (s.bufsize * 8 / 5) target >>= λ newsize. some (record s {
      buffer = take s.len s.buffer ++ replicate (newsize - s.len) 0;
      bufsize = newsize;
    }))
    else some s

unfoldable pub expand : Str → ℕ → Option Str
unfolding expand_to
expand s target = expand_to s (if target == 0 then s.bufsize else target)

-- The store of `str_append_char`, which narrows the `int` to a `char`.
abbrev pub put_char : Str → ℕ → Str
put_char t ch = record t { buffer = set t.buffer t.len (ch % 256); len = suc t.len }

unfoldable pub append_char : Str → ℕ → Option (Bool × Str)
unfolding expand
append_char s ch =
    if ltb 0 s.bufsize && ltb 0 ch
    then (expand s (s.len + 1) >>= λ t. some (true, put_char t ch))
    else some (false, s)

unfoldable pub put_nchars : Str → String → ℕ → Str
put_nchars t other n =
    let len = t.len + (if ltb n (length other) then n else length other) in
    record t { buffer = set (strncat t.buffer other n) len 0; len = len }

unfoldable pub append_nchars : Str → String → ℕ → Option (Bool × Str)
unfolding expand put_nchars
append_nchars s other n = expand s (s.len + n + 1) >>= λ t. some (true, put_nchars t other n)

unfoldable pub append_chars : Str → String → Option (Bool × Str)
unfolding append_nchars
append_chars s other = append_nchars s other (length other)

unfoldable pub put_str : Str → Str → Str
put_str t other = record t {
  buffer = strncat t.buffer (chars other.buffer) (length (chars other.buffer));
  len = t.len + other.len;
}

-- `other` is another buffer than `s`.
unfoldable pub append : Str → Str → Option (Bool × Str)
unfolding expand put_str
append s other =
    if ltb 0 s.bufsize
    then (expand s (s.len + other.len + 1) >>= λ t. some (true, put_str t other))
    else some (false, s)

unfoldable pub erase : Str → Bool × Str
erase s =
    if ltb 0 s.bufsize
    then (true, record s { buffer = replicate s.bufsize 0; len = 0; pos = 0 })
    else (false, s)

unfoldable pub cut_tail : Str → ℕ → Str
unfolding erase
cut_tail s num =
    if leb s.len num
    then (erase s).1
    else if ltb 0 num
    then record s { buffer = clear_bytes s.buffer (s.len - num) num; len = s.len - num }
    else s

-- The end of `str_chop`.
abbrev pub pull_pos : Str → Str
pull_pos s = record s { pos = if ltb s.len s.pos then s.len else s.pos }

unfoldable pub chop : Str → ℕ → Bool × Str
unfolding cut_tail
chop s num = if ltb 0 s.bufsize then (true, pull_pos (cut_tail s num)) else (false, s)

unfoldable pub cut_front : Str → ℕ → Str
unfolding erase
cut_front s num =
    if leb s.len num
    then (erase s).1
    else if ltb 0 num
    then record s {
      buffer =
          clear_bytes (memmove s.buffer 0 (take (s.len - num) (drop num s.buffer))) (s.len - num)
            num;
      len = s.len - num;
    }
    else s

-- The end of `str_lchop`.
abbrev pub push_pos : Str → ℕ → Str
push_pos s num = record s { pos = if ltb s.pos num then 0 else s.pos - num }

unfoldable pub lchop : Str → ℕ → Bool × Str
unfolding cut_front
lchop s num = if ltb 0 s.bufsize then (true, push_pos (cut_front s num) num) else (false, s)

-- `str_set` at an index that is not negative, of a character that is not negative.
unfoldable pub str_set : Str → ℕ → ℕ → Bool × Str
str_set s i ch =
    if ltb 0 s.bufsize && ltb i s.len
    then (
      true,
      record s { buffer = set s.buffer i (ch % 256); pos = 0; len = if ch == 0 then i else s.len },
    )
    else (false, s)

-- `str_slice` with bounds that are not negative; a length below 0 would wrap around to a large one.
unfoldable pub slice : Str → ℕ → ℕ → Str
unfolding str_copy_chars chop
slice s from upto =
    let upto' = if ltb s.len upto then s.len else upto in
    let len = upto' - from in
    let ret = str_copy_chars (chars (drop from s.buffer)) in
    if leb from upto' && ltb len ret.len then (chop ret (ret.len - len)).1 else ret
