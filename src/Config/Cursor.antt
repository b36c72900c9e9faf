-- ===== src/Config/Cursor.antt =====
-- The text of a configuration file, read from a pointer on: characters, white space and comments.
-- (config_parser.c)
pub mod Sizes
pub mod Solid
use open_tube_engine_old.Base.{
  ℕ, zero, suc, ◌+◌, ◌-◌, Bool, true, false, ◌&&◌, ◌||◌, not, List, [], ◌∷◌, Option, none, some,
  ◌==◌, if◌then◌else◌,
}
use open_tube_engine_old.Http.Chars.{Bytes, is_sym, is_alnum, to_lower}

-- `IS_SPACE`, and the carriage return that the parser skips with it.
abbrev pub is_white : ℕ → Bool
is_white c = c == b' ' || c == b'\t' || c == b'\n' || c == b'\r'

unfoldable pub config_valid_symbol : ℕ → Bool
unfolding is_sym
config_valid_symbol c = is_sym c || is_white c

unfoldable pub config_valid_name_symbol : ℕ → Bool
unfolding is_alnum
config_valid_name_symbol c = is_alnum c || c == b'-' || c == b'_'

-- A pointer into the text: the bytes from there to the NUL, and the line that
-- `config_get_line_by_ptr` counts for it.
pub record Cursor : Type 0 where
  pub line : ℕ
  pub rest : Bytes

-- The line behind a byte.
abbrev pub line_after : ℕ → ℕ → ℕ
line_after l c = if c == b'\n' then suc l else l

-- What `config_jump_to_nonspace` is in: text, a comment to the end of the line, or one to `*/`.
pub data Skipping : Type 0 where
  white line_comment block_comment : Skipping

abbrev pub begins : ℕ → Bytes → Bool
begins c [] = false
begins c (d ∷ s) = d == c

-- `#`, `//` and `/*` begin comments. The search for `*/` begins at the slash, so `/*/` is a whole
-- comment.
abbrev pub opens_line : ℕ → Bytes → Bool
opens_line c s = c == b'#' || c == b'/' && begins b'/' s

unfoldable pub jump : Skipping → ℕ → Bytes → Cursor
jump mode l [] = record { line = l; rest = [] }
jump white l (c ∷ s) =
    let in_line = jump line_comment l s in
    let in_block = jump block_comment l s in
    let next = jump white (line_after l c) s in
    if opens_line c s
    then in_line
    else if c == b'/' && begins b'*' s
    then in_block
    else if is_white c
    then next
    else record { line = l; rest = c ∷ s }
jump line_comment l (c ∷ s) =
    let out = jump white (suc l) s in
    let next = jump line_comment l s in if c == b'\n' then out else next
jump block_comment l (c ∷ []) = record { line = line_after l c; rest = [] }
jump block_comment l (c ∷ d ∷ s) =
    let out = jump white l s in
    let next = jump block_comment (line_after l c) (d ∷ s) in
    if c == b'*' && d == b'/' then out else next

unfoldable pub config_jump_to_nonspace : Cursor → Cursor
unfolding jump
config_jump_to_nonspace p = jump white p.line p.rest

abbrev pub drop_semicolon : Bytes → Bytes
drop_semicolon [] = []
drop_semicolon (c ∷ s) = if c == b';' then s else c ∷ s

-- `if (* ptr == ';') ptr++;`
abbrev pub skip_semicolon : Cursor → Cursor
skip_semicolon p = record p { rest = drop_semicolon p.rest }

-- The bytes of a name, and those behind it.
unfoldable pub span_name : Bytes → Bytes × Bytes
span_name [] = ([], [])
span_name (c ∷ s) =
    let (name, rest) = span_name s in
    if config_valid_name_symbol c then (c ∷ name, rest) else ([], c ∷ s)

-- A string and the pointer behind its closing quote, or the line at the end of the file.
pub data Quoted : Type 0 where
  closed : Bytes → Cursor → Quoted
  unclosed : ℕ → Quoted

abbrev pub add_char : ℕ → Quoted → Quoted
add_char c (closed s p) = closed (c ∷ s) p
add_char c (unclosed l) = unclosed l

unfoldable pub scan_string : ℕ → Bytes → Quoted
scan_string l [] = unclosed l
scan_string l (c ∷ s) =
    let rest = scan_string (line_after l c) s in
    if c == b'"' then closed [] (record { line = l; rest = s }) else add_char c rest

-- The line of the first byte that is no text; `none` where there is none.
unfoldable pub config_quick_validate : ℕ → Bytes → Option ℕ
config_quick_validate l [] = none
config_quick_validate l (c ∷ s) =
    let rest = config_quick_validate (line_after l c) s in
    if config_valid_symbol c then rest else some l

-- `strncasecmp` with a word in lower case: the bytes behind it.
unfoldable pub after_word : Bytes → Bytes → Option Bytes
after_word [] s = some s
after_word (w ∷ ws) [] = none
after_word (w ∷ ws) (c ∷ s) = let rest = after_word ws s in if to_lower c == w then rest else none
