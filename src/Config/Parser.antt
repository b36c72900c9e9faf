-- ===== src/Config/Parser.antt =====
-- The recursive descent over the text of a configuration file. (config_parser.c)
pub mod Parts
pub mod Termination
pub mod Printer
pub mod Values
pub mod RoundTrip
pub mod Whole
use open_tube_engine_old.Base.{
  ℕ, zero, suc, ◌+◌, ◌-◌, Bool, true, false, ◌&&◌, ◌||◌, not, List, [], ◌∷◌, Option, none, some,
  ◌==◌, ltb, if◌then◌else◌, length, drop,
}
use open_tube_engine_old.Http.Chars.{Bytes, within}
use open_tube_engine_old.Http.Headers.{equal_bytes}
use open_tube_engine_old.Config.Cursor.{
  Cursor, begins, Quoted, closed, unclosed, config_jump_to_nonspace, skip_semicolon, span_name,
  scan_string, config_quick_validate, after_word,
}
use open_tube_engine_old.Config.Setting.{
  Setting, setting, Value, unset, string, bool, int, int64, float, group, Settings, nil, cons,
  append, config_find_child_by_name, ErrorText, not_a_text_file, name_not_found, duplicate_name,
  unexpected_end, unknown_command, expected_quote, infinite_loop, cannot_open, invalid_character,
  unrecognized_value, Failure, Parse, parsed, fails, out_of_fuel, too_deep, ◌>>=◌,
}

-- What the parser asks of the C library. `strtoll` and `strtod` give the number (for `strtod` its
-- bits) and the count of bytes that they read; `fopen` gives the contents of a file that can be
-- opened and read.
pub record Libc : Type 0 where
  pub strtoll : Bytes → ℕ × ℕ
  pub strtod : Bytes → ℕ × ℕ
  pub fopen : Bytes → Option Bytes

abbrev pub int_max : ℕ
int_max = 2147483647

abbrev pub fail_at {ℓ} : {A : Type ℓ} → Bytes → Cursor → ErrorText → Parse A
fail_at file p text =
    fails (record { error_text = text; error_file = file; error_line = some p.line })

abbrev pub advance_to : Cursor → ℕ → Cursor
advance_to p k = record p { rest = drop k p.rest }

abbrev pub at_rest : Cursor → Bytes → Cursor
at_rest p s = record p { rest = s }

abbrev pub named : Bytes → Settings → Cursor → Bytes × Bytes → Parse (Bytes × Cursor)
named file siblings p ([], s) = fail_at file p name_not_found
named file siblings p (c ∷ name, s) = elim (config_find_child_by_name siblings (c ∷ name)) [
  | none ↦ parsed (c ∷ name, at_rest p s)
  | some x ↦ fail_at file (at_rest p s) duplicate_name
]

-- The name of a new child, and the pointer behind it.
unfoldable pub config_parse_setting_name : Bytes → Settings → Cursor → Parse (Bytes × Cursor)
config_parse_setting_name file siblings p = named file siblings p (span_name p.rest)

abbrev pub quoted : Bytes → Quoted → Parse (Bytes × Cursor)
quoted file (closed s p) = parsed (s, p)
quoted file (unclosed l) = fail_at file (record { line = l; rest = [] }) unexpected_end

-- From behind the opening quote.
unfoldable pub config_parse_string : Bytes → Cursor → Parse (Bytes × Cursor)
config_parse_string file p = quoted file (scan_string p.line p.rest)

-- White space, then a semicolon where there is one.
abbrev pub end_of_setting : Cursor → Cursor
end_of_setting p = skip_semicolon (config_jump_to_nonspace p)

-- The pointer behind the name and what `p` has skipped, once the NUL behind the name is written:
-- where a newline stood there, it is counted no more.
abbrev pub name_closed : Bytes → Cursor → Cursor
name_closed behind p = if begins b'\n' behind then record p { line = p.line - 1 } else p

abbrev pub any_equal : Bytes → List Bytes → Bool
any_equal file [] = false
any_equal file (f ∷ fs) = equal_bytes file f || any_equal file fs

abbrev pub no_line : Bytes → ErrorText → Failure
no_line file text = record { error_text = text; error_file = file; error_line = none }

unfoldable pub config_load_file_contents : Bytes → Bytes → Parse Bytes
config_load_file_contents file content = elim (config_quick_validate 1 content) [
  | none ↦ parsed content
  | some l ↦ fails (record { error_text = not_a_text_file; error_file = file; error_line = some l })
]

-- A group whose text is empty keeps the type that `memset` gave it.
abbrev pub group_value : Bytes → Settings → Value
group_value [] l = unset
group_value (c ∷ s) l = group l

abbrev pub word_false : Bytes
word_false = b'f' ∷ b'a' ∷ b'l' ∷ b's' ∷ b'e' ∷ []

abbrev pub word_true : Bytes
word_true = b't' ∷ b'r' ∷ b'u' ∷ b'e' ∷ []

abbrev pub word_include : Bytes
word_include = b'i' ∷ b'n' ∷ b'c' ∷ b'l' ∷ b'u' ∷ b'd' ∷ b'e' ∷ []

module _ (c : Libc) where
  abbrev integer : ℕ → Value
  integer n = if ltb int_max n then int64 n else int n

  unfoldable pub config_parse_int : Cursor → Value × Cursor
  config_parse_int p =
      let (n, k) = c.strtoll p.rest in
      let (bits, m) = c.strtod p.rest in
      if begins b'.' (drop k p.rest)
      then (float bits, config_jump_to_nonspace (advance_to p m))
      else (integer n, config_jump_to_nonspace (advance_to p k))

  -- The value that `p` points to. `childs_at` parses the children of a group.
  unfoldable pub parse_value :
      Bytes → (Cursor → Parse (Settings × Cursor)) → Cursor → Parse (Value × Cursor)
  parse_value file childs_at p = elim p.rest [
    | [] ↦ fail_at file p unrecognized_value
    | d ∷ s ↦
        if d == b'{'
        then (do (l, q) ← childs_at (at_rest p s); parsed (group_value s l, end_of_setting q))
        else if d == b'"'
        then (do
          (str, q) ← config_parse_string file (at_rest p s)
          parsed (string str, end_of_setting q))
        else if within b'0' b'9' d
        then (let (v, q) = config_parse_int p in parsed (v, skip_semicolon q))
        else elim (after_word word_false (d ∷ s)) [
          | some t ↦ parsed (bool false, end_of_setting (at_rest p t))
          | none ↦ elim (after_word word_true (d ∷ s)) [
            | some t ↦ parsed (bool true, end_of_setting (at_rest p t))
            | none ↦ fail_at file p unrecognized_value
          ]
        ]
  ]

  -- A child with a name, from its first byte on.
  unfoldable pub parse_named :
      Bytes → (Cursor → Parse (Settings × Cursor)) → Settings → Cursor → Parse (Setting × Cursor)
  parse_named file childs_at siblings p = do
    (name, q) ← config_parse_setting_name file siblings p
    let r = config_jump_to_nonspace q
    if begins b':' r.rest || begins b'=' r.rest
        then (do
          (v, t) ←
              parse_value file childs_at
                (config_jump_to_nonspace (at_rest (name_closed q.rest r) (drop 1 r.rest)))
          parsed (setting name p.line v, t))
        else fail_at file r invalid_character

  -- `@include`: `read` loads the file, with the files that include it, and parses it.
  unfoldable pub config_parse_command :
      (Bytes → List Bytes → Bytes → Parse Settings)
      → Bytes
      → List Bytes
      → Cursor
      → Parse (Setting × Cursor)
  config_parse_command read file files p = elim (after_word word_include p.rest) [
    | none ↦ fail_at file p unknown_command
    | some s ↦
        let q = config_jump_to_nonspace (at_rest p s) in
        if begins b'"' q.rest
        then (do
          (name, t) ← config_parse_string file (at_rest q (drop 1 q.rest))
          if any_equal name files then fails (no_line name infinite_loop) else elim (c.fopen name) [
            | none ↦ fails (no_line name cannot_open)
            | some content ↦
                read name files content >>= λ l. parsed (setting [] 0 (group l), end_of_setting t)
          ])
        else fail_at file q expected_quote
  ]

  -- One child: an included file or a named setting.
  unfoldable pub parse_child :
      (Bytes → List Bytes → Bytes → Parse Settings)
      → Bytes
      → List Bytes
      → (Cursor → Parse (Settings × Cursor))
      → Settings
      → Cursor
      → Parse (Setting × Cursor)
  parse_child read file files childs_at siblings p =
      if begins b'@' p.rest
      then config_parse_command read file files (at_rest p (drop 1 p.rest))
      else parse_named file childs_at siblings p

  -- `siblings` are the children so far, `files` the file and those that include it. Each round of
  -- the loop and each group takes one from the fuel.
  unfoldable pub config_parse_childs :
      (Bytes → List Bytes → Bytes → Parse Settings)
      → ℕ
      → Bool
      → Bytes
      → List Bytes
      → Settings
      → Cursor
      → Parse (Settings × Cursor)
  config_parse_childs read zero is_root file files siblings p = out_of_fuel
  config_parse_childs read (suc n) is_root file files siblings p = elim p.rest [
    | [] ↦ parsed (siblings, p)
    | d ∷ s ↦
        (let q = config_jump_to_nonspace p in
          elim q.rest [
            | [] ↦ parsed (siblings, q)
            | e ∷ t ↦
                if e == b'}' && not is_root
                then parsed (siblings, skip_semicolon (at_rest q t))
                else (parse_child read file files (config_parse_childs read n false file files nil)
                      siblings q
                    >>= λ r.
                        config_parse_childs read n is_root file files (append siblings r.0) r.1)
          ])
  ]

  -- The file `file`, which the files `outer` include, with `depth` levels of inclusion at most below
  -- it.
  unfoldable pub read_file : ℕ → Bool → Bytes → List Bytes → Bytes → Parse Settings
  read_file zero is_root file outer content = too_deep
  read_file (suc depth) is_root file outer content = do
    text ← config_load_file_contents file content
    (l, p) ←
        config_parse_childs (read_file depth false) (suc (length text)) is_root file (file ∷ outer)
          nil (record { line = 1; rest = text })
    parsed l

  unfoldable pub config_read : ℕ → Bytes → Bytes → Parse Settings
  config_read depth filename content = read_file depth true filename [] content
