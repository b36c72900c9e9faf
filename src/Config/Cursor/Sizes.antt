-- ===== src/Config/Cursor/Sizes.antt =====
-- How much of the text the scanning routines leave. (config_parser.c)
use open_tube_engine_old.Base.{
  ℕ, suc, ◌≤◌, ◌<◌, [], ◌∷◌, Option, none, some, ◌==◌, length, arith, inl, inr, Bool-cases,
}
use open_tube_engine_old.Http.Chars.{Bytes, to_lower}
use open_tube_engine_old.Config.Cursor.{
  Cursor, Skipping, white, line_comment, block_comment, line_after, jump, config_jump_to_nonspace,
  drop_semicolon, span_name, Quoted, closed, unclosed, add_char, scan_string, after_word,
}

pub length-jump : (m : Skipping) (l : ℕ) (s : Bytes) → length (jump m l s).rest ≤ length s
unfolding jump
length-jump m l [] = omega arith
length-jump white l (c ∷ s) = ground (
  arith,
  length-jump line_comment l s,
  length-jump block_comment l s,
  length-jump white (line_after l c) s,
)
length-jump line_comment l (c ∷ s) =
    ground (arith, length-jump white (suc l) s, length-jump line_comment l s)
length-jump block_comment l (c ∷ []) = omega arith
length-jump block_comment l (c ∷ d ∷ s) =
    ground (arith, length-jump white l s, length-jump block_comment (line_after l c) (d ∷ s))

pub length-to_nonspace : (p : Cursor) → length (config_jump_to_nonspace p).rest ≤ length p.rest
unfolding config_jump_to_nonspace
length-to_nonspace p = length-jump white p.line p.rest

pub length-drop_semicolon : (s : Bytes) → length (drop_semicolon s) ≤ length s
length-drop_semicolon [] = omega arith
length-drop_semicolon (c ∷ s) = ground arith

pub length-span_name : (s : Bytes) → length (span_name s).1 ≤ length s
unfolding span_name
length-span_name [] = omega arith
length-span_name (c ∷ s) = ground (arith, length-span_name s)

-- What is left behind the closing quote is shorter.
abbrev pub Closes : ℕ → Quoted → Type 0
Closes n (closed s p) = length p.rest < n
Closes n (unclosed l) = Unit {0}

pub add_char-Closes : (c n : ℕ) (q : Quoted) → Closes n q → Closes (suc n) (add_char c q)
add_char-Closes c n (closed s p) h = omega (arith, h)
add_char-Closes c n (unclosed l) h = tt

pub scan_string-Closes : (l : ℕ) (s : Bytes) → Closes (length s) (scan_string l s)
unfolding scan_string
scan_string-Closes l [] = tt
scan_string-Closes l (c ∷ s) = elim (Bool-cases (c == b'"')) [
  | inl e ↦ rw e (omega arith)
  | inr e ↦ rw e (
      add_char-Closes c (length s) (scan_string (line_after l c) s)
        (scan_string-Closes (line_after l c) s))
]

unfoldable pub Shorter : ℕ → Option Bytes → Type 0
Shorter n none = Unit {0}
Shorter n (some s) = length s ≤ n

pub Shorter-suc : (n : ℕ) (o : Option Bytes) → Shorter n o → Shorter (suc n) o
unfolding Shorter
Shorter-suc n none h = tt
Shorter-suc n (some s) h = omega (arith, h)

pub after_word-Shorter : (w s : Bytes) → Shorter (length s) (after_word w s)
unfolding after_word Shorter
after_word-Shorter [] s = omega arith
after_word-Shorter (w ∷ ws) [] = tt
after_word-Shorter (w ∷ ws) (c ∷ s) = elim (Bool-cases (to_lower c == w)) [
  | inl e ↦ rw e (Shorter-suc (length s) (after_word ws s) (after_word-Shorter ws s))
  | inr e ↦ rw e tt
]
