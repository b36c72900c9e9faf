-- ===== src/Config/Cursor/Solid.antt =====
-- The scanning routines on texts that hold what they look for. (config_parser.c)
use open_tube_engine_old.Base.{
  ℕ, ◌≡◌, refl, Bool, true, false, not, ◌&&◌, [], ◌∷◌, ◌++◌, ◌==◌, arith,
}
use open_tube_engine_old.Http.Chars.{Bytes, is_alnum}
use open_tube_engine_old.Http.Headers.Scans.{All}
use open_tube_engine_old.Config.Cursor.{
  is_white, config_valid_name_symbol, jump, config_jump_to_nonspace, skip_semicolon, span_name,
  closed, scan_string,
}

-- A byte that begins neither white space nor a comment.
abbrev pub is_solid : ℕ → Bool
is_solid c = not (is_white c) && not (c == b'#') && not (c == b'/')

pub to_nonspace-solid :
    (l c : ℕ) (s : Bytes)
    → is_solid c ≡ true
    → config_jump_to_nonspace (record { line = l; rest = c ∷ s })
      ≡ record { line = l; rest = c ∷ s }
unfolding config_jump_to_nonspace jump
to_nonspace-solid l c s h =
    let hash : (c == b'#') ≡ false = ground (arith, h) in
    let slash : (c == b'/') ≡ false = ground (arith, h) in
    let space : is_white c ≡ false = ground (arith, h) in rw (hash, slash, space) refl

-- What may stand behind a setting: nothing, or a solid byte that is no semicolon.
abbrev pub IsTail : Bytes → Type 0
IsTail [] = Unit {0}
IsTail (c ∷ s) = (is_solid c && not (c == b';')) ≡ true

pub end-IsTail :
    (l : ℕ) (s : Bytes)
    → IsTail s
    → skip_semicolon (config_jump_to_nonspace (record { line = l; rest = s }))
      ≡ record { line = l; rest = s }
unfolding config_jump_to_nonspace jump
end-IsTail l [] h = refl
end-IsTail l (c ∷ s) h =
    let hash : (c == b'#') ≡ false = ground (arith, h) in
    let slash : (c == b'/') ≡ false = ground (arith, h) in
    let space : is_white c ≡ false = ground (arith, h) in
    let semicolon : (c == b';') ≡ false = ground (arith, h) in
    rw (hash, slash, space, semicolon) refl

pub span_name-append :
    (name : Bytes) (d : ℕ) (s : Bytes)
    → All config_valid_name_symbol name
    → config_valid_name_symbol d ≡ false
    → span_name (name ++ d ∷ s) ≡ (name, d ∷ s)
unfolding span_name
span_name-append [] d s h k = rw k refl
span_name-append (c ∷ name) d s h k = rw (h.0, span_name-append name d s h.1 k) refl

pub scan_string-append :
    (l : ℕ) (t s : Bytes)
    → All (λ c. not (c == b'"') && not (c == b'\n')) t
    → scan_string l (t ++ b'"' ∷ s) ≡ closed t (record { line = l; rest = s })
unfolding scan_string
scan_string-append l [] s h = refl
scan_string-append l (c ∷ t) s h =
    let quote : (c == b'"') ≡ false = ground (arith, h.0) in
    let newline : (c == b'\n') ≡ false = ground (arith, h.0) in
    rw (quote, newline, scan_string-append l t s h.1) refl

-- A symbol of a name is solid, and none of the bytes that the parser looks for before a name.
pub name_symbol-solid :
    (c : ℕ)
    → config_valid_name_symbol c ≡ true
    → ((is_solid c && not (c == b';')) ≡ true)
      × (is_solid c ≡ true)
      × ((c == b'}') ≡ false)
      × ((c == b'@') ≡ false)
unfolding config_valid_name_symbol is_alnum
name_symbol-solid c h = (ground arith, ground arith, ground arith, ground arith)
