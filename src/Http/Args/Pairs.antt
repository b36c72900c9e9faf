-- ===== src/Http/Args/Pairs.antt =====
-- `http_parse__` on strings of keys and values. (core_http.c)
use open_tube_engine_old.Base.{
  ℕ, ◌+◌, ◌≡◌, refl, sym, ap, ◌∙◌, true, false, List, [], ◌∷◌, ◌++◌, Option, none, some, arith,
  ◌==◌, ==_iff, inl, inr, Bool-cases,
}
use open_tube_engine_old.Http.Chars.{
  Bytes, is_alnum, is_valid_url_key_character, is_valid_url_value_character,
}
use open_tube_engine_old.Http.Hex.{http_hex_to_ascii}
use open_tube_engine_old.Http.Headers.Scans.{All}
use open_tube_engine_old.Http.Args.{
  between, in_key, in_value, is_skipped, add_counts, estimate, UrlArg,
}

-- A piece of a value: a byte for itself, a plus sign, or a percent sign with two bytes.
pub data Piece : Type 0 where
  byte : ℕ → Piece
  plus : Piece
  escape : ℕ → ℕ → Piece

abbrev pub piece_bytes : Piece → Bytes → Bytes
piece_bytes (byte c) s = c ∷ s
piece_bytes plus s = b'+' ∷ s
piece_bytes (escape x y) s = b'%' ∷ x ∷ y ∷ s

-- The raw bytes of a value, before `s`.
abbrev pub value_bytes : List Piece → Bytes → Bytes
value_bytes [] s = s
value_bytes (p ∷ ps) s = piece_bytes p (value_bytes ps s)

abbrev pub piece_value : Piece → ℕ
piece_value (byte c) = c
piece_value plus = b' '
piece_value (escape x y) = http_hex_to_ascii x y

abbrev pub value_of : List Piece → Bytes
value_of [] = []
value_of (p ∷ ps) = piece_value p ∷ value_of ps

abbrev pub IsPiece : Piece → Type 0
IsPiece (byte c) = is_valid_url_key_character c ≡ true
IsPiece plus = Unit {0}
IsPiece (escape x y) =
    (is_valid_url_value_character x ≡ true) × (is_valid_url_value_character y ≡ true)

abbrev pub ArePieces : List Piece → Type 0
ArePieces [] = Unit {0}
ArePieces (p ∷ ps) = IsPiece p × ArePieces ps

-- The length of the raw bytes of a value.
abbrev pub raw_length : List Piece → ℕ
raw_length [] = 0
raw_length (plus ∷ ps) = 1 + raw_length ps
raw_length (byte c ∷ ps) = 1 + raw_length ps
raw_length (escape x y ∷ ps) = 3 + raw_length ps

-- The key has a first byte.
pub record Pair : Type 0 where
  pub first : ℕ
  pub key : Bytes
  pub pieces : List Piece

pub record IsPair (p : Pair) : Type 0 where
  pub first : is_valid_url_key_character p.first ≡ true
  pub key : All is_valid_url_key_character p.key
  pub pieces : ArePieces p.pieces

abbrev pub pair_bytes : Pair → Bytes → Bytes
pair_bytes p s = p.first ∷ p.key ++ b'=' ∷ value_bytes p.pieces s

abbrev pub arg_of : Pair → UrlArg
arg_of p = record { key = p.first ∷ p.key; value = value_of p.pieces }

pub valid_lem :
    (separator c : ℕ)
    → is_valid_url_value_character separator ≡ false
    → is_valid_url_value_character c ≡ true
    → (c == separator) ≡ false
valid_lem separator c h k = elim (Bool-cases (c == separator)) [
  | inr e ↦ e
  | inl e ↦
      (let same : c ≡ separator = (==_iff c separator).0 e in
        absurd (
          let h' : false ≡ true = sym h ∙ sym (ap is_valid_url_value_character same) ∙ k in
          ground arith))
]

pub key-value :
    (c : ℕ) → is_valid_url_key_character c ≡ true → is_valid_url_value_character c ≡ true
unfolding is_valid_url_value_character
key-value c h = rw h refl

pub key-special :
    (c : ℕ)
    → is_valid_url_key_character c ≡ true
    → ((c == b'=') ≡ false) × ((c == b' ') ≡ false) × ((c == b'+') ≡ false) × ((c == b'%') ≡ false)
unfolding is_valid_url_key_character is_alnum
key-special c h = (ground arith, ground arith, ground arith, ground arith)

pub plus_valid : is_valid_url_value_character b'+' ≡ true
unfolding is_valid_url_value_character is_valid_url_key_character is_alnum
plus_valid = refl

pub percent_valid : is_valid_url_value_character b'%' ≡ true
unfolding is_valid_url_value_character is_valid_url_key_character is_alnum
percent_valid = refl

module _ (separator : ℕ) (sep : is_valid_url_value_character separator ≡ false) where
  pub not_skipped : (c : ℕ) → is_valid_url_key_character c ≡ true → is_skipped separator c ≡ false
  not_skipped c h =
      let t = key-special c h in
      let no_sep = valid_lem separator c sep (key-value c h) in ground (arith, t, no_sep)

  estimate-key :
      (key s : Bytes)
      → All is_valid_url_key_character key
      → estimate separator in_key (key ++ b'=' ∷ s) ≡ add_counts 1 0 (estimate separator in_value s)
  unfolding estimate
  estimate-key [] s h = refl
  estimate-key (c ∷ key) s h = rw ((key-special c h.0).0, h.0, estimate) (estimate-key key s h.1)

  add_counts-add_counts :
      (a b v w : ℕ) (o : Option (ℕ × ℕ))
      → add_counts a v (add_counts b w o) ≡ add_counts (a + b) (v + w) o
  add_counts-add_counts a b v w none = refl
  add_counts-add_counts a b v w (some (n, m)) = ground arith

  add_counts_zero : (o : Option (ℕ × ℕ)) → o ≡ add_counts 0 0 o
  add_counts_zero none = refl
  add_counts_zero (some (n, m)) = ground arith

  pub estimate-byte :
      (c : ℕ) (s : Bytes)
      → is_valid_url_value_character c ≡ true
      → estimate separator in_value (c ∷ s) ≡ add_counts 0 1 (estimate separator in_value s)
  unfolding estimate
  estimate-byte c s h = rw (valid_lem separator c sep h, h, estimate) refl

  estimate-value :
      (ps : List Piece) (s : Bytes)
      → ArePieces ps
      → estimate separator in_value (value_bytes ps s)
        ≡ add_counts 0 (raw_length ps) (estimate separator in_value s)
  estimate-value [] s h = add_counts_zero (estimate separator in_value s)
  estimate-value (byte c ∷ ps) s h =
      estimate-byte c (value_bytes ps s) (key-value c h.0)
      ∙ ap (add_counts 0 1) (estimate-value ps s h.1)
      ∙ add_counts-add_counts 0 0 1 (raw_length ps) (estimate separator in_value s)
  estimate-value (plus ∷ ps) s h =
      estimate-byte b'+' (value_bytes ps s) plus_valid
      ∙ ap (add_counts 0 1) (estimate-value ps s h.1)
      ∙ add_counts-add_counts 0 0 1 (raw_length ps) (estimate separator in_value s)
  estimate-value (escape x y ∷ ps) s h =
      let o = estimate separator in_value s in
      estimate-byte b'%' (x ∷ y ∷ value_bytes ps s) percent_valid
      ∙ ap (add_counts 0 1) (
          estimate-byte x (y ∷ value_bytes ps s) h.0.0
          ∙ ap (add_counts 0 1) (
              estimate-byte y (value_bytes ps s) h.0.1
              ∙ ap (add_counts 0 1) (estimate-value ps s h.1)
              ∙ add_counts-add_counts 0 0 1 (raw_length ps) o)
          ∙ add_counts-add_counts 0 0 1 (1 + raw_length ps) o)
      ∙ add_counts-add_counts 0 0 1 (1 + (1 + raw_length ps)) o
      ∙ ap (λ n. add_counts 0 n o) (omega arith)

  pub estimate-pair :
      (p : Pair) (s : Bytes)
      → IsPair p
      → estimate separator between (pair_bytes p s)
        ≡ add_counts 1 (raw_length p.pieces) (estimate separator in_value s)
  unfolding estimate
  estimate-pair p s h =
      rw (not_skipped p.first h.first, h.first, estimate)
        (estimate-key p.key (value_bytes p.pieces s) h.key
          ∙ ap (add_counts 1 0) (estimate-value p.pieces s h.pieces)
          ∙ add_counts-add_counts 1 0 0 (raw_length p.pieces) (estimate separator in_value s)
          ∙ ap (λ n. add_counts 1 n (estimate separator in_value s)) (omega arith))
