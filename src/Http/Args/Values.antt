-- ===== src/Http/Args/Values.antt =====
-- The values that the second pass of `http_parse__` decodes.
-- (core_http.c)
use open_tube_engine_old.Base.{
  ℕ, ◌≡◌, refl, ap, ◌∙◌, true, false, List, [], ◌∷◌, ◌++◌, Option, some, ◌==◌, ==_iff,
}
use open_tube_engine_old.Http.Chars.{
  Bytes, is_valid_url_key_character, is_valid_url_value_character,
}
use open_tube_engine_old.Http.Hex.{http_hex_to_ascii}
use open_tube_engine_old.Http.Args.{emit_value, decode_value}
use open_tube_engine_old.Http.Args.Pairs.{
  Piece, byte, plus, escape, value_bytes, value_of, ArePieces, valid_lem, key-value, key-special,
  plus_valid, percent_valid,
}

module _ (separator : ℕ) (sep : is_valid_url_value_character separator ≡ false) where
  pub decode_value-plain :
      (c : ℕ) (s : Bytes)
      → (c == separator) ≡ false
      → (c == b'+') ≡ false
      → (c == b'%') ≡ false
      → decode_value separator (c ∷ s) ≡ emit_value c (decode_value separator s)
  unfolding decode_value
  decode_value-plain c [] h k l = rw (h, k) refl
  decode_value-plain c (x ∷ []) h k l = rw (h, k) refl
  decode_value-plain c (x ∷ y ∷ s) h k l = rw (h, k, l) refl

  pub decode_value-byte :
      (c : ℕ) (s : Bytes)
      → is_valid_url_key_character c ≡ true
      → decode_value separator (c ∷ s) ≡ emit_value c (decode_value separator s)
  decode_value-byte c s h =
      decode_value-plain c s (valid_lem separator c sep (key-value c h)) (key-special c h).2
        (key-special c h).3

  pub decode_value-plus :
      (s : Bytes) → decode_value separator (b'+' ∷ s) ≡ emit_value b' ' (decode_value separator s)
  unfolding decode_value
  decode_value-plus [] = rw (valid_lem separator b'+' sep plus_valid) refl
  decode_value-plus (x ∷ []) = rw (valid_lem separator b'+' sep plus_valid) refl
  decode_value-plus (x ∷ y ∷ s) = rw (valid_lem separator b'+' sep plus_valid) refl

  pub decode_value-escape :
      (x y : ℕ) (s : Bytes)
      → decode_value separator (b'%' ∷ x ∷ y ∷ s)
        ≡ emit_value (http_hex_to_ascii x y) (decode_value separator s)
  unfolding decode_value
  decode_value-escape x y s = rw (valid_lem separator b'%' sep percent_valid) refl

  abbrev pub emit_all : Bytes → Bytes × Option Bytes → Bytes × Option Bytes
  emit_all v (w, rest) = (v ++ w, rest)

  pub decode_value-value_bytes :
      (ps : List Piece) (s : Bytes)
      → ArePieces ps
      → decode_value separator (value_bytes ps s)
        ≡ emit_all (value_of ps) (decode_value separator s)
  decode_value-value_bytes [] s h = refl
  decode_value-value_bytes (byte c ∷ ps) s h =
      decode_value-byte c (value_bytes ps s) h.0
      ∙ ap (emit_value c) (decode_value-value_bytes ps s h.1)
  decode_value-value_bytes (plus ∷ ps) s h =
      decode_value-plus (value_bytes ps s)
      ∙ ap (emit_value b' ') (decode_value-value_bytes ps s h.1)
  decode_value-value_bytes (escape x y ∷ ps) s h =
      decode_value-escape x y (value_bytes ps s)
      ∙ ap (emit_value (http_hex_to_ascii x y)) (decode_value-value_bytes ps s h.1)

  pub decode_value-separator : (s : Bytes) → decode_value separator (separator ∷ s) ≡ ([], some s)
  unfolding decode_value
  decode_value-separator [] = rw ((==_iff separator separator).1 refl) refl
  decode_value-separator (x ∷ []) = rw ((==_iff separator separator).1 refl) refl
  decode_value-separator (x ∷ y ∷ s) = rw ((==_iff separator separator).1 refl) refl
