-- ===== src/Config/Parser/Values.antt =====
-- The parser on the text of a name and of a value. (config_parser.c)
use open_tube_engine_old.Base.{
  ℕ, ◌≡◌, refl, sym, ap, ◌∙◌, subst, true, false, [], ◌∷◌, ◌++◌, none, ◌==◌, ltb, if◌then◌else◌,
  length, drop, arith,
}
use open_tube_engine_old.Http.Chars.{Bytes, within, is_alnum, to_lower}
use open_tube_engine_old.Http.Headers.Scans.{All}
use open_tube_engine_old.Config.Cursor.{
  Cursor, config_valid_name_symbol, config_jump_to_nonspace, skip_semicolon, after_word,
}
use open_tube_engine_old.Config.Cursor.Solid.{
  is_solid, to_nonspace-solid, IsTail, span_name-append, scan_string-append, name_symbol-solid,
}
use open_tube_engine_old.Config.Setting.{
  setting, Value, string, bool, int, int64, group, Settings, nil, cons, config_find_child_by_name,
  Parse, parsed,
}
use open_tube_engine_old.Config.Parser.{
  Libc, int_max, at_rest, named, config_parse_setting_name, config_parse_string, end_of_setting,
  group_value, word_false, word_true, config_parse_int, parse_value, parse_named,
}
use open_tube_engine_old.Config.Parser.Printer.{
  print_setting, print_value, print_settings, is_string_byte, IsNumeral, IsName, IsPrintable,
  ArePrintable,
}

pub end_at_semicolon :
    (l : ℕ) (s : Bytes)
    → end_of_setting (record { line = l; rest = b';' ∷ s }) ≡ record { line = l; rest = s }
end_at_semicolon l s = ap skip_semicolon (to_nonspace-solid l b';' s refl)

pub drop-length : (xs ys : Bytes) → drop (length xs) (xs ++ ys) ≡ ys
drop-length [] ys = refl
drop-length (x ∷ xs) ys = drop-length xs ys

pub colon_lem : config_valid_name_symbol b':' ≡ false
unfolding config_valid_name_symbol is_alnum
colon_lem = refl

pub named_new :
    (file : Bytes) (siblings : Settings) (p : Cursor) (d : ℕ) (more s : Bytes)
    → config_find_child_by_name siblings (d ∷ more) ≡ none
    → named file siblings p (d ∷ more, s) ≡ parsed (d ∷ more, at_rest p s)
named_new file siblings p d more s fresh = rw (fresh, named) refl

pub setting_name-print :
    (file : Bytes) (siblings : Settings) (l : ℕ) (name s : Bytes)
    → IsName name
    → config_find_child_by_name siblings name ≡ none
    → config_parse_setting_name file siblings (record { line = l; rest = name ++ b':' ∷ s })
      ≡ parsed (name, record { line = l; rest = b':' ∷ s })
unfolding config_parse_setting_name
setting_name-print file siblings l name s v fresh =
    let fresh' : config_find_child_by_name siblings (v.first ∷ v.more) ≡ none =
      ap (config_find_child_by_name siblings) (sym v.not_empty) ∙ fresh in
    let p : Cursor = record { line = l; rest = name ++ b':' ∷ s } in
    ap (named file siblings p) (span_name-append name b':' s v.symbols colon_lem)
    ∙ ap (λ t. named file siblings p (t, b':' ∷ s)) v.not_empty
    ∙ named_new file siblings p v.first v.more (b':' ∷ s) fresh'
    ∙ ap (λ t. parsed (t, record { line = l; rest = b':' ∷ s })) (sym v.not_empty)

module _ (c : Libc) (numeral : ℕ → Bytes) (l : ℕ) where
  pub int-print :
      (n : ℕ) (s : Bytes)
      → IsNumeral c numeral n
      → config_parse_int c (record { line = l; rest = numeral n ++ b';' ∷ s })
        ≡ (if ltb int_max n then int64 n else int n, record { line = l; rest = b';' ∷ s })
  unfolding config_parse_int
  int-print n s v =
      rw (v.reads s, drop-length (numeral n) (b';' ∷ s), to_nonspace-solid l b';' s refl) refl

  pub digit_tests :
      (d : ℕ) → within b'0' b'9' d ≡ true → ((d == b'{') ≡ false) × ((d == b'"') ≡ false)
  digit_tests d h = (ground arith, ground arith)

  pub digit_value :
      (file : Bytes) (f : Cursor → Parse (Settings × Cursor)) (d : ℕ) (s : Bytes)
      → within b'0' b'9' d ≡ true
      → parse_value c file f (record { line = l; rest = d ∷ s })
        ≡ parsed (
            let (v, q) = config_parse_int c (record { line = l; rest = d ∷ s }) in
            (v, skip_semicolon q))
  unfolding parse_value
  digit_value file f d s h = rw ((digit_tests d h).0, (digit_tests d h).1, h) refl

  pub numeral-print :
      (file : Bytes) (f : Cursor → Parse (Settings × Cursor)) (n : ℕ) (s : Bytes)
      → IsNumeral c numeral n
      → parse_value c file f (record { line = l; rest = numeral n ++ b';' ∷ s })
        ≡ parsed (if ltb int_max n then int64 n else int n, record { line = l; rest = s })
  numeral-print file f n s v =
      ap (λ t. parse_value c file f (record { line = l; rest = t ++ b';' ∷ s })) v.digits
      ∙ digit_value file f v.first (v.more ++ b';' ∷ s) v.is_digit
      ∙ ap
          (λ t. parsed (
            let (v, q) = config_parse_int c (record { line = l; rest = t ++ b';' ∷ s }) in
            (v, skip_semicolon q)))
          (sym v.digits)
      ∙ ap (λ r. parsed (let (v, q) = r in (v, skip_semicolon q))) (int-print n s v)

  pub first_symbol : (name : Bytes) (v : IsName name) → config_valid_name_symbol v.first ≡ true
  first_symbol name v =
      let symbols : All config_valid_name_symbol (v.first ∷ v.more) =
        subst (All config_valid_name_symbol) v.not_empty v.symbols in
      symbols.0

  pub name-IsTail : (name s : Bytes) → IsName name → IsTail (name ++ s)
  name-IsTail name s v =
      subst (λ t. IsTail (t ++ s)) (sym v.not_empty)
        (name_symbol-solid v.first (first_symbol name v)).0

  pub print-IsTail :
      (ss : Settings) (tail : Bytes)
      → ArePrintable c numeral l ss
      → IsTail tail
      → IsTail (print_settings numeral ss tail)
  unfolding print_setting IsPrintable
  print-IsTail nil tail h t = t
  print-IsTail (cons (setting name k v) ss) tail h t = name-IsTail name _ h.0.0

  pub group_value-print :
      (ss inner : Settings) (s : Bytes)
      → ArePrintable c numeral l ss
      → group_value (print_settings numeral ss (b'}' ∷ s)) inner ≡ group inner
  unfolding print_setting IsPrintable
  group_value-print nil inner s h = refl
  group_value-print (cons (setting name k v) ss) inner s h =
      subst (λ t. group_value (t ++ print_rest) inner ≡ group inner) (sym h.0.0.not_empty) refl
    where
      print_rest : Bytes
      print_rest = b':' ∷ print_value numeral v (b';' ∷ print_settings numeral ss (b'}' ∷ s))

  pub value_at :
      (file : Bytes) (f : Cursor → Parse (Settings × Cursor)) (t s : Bytes)
      → All is_string_byte t
      → parse_value c file f (record { line = l; rest = b'"' ∷ (t ++ b'"' ∷ b';' ∷ s) })
        ≡ parsed (string t, record { line = l; rest = s })
  unfolding parse_value config_parse_string
  value_at file f t s h = rw (scan_string-append l t (b';' ∷ s) h, end_at_semicolon l s) refl

  pub true_at :
      (file : Bytes) (f : Cursor → Parse (Settings × Cursor)) (s : Bytes)
      → parse_value c file f (record { line = l; rest = word_true ++ b';' ∷ s })
        ≡ parsed (bool true, record { line = l; rest = s })
  unfolding parse_value after_word to_lower
  true_at file f s = ap (λ q. parsed (bool true, q)) (end_at_semicolon l s)

  pub false_at :
      (file : Bytes) (f : Cursor → Parse (Settings × Cursor)) (s : Bytes)
      → parse_value c file f (record { line = l; rest = word_false ++ b';' ∷ s })
        ≡ parsed (bool false, record { line = l; rest = s })
  unfolding parse_value after_word to_lower
  false_at file f s = ap (λ q. parsed (bool false, q)) (end_at_semicolon l s)

  -- One setting, where `value` reads its value.
  pub named-print :
      (file : Bytes) (f : Cursor → Parse (Settings × Cursor)) (siblings : Settings) (name : Bytes)
      (v : Value) (s : Bytes)
      → IsName name
      → config_find_child_by_name siblings name ≡ none
      → config_jump_to_nonspace (record { line = l; rest = print_value numeral v (b';' ∷ s) })
        ≡ record { line = l; rest = print_value numeral v (b';' ∷ s) }
      → parse_value c file f (record { line = l; rest = print_value numeral v (b';' ∷ s) })
        ≡ parsed (v, record { line = l; rest = s })
      → parse_named c file f siblings
          (record { line = l; rest = print_setting numeral (setting name l v) s })
        ≡ parsed (setting name l v, record { line = l; rest = s })
  unfolding parse_named print_setting
  named-print file f siblings name v s named fresh still value =
      rw
        (
          setting_name-print file siblings l name (print_value numeral v (b';' ∷ s)) named fresh,
          to_nonspace-solid l b':' (print_value numeral v (b';' ∷ s)) refl,
          still,
          value,
        )
        refl

  -- A numeral is solid.
  pub numeral-still :
      (n : ℕ) (s : Bytes)
      → IsNumeral c numeral n
      → config_jump_to_nonspace (record { line = l; rest = numeral n ++ s })
        ≡ record { line = l; rest = numeral n ++ s }
  numeral-still n s v =
      subst
        (λ t.
          config_jump_to_nonspace (record { line = l; rest = t ++ s })
          ≡ record { line = l; rest = t ++ s })
        (sym v.digits) (to_nonspace-solid l v.first (v.more ++ s) (digit-solid v.first v.is_digit))
    where
      digit-solid : (d : ℕ) → within b'0' b'9' d ≡ true → is_solid d ≡ true
      digit-solid d h = ground arith
