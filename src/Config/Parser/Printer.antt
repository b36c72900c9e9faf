-- ===== src/Config/Parser/Printer.antt =====
-- Settings as text, and what it takes for the parser to read them back. (config_parser.c)
use open_tube_engine_old.Base.{
  ℕ, suc, ◌+◌, ◌≤◌, ◌<◌, ◌≡◌, Bool, true, false, not, ◌&&◌, ◌∷◌, ◌++◌, none, ◌==◌, length,
}
use open_tube_engine_old.Http.Chars.{Bytes, within}
use open_tube_engine_old.Http.Headers.Scans.{All}
use open_tube_engine_old.Config.Cursor.{config_valid_name_symbol}
use open_tube_engine_old.Config.Setting.{
  Setting, setting, Value, unset, string, bool, int, int64, float, group, Settings, nil, cons,
  append, setting_name, config_find_child_by_name,
}
use open_tube_engine_old.Config.Parser.{Libc, int_max, word_true, word_false}

-- `numeral n` is the text of the number `n`. Each function writes before the text `s`.
module _ (numeral : ℕ → Bytes) where
  unfoldable mutual
    pub print_setting : Setting → Bytes → Bytes
    print_setting (setting name line v) s = name ++ b':' ∷ print_value v (b';' ∷ s)

    pub print_value : Value → Bytes → Bytes
    print_value unset s = s
    print_value (string t) s = b'"' ∷ (t ++ b'"' ∷ s)
    print_value (bool true) s = word_true ++ s
    print_value (bool false) s = word_false ++ s
    print_value (int n) s = numeral n ++ s
    print_value (int64 n) s = numeral n ++ s
    print_value (float n) s = s
    print_value (group l) s = b'{' ∷ print_settings l (b'}' ∷ s)

    pub print_settings : Settings → Bytes → Bytes
    print_settings nil s = s
    print_settings (cons x l) s = print_setting x (print_settings l s)

-- A byte of a string: no quote and no newline.
abbrev pub is_string_byte : ℕ → Bool
is_string_byte c = not (c == b'"') && not (c == b'\n')

-- No name is used twice: those of `l` are not in `before`, nor in the part of `l` before them.
abbrev pub AreDistinct : Settings → Settings → Type 0
AreDistinct before nil = Unit {0}
AreDistinct before (cons x l) =
    (config_find_child_by_name before (setting_name x) ≡ none) × AreDistinct (append before x) l

-- `strtoll` reads `n` and no more from its numeral before a semicolon.
pub record IsNumeral (c : Libc) (numeral : ℕ → Bytes) (n : ℕ) : Type 0 where
  pub first : ℕ
  pub more : Bytes
  pub digits : numeral n ≡ first ∷ more
  pub is_digit : within b'0' b'9' first ≡ true
  pub reads : (s : Bytes) → c.strtoll (numeral n ++ b';' ∷ s) ≡ (n, length (numeral n))

pub record IsName (name : Bytes) : Type 0 where
  pub first : ℕ
  pub more : Bytes
  pub not_empty : name ≡ first ∷ more
  pub symbols : All config_valid_name_symbol name

-- Settings that the printer can write: on line `line`, and without floats and included files.
module _ (c : Libc) (numeral : ℕ → Bytes) (line : ℕ) where
  unfoldable mutual
    pub IsPrintable : Setting → Type 0
    IsPrintable (setting name l v) = IsName name × (l ≡ line) × IsPrintableValue v

    pub IsPrintableValue : Value → Type 0
    IsPrintableValue unset = ⊥
    IsPrintableValue (string t) = All is_string_byte t
    IsPrintableValue (bool b) = Unit {0}
    IsPrintableValue (int n) = (n ≤ int_max) × IsNumeral c numeral n
    IsPrintableValue (int64 n) = (int_max < n) × IsNumeral c numeral n
    IsPrintableValue (float n) = ⊥
    IsPrintableValue (group l) = ArePrintable l × AreDistinct nil l

    pub ArePrintable : Settings → Type 0
    ArePrintable nil = Unit {0}
    ArePrintable (cons x l) = IsPrintable x × ArePrintable l

-- The rounds of the parser's loop, and the groups, that settings take.
unfoldable mutual
  pub rounds : Settings → ℕ
  rounds nil = 0
  rounds (cons x l) = suc (rounds_of x + rounds l)

  pub rounds_of : Setting → ℕ
  rounds_of (setting name l v) = rounds_in v

  pub rounds_in : Value → ℕ
  rounds_in unset = 0
  rounds_in (string t) = 0
  rounds_in (bool b) = 0
  rounds_in (int n) = 0
  rounds_in (int64 n) = 0
  rounds_in (float n) = 0
  rounds_in (group l) = suc (rounds l)
