-- ===== src/Config/Parser/Whole.antt =====
-- A whole file, printed and read back. (config_parser.c)
use open_tube_engine_old.Base.{
  ℕ, suc, ◌+◌, ◌-◌, ◌≤◌, ◌≡◌, ap, true, false, [], ◌∷◌, none, length, length-append, arith,
}
use open_tube_engine_old.Http.Chars.{Bytes}
use open_tube_engine_old.Config.Cursor.{config_quick_validate}
use open_tube_engine_old.Config.Setting.{
  setting, Value, unset, string, bool, int, int64, float, group, Settings, nil, cons, parsed, ◌>>=◌,
}
use open_tube_engine_old.Config.Parser.{
  Libc, config_load_file_contents, config_parse_childs, read_file, config_read,
}
use open_tube_engine_old.Config.Parser.Printer.{
  print_setting, print_value, print_settings, AreDistinct, ArePrintable, rounds, rounds_in,
}
use open_tube_engine_old.Config.Parser.RoundTrip.{join-concat, settings-print}

mutual
  unfolding print_setting rounds

  rounds_in-le :
      (numeral : ℕ → Bytes) (v : Value) (s : Bytes)
      → rounds_in v + length s ≤ length (print_value numeral v s)
  rounds_in-le numeral unset s = omega arith
  rounds_in-le numeral (string t) s = omega (arith, length-append t (b'"' ∷ s))
  rounds_in-le numeral (bool true) s = omega arith
  rounds_in-le numeral (bool false) s = omega arith
  rounds_in-le numeral (int n) s = omega (arith, length-append (numeral n) s)
  rounds_in-le numeral (int64 n) s = omega (arith, length-append (numeral n) s)
  rounds_in-le numeral (float n) s = omega arith
  rounds_in-le numeral (group m) s = omega (arith, rounds-le numeral m (b'}' ∷ s))

  rounds-le :
      (numeral : ℕ → Bytes) (ss : Settings) (s : Bytes)
      → rounds ss + length s ≤ length (print_settings numeral ss s)
  rounds-le numeral nil s = omega arith
  rounds-le numeral (cons (setting name line v) ss) s =
      let rest = print_settings numeral ss s in
      omega (
        arith,
        length-append name (b':' ∷ print_value numeral v (b';' ∷ rest)),
        rounds_in-le numeral v (b';' ∷ rest),
        rounds-le numeral ss s,
      )

-- Settings without floats and included files, all on line 1, with names that are not empty and used
-- once in each group, strings without quotes and newlines, and numbers that the C library reads
-- back from their numerals, are printed to a text that `config_read` parses to the same settings,
-- whatever the file is called, where the text has valid symbols only.
pub config_read-print :
    (c : Libc) (numeral : ℕ → Bytes) (ss : Settings) (depth : ℕ) (filename : Bytes)
    → ArePrintable c numeral 1 ss
    → AreDistinct nil ss
    → config_quick_validate 1 (print_settings numeral ss []) ≡ none
    → config_read c (suc depth) filename (print_settings numeral ss []) ≡ parsed ss
unfolding config_read read_file config_load_file_contents config_parse_childs
config_read-print c numeral ss depth filename h d text =
    let s = print_settings numeral ss [] in
    let k = length s - rounds ss in
    let fuel : length s ≡ rounds ss + k = omega (arith, rounds-le numeral ss []) in
    let run : config_parse_childs c (read_file c depth false) (suc (length s)) true filename
          (filename ∷ []) nil (record { line = 1; rest = s })
        ≡ parsed (ss, record { line = 1; rest = [] }) =
      settings-print c numeral 1 (read_file c depth false) filename (filename ∷ []) ss nil true
        (length s) k [] (parsed (ss, record { line = 1; rest = [] })) fuel h d tt
        (λ j. ap (λ u. parsed (u, record { line = 1; rest = [] })) (join-concat nil ss)) in
    rw (text, config_read, read_file, config_load_file_contents)
      (ap (λ r. r >>= λ x. parsed x.0) run)
