-- ===== src/Config/Tests.antt =====
-- The configuration parser and the lookup at concrete inputs. (config_parser.c)
use Prim.Native.Char.{code}
use Prim.Native.String.{String}
use open_tube_engine_old.Base.{
  ℕ, ◌+◌, ◌-◌, ◌*◌, ◌≡◌, ◌≢◌, refl, true, [], ◌∷◌, Option, none, some, arith, if◌then◌else◌,
}
use open_tube_engine_old.Http.Chars.{Bytes, within, is_sym, is_alnum, to_lower}
use open_tube_engine_old.Config.Cursor.{
  config_valid_symbol, config_valid_name_symbol, jump, config_jump_to_nonspace, span_name,
  scan_string, config_quick_validate, after_word,
}
use open_tube_engine_old.Config.Setting.{
  Setting, setting, string, bool, int, group, Settings, nil, cons, config_find_child_by_name,
  duplicate_name, infinite_loop, parsed, fails, out_of_fuel,
}
use open_tube_engine_old.Config.Parser.{
  Libc, config_parse_setting_name, config_parse_string, config_load_file_contents, parse_value,
  parse_named, config_parse_command, parse_child, config_parse_childs, read_file, config_read,
}
use open_tube_engine_old.Config.Parser.Printer.{
  print_setting, AreDistinct, IsNumeral, IsName, IsPrintable, ArePrintable, print_settings,
}
use open_tube_engine_old.Config.Parser.Whole.{config_read-print}
use open_tube_engine_old.Config.Parser.Termination.{config_read-ne-out_of_fuel}
use open_tube_engine_old.Config.Lookup.{segments, round, config_lookup_relative, config_lookup}
use open_tube_engine_old.Config.Lookup.Dotted.{AreSegments}
use open_tube_engine_old.Config.Lookup.Descent.{HasNoInclude, Descends, config_lookup-Descends}

abbrev codes : String → Bytes
codes String.[] = []
codes (String.◌∷◌ c s) = code c ∷ codes s

-- Decimal numbers only.
abbrev read_digits : ℕ → ℕ → Bytes → ℕ × ℕ
read_digits n k [] = (n, k)
read_digits n k (c ∷ s) =
    let rest = read_digits (10 * n + (c - b'0')) (k + 1) s in
    if within b'0' b'9' c then rest else (n, k)

-- A C library with one file, `inner`, which includes itself.
abbrev open_file : Bytes → Option Bytes
open_file [] = none
open_file (c ∷ s) = some (codes "@include \"inner\"")

abbrev libc : Libc
libc = record { strtoll = read_digits 0 0; strtod = read_digits 0 0; fopen = open_file }

-- The one number below is 80.
abbrev numeral : ℕ → Bytes
numeral n = codes "80"

-- `log{file="x";};on=true` with a port.
abbrev tree : Settings
tree =
    cons
      (setting (codes "log") 1 (group (cons (setting (codes "file") 1 (string (codes "x"))) nil)))
      (cons (setting (codes "on") 1 (bool true)) (cons (setting (codes "port") 1 (int 80)) nil))

eighty-IsNumeral : IsNumeral libc numeral 80
eighty-IsNumeral = record {
  first = b'8';
  more = b'0' ∷ [];
  digits = refl;
  is_digit = refl;
  reads = λ s. refl;
}

log-IsName : IsName (codes "log")
unfolding config_valid_name_symbol is_alnum
log-IsName = record {
  first = b'l';
  more = codes "og";
  not_empty = refl;
  symbols = (refl, (refl, (refl, tt)));
}

file-IsName : IsName (codes "file")
unfolding config_valid_name_symbol is_alnum
file-IsName = record {
  first = b'f';
  more = codes "ile";
  not_empty = refl;
  symbols = (refl, (refl, (refl, (refl, tt))));
}

on-IsName : IsName (codes "on")
unfolding config_valid_name_symbol is_alnum
on-IsName = record {
  first = b'o';
  more = codes "n";
  not_empty = refl;
  symbols = (refl, (refl, tt));
}

port-IsName : IsName (codes "port")
unfolding config_valid_name_symbol is_alnum
port-IsName = record {
  first = b'p';
  more = codes "ort";
  not_empty = refl;
  symbols = (refl, (refl, (refl, (refl, tt))));
}

tree-ArePrintable : ArePrintable libc numeral 1 tree
unfolding IsPrintable config_find_child_by_name
tree-ArePrintable = (
  (log-IsName, refl, (((file-IsName, refl, (refl, tt)), tt), (refl, tt))),
  ((on-IsName, refl, tt), ((port-IsName, refl, (omega arith, eighty-IsNumeral)), tt)),
)

tree-AreDistinct : AreDistinct nil tree
unfolding config_find_child_by_name
tree-AreDistinct = (refl, (refl, (refl, tt)))

config_read-print_example :
    config_read libc 2 (codes "ot.conf") (print_settings numeral tree []) ≡ parsed tree
unfolding config_quick_validate config_valid_symbol is_sym print_setting
config_read-print_example =
    config_read-print libc numeral tree 1 (codes "ot.conf") tree-ArePrintable tree-AreDistinct refl

config_read-ne-out_of_fuel_example :
    config_read libc 3 (codes "ot.conf") (codes "a:{b:\"c\"}@include \"inner\"") ≢ out_of_fuel
config_read-ne-out_of_fuel_example =
    config_read-ne-out_of_fuel libc 3 (codes "ot.conf") (codes "a:{b:\"c\"}@include \"inner\"")

abbrev root : Setting
root = setting [] 0 (group tree)

root-HasNoInclude : HasNoInclude root
unfolding HasNoInclude
root-HasNoInclude = (refl, (refl, tt, tt), (refl, tt, (refl, tt, tt)))

path-AreSegments : AreSegments (codes "log") (codes "file" ∷ [])
path-AreSegments = (
  record { first = b'l'; more = codes "og"; not_empty = refl; no_dot = (refl, (refl, (refl, tt))) },
  record {
    first = b'f';
    more = codes "ile";
    not_empty = refl;
    no_dot = (refl, (refl, (refl, (refl, tt))));
  },
)

config_lookup-Descends_example :
    Descends root (codes "log") (codes "file" ∷ []) (config_lookup root (codes "log.file"))
config_lookup-Descends_example =
    config_lookup-Descends (codes "log") (codes "file" ∷ []) root path-AreSegments root-HasNoInclude

lookup_file :
    config_lookup root (codes "log.file") ≡ some (setting (codes "file") 1 (string (codes "x")))
unfolding config_lookup config_lookup_relative segments round config_find_child_by_name
lookup_file = refl

-- The path is found in the included file, and its last name is then looked for once more below
-- what was found.
abbrev including : Bytes → Setting
including name = setting [] 0 (
    group (
      cons
        (setting [] 0 (
          group (
            cons
              (setting (codes "a") 1 (
                group (
                  cons (setting (codes "b") 1 (group (cons (setting name 1 (bool true)) nil)))
                    nil)))
              nil)))
        nil))

lookup_too_deep :
    config_lookup (including (codes "b")) (codes "a.b") ≡ some (setting (codes "b") 1 (bool true))
unfolding config_lookup config_lookup_relative segments round config_find_child_by_name
lookup_too_deep = refl

lookup_in_include :
    config_lookup (including (codes "c")) (codes "a.b")
    ≡ some (setting (codes "b") 1 (group (cons (setting (codes "c") 1 (bool true)) nil)))
unfolding config_lookup config_lookup_relative segments round config_find_child_by_name
lookup_in_include = refl

-- A file that includes itself: the line of the error is counted beyond the text.
included_again :
    config_read libc 3 (codes "ot.conf") (codes "@include \"inner\"")
    ≡ fails (record { error_text = infinite_loop; error_file = codes "inner"; error_line = none })
unfolding config_read read_file config_load_file_contents config_quick_validate config_valid_symbol
    is_sym config_parse_childs parse_child config_parse_command config_jump_to_nonspace jump
    after_word config_parse_string scan_string to_lower
included_again = refl

duplicate_name_error :
    config_read libc 1 (codes "ot.conf") (codes "a:true\na:true")
    ≡ fails
        (record { error_text = duplicate_name; error_file = codes "ot.conf"; error_line = some 2 })
unfolding config_read read_file config_load_file_contents config_quick_validate config_valid_symbol
    is_sym config_parse_childs parse_child parse_named parse_value config_parse_setting_name
    span_name config_valid_name_symbol is_alnum config_find_child_by_name config_jump_to_nonspace
    jump after_word config_parse_string scan_string to_lower
duplicate_name_error = refl
