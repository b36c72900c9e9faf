-- ===== src/Config/Setting.antt =====
-- `config_setting_t`: the tree of settings. (config_parser.h, config_parser.c)
use open_tube_engine_old.Base.{ℕ, Bool, Option, none, some, if◌then◌else◌}
use open_tube_engine_old.Http.Chars.{Bytes}
use open_tube_engine_old.Http.Headers.{equal_bytes}

-- The type of a setting with its value. `unset` is the type that `memset` leaves, with no value.
-- A float is the bits of the number that `strtod` returns. The children of a setting are those of
-- its group; an included file is a child with an empty name.
mutual
  pub data Setting : Type 0 where
    setting : Bytes → ℕ → Value → Setting

  pub data Value : Type 0 where
    unset : Value
    string : Bytes → Value
    bool : Bool → Value
    int : ℕ → Value
    int64 : ℕ → Value
    float : ℕ → Value
    group : Settings → Value

  pub data Settings : Type 0 where
    nil : Settings
    cons : Setting → Settings → Settings

abbrev pub setting_name : Setting → Bytes
setting_name (setting name line v) = name

abbrev pub setting_value : Setting → Value
setting_value (setting name line v) = v

abbrev pub childs : Value → Settings
childs (group l) = l
childs unset = nil
childs (string s) = nil
childs (bool b) = nil
childs (int n) = nil
childs (int64 n) = nil
childs (float n) = nil

abbrev pub append : Settings → Setting → Settings
append nil x = cons x nil
append (cons y l) x = cons y (append l x)

unfoldable pub config_find_child_by_name : Settings → Bytes → Option Setting
config_find_child_by_name nil name = none
config_find_child_by_name (cons x l) name =
    let rest = config_find_child_by_name l name in
    if equal_bytes name (setting_name x) then some x else rest

-- The texts that `config_set_error_text` is called with.
pub data ErrorText : Type 0 where
  not_a_text_file name_not_found duplicate_name unexpected_end : ErrorText
  unknown_command expected_quote infinite_loop cannot_open : ErrorText
  invalid_character unrecognized_value : ErrorText

-- `error_file`, `error_line` and `error_text`. The line is `none` where the count of lines reads
-- beyond the text: `file_content` is then the empty string of an `@include`.
pub record Failure : Type 0 where
  pub error_text : ErrorText
  pub error_file : Bytes
  pub error_line : Option ℕ

-- What a part of the parser returns. The last two are for the model only.
pub data Parse {ℓ} (A : Type ℓ) : Type ℓ where
  parsed : A → Parse A
  fails : Failure → Parse A
  out_of_fuel : Parse A
  too_deep : Parse A

infixl 5 ◌>>=◌
abbrev pub ◌>>=◌ {ℓ κ} : {A : Type ℓ} {B : Type κ} → Parse A → (A → Parse B) → Parse B
parsed a >>= f = f a
fails e >>= f = fails e
out_of_fuel >>= f = out_of_fuel
too_deep >>= f = too_deep
