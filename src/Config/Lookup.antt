-- ===== src/Config/Lookup.antt =====
-- `config_lookup`: a setting by its path, names with dots between them. (config_parser.c)
pub mod Dotted
pub mod Descent
use open_tube_engine_old.Base.{
  ℕ, Bool, true, false, List, [], ◌∷◌, Option, none, some, ◌==◌, if◌then◌else◌,
}
use open_tube_engine_old.Http.Chars.{Bytes}
use open_tube_engine_old.Config.Setting.{
  Setting, setting, Value, unset, string, bool, int, int64, float, group, Settings, nil, cons,
  childs, config_find_child_by_name,
}

abbrev pub push_char : ℕ → List Bytes → List Bytes
push_char c [] = (c ∷ []) ∷ []
push_char c (name ∷ names) = (c ∷ name) ∷ names

-- The names between the dots, as `strchr` finds them.
unfoldable pub segments : Bytes → List Bytes
segments [] = [] ∷ []
segments (c ∷ s) = let rest = segments s in if c == b'.' then [] ∷ rest else push_char c rest

abbrev pub is_include : Setting → Bool
is_include (setting [] l v) = true
is_include (setting (c ∷ name) l v) = false

-- The loop from the next name on, with `include` and `locals`; `none` where the path ends.
abbrev pub Next : Type 0
Next = Option (Option Setting → Setting → Option Setting)

-- The end of a round.
abbrev pub go_on : Next → Option Setting → Option Setting → Option Setting
go_on next include none = none
go_on none include (some x) = some x
go_on (some f) include (some x) = f include x

-- The child with the name, or where there is none what the search of the included files left.
abbrev pub choose : Next → Option Setting → Option Setting → Option Setting → Option Setting
choose next include (some x) found = go_on next include (some x)
choose next include none found = go_on next found found

-- One round for `name`, on `locals` and `include`. Where no child has the name, the included files
-- among the children are searched for the path from this name on; `include` is left as it was
-- where there is none.
unfoldable mutual
  pub round : Bytes → Next → Option Setting → Setting → Option Setting
  round name next include (setting n l v) =
      choose next include (config_find_child_by_name (childs v) name)
        (search_value name next include v)

  pub search_value : Bytes → Next → Option Setting → Value → Option Setting
  search_value name next include unset = include
  search_value name next include (string s) = include
  search_value name next include (bool b) = include
  search_value name next include (int n) = include
  search_value name next include (int64 n) = include
  search_value name next include (float n) = include
  search_value name next include (group l) = search_included name next include l

  pub search_included : Bytes → Next → Option Setting → Settings → Option Setting
  search_included name next include nil = include
  search_included name next include (cons x l) = elim (is_include x) [
    | false ↦ search_included name next include l
    | true ↦ elim (round name next none x) [
      | some y ↦ some y
      | none ↦ search_included name next none l
    ]
  ]

abbrev pub unless_empty : Bytes → Option Setting → Option Setting
unless_empty [] r = none
unless_empty (c ∷ name) r = r

unfoldable pub config_lookup_relative : List Bytes → Option Setting → Setting → Option Setting
config_lookup_relative [] include s = none
config_lookup_relative (name ∷ []) include s = unless_empty name (round name none include s)
config_lookup_relative (name ∷ m ∷ more) include s =
    let f = config_lookup_relative (m ∷ more) in unless_empty name (round name (some f) include s)

unfoldable pub config_lookup : Setting → Bytes → Option Setting
config_lookup root path = config_lookup_relative (segments path) none root
