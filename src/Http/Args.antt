-- ===== src/Http/Args.antt =====
-- `http_parse__`: the arguments of a query string, and cookies, in two passes. The first checks and
-- counts them, the second fills the buffers. (core_http.c)
pub mod Pairs
pub mod Values
pub mod RoundTrip
pub mod Cookies
mod Tests
use open_tube_engine_old.Base.{
  ℕ, zero, suc, ◌+◌, Bool, true, false, ◌||◌, List, [], ◌∷◌, Option, none, some, ◌==◌,
  if◌then◌else◌,
}
use open_tube_engine_old.Http.Chars.{
  Bytes, is_valid_url_key_character, is_valid_url_value_character,
}
use open_tube_engine_old.Http.Hex.{http_hex_to_ascii}
use open_tube_engine_old.Http.Headers.{got, differs, beyond, scan_to}

-- Where in the first pass `c` stands: before a key, in a key, or in a value.
pub data Place : Type 0 where
  between in_key in_value : Place

-- The byte is skipped before a key.
abbrev pub is_skipped : ℕ → ℕ → Bool
is_skipped separator c = c == separator || c == b'=' || c == b' '

abbrev pub add_counts : ℕ → ℕ → Option (ℕ × ℕ) → Option (ℕ × ℕ)
add_counts a v none = none
add_counts a v (some (n, m)) = some (a + n, v + m)

-- The estimated numbers of arguments and of bytes in values; `none` where a byte is not valid. The
-- string ends with a NUL.
unfoldable pub estimate : ℕ → Place → Bytes → Option (ℕ × ℕ)
estimate separator place [] = some (0, 0)
estimate separator between (c ∷ s) =
    let skip = estimate separator between s in
    let key = estimate separator in_key s in
    if is_skipped separator c then skip else if is_valid_url_key_character c then key else none
estimate separator in_key (c ∷ s) =
    let key = estimate separator in_key s in
    let value = estimate separator in_value s in
    if c == b'=' then add_counts 1 0 value else if is_valid_url_key_character c then key else none
estimate separator in_value (c ∷ s) =
    let next = estimate separator between s in
    let value = estimate separator in_value s in
    if c == separator
    then next
    else if is_valid_url_value_character c
    then add_counts 0 1 value
    else none

abbrev pub skip_separators : ℕ → Bytes → Bytes
skip_separators separator [] = []
skip_separators separator (c ∷ s) =
    let rest = skip_separators separator s in if is_skipped separator c then rest else c ∷ s

abbrev pub emit_value : ℕ → Bytes × Option Bytes → Bytes × Option Bytes
emit_value c (v, rest) = (c ∷ v, rest)

-- A value, and what stands behind its separator; `none` where the NUL ends it.
unfoldable pub decode_value : ℕ → Bytes → Bytes × Option Bytes
decode_value separator [] = ([], none)
decode_value separator (c ∷ []) =
    if c == separator then ([], some []) else ((if c == b'+' then b' ' else c) ∷ [], none)
decode_value separator (c ∷ x ∷ []) =
    let next = decode_value separator (x ∷ []) in
    if c == separator then ([], some (x ∷ [])) else emit_value (if c == b'+' then b' ' else c) next
decode_value separator (c ∷ x ∷ y ∷ s) =
    let next = decode_value separator (x ∷ y ∷ s) in
    let skip = decode_value separator s in
    if c == separator
    then ([], some (x ∷ y ∷ s))
    else if c == b'+'
    then emit_value b' ' next
    else if c == b'%'
    then emit_value (http_hex_to_ascii x y) skip
    else emit_value c next

-- `url_arg_t`
pub record UrlArg : Type 0 where
  pub key : Bytes
  pub value : Bytes

abbrev pub push_arg : UrlArg → Option (List UrlArg) → Option (List UrlArg)
push_arg a none = none
push_arg a (some l) = some (a ∷ l)

-- The second pass, with `n` arguments to go. A text of `none` lies behind the NUL; the result is
-- `none` where the pass reads there.
unfoldable pub fill : ℕ → ℕ → Option Bytes → Option (List UrlArg)
fill separator zero text = some []
fill separator (suc n) none = none
fill separator (suc n) (some s) = elim (scan_to b'=' (skip_separators separator s)) [
  | got (key, s1) ↦
      let (value, text) = decode_value separator s1 in
      push_arg (record { key = key; value = value }) (fill separator n text)
  | differs ↦ none
  | beyond ↦ none
]

-- What `http_parse__` leaves: `args_num`, the entries that were filled, and the lengths of both
-- buffers.
pub record Args : Type 0 where
  pub args_num : ℕ
  pub args : List UrlArg
  pub args_len : ℕ
  pub vals_len : ℕ

abbrev pub filled : ℕ → ℕ → Option (List UrlArg) → Option Args
filled n m none = none
filled n m (some l) = some (record { args_num = n; args = l; args_len = n; vals_len = m + n })

-- From the estimate on.
abbrev pub parse_counted : ℕ → Bytes → Args → ℕ → ℕ → Option Args
parse_counted separator s old zero m = some (record old { args_num = 0; args = []; args_len = 0 })
parse_counted separator s old (suc n) m = filled (suc n) m (fill separator (suc n) (some s))

-- `old` holds the lengths from before. `none` is a read behind the NUL of the string.
unfoldable pub http_parse__ : ℕ → Bytes → Args → Option Args
http_parse__ separator s old = elim (estimate separator between s) [
  | none ↦ some (record old { args_num = 0; args = [] })
  | some counts ↦ parse_counted separator s old counts.0 counts.1
]
