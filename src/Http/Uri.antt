-- ===== src/Http/Uri.antt =====
-- `http_divide_uri`: the URI of a request line becomes a path, with escapes decoded and `../`
-- dropped, and a query string. (core_http.c)
pub mod Paths
use open_tube_engine_old.Base.{
  ℕ, ◌-◌, Bool, true, false, not, ◌&&◌, ◌||◌, List, [], ◌∷◌, Option, none, some, ltb, ◌==◌,
  if◌then◌else◌, length,
}
use open_tube_engine_old.Http.Chars.{Bytes, is_valid_path_character}
use open_tube_engine_old.Http.Hex.{http_hex_to_ascii}

-- The bytes written to `r->in.path.str`, and what is left of the URI where the loop stops.
pub record Divided : Type 0 where
  pub path : Bytes
  pub rest : Bytes

-- `* c = b; c++;`
abbrev pub emit : ℕ → Option Divided → Option Divided
emit b none = none
emit b (some d) = some (record d { path = b ∷ d.path })

-- A byte that begins no escape and no `../`; `next` is the loop from the byte behind it.
abbrev pub copy : ℕ → Option Divided → Option Divided
copy c next = if is_valid_path_character c then emit c next else none

-- The loop, from the byte at `i` on. The URI ends with a NUL, so what looks two bytes ahead
-- finds nothing there. `i < r->in.uri.len - 2` holds where three bytes are left.
unfoldable pub divide : Bytes → Option Divided
divide [] = some (record { path = []; rest = [] })
divide (c ∷ []) =
    if c == b'?' then some (record { path = []; rest = c ∷ [] }) else copy c (divide [])
divide (c ∷ x ∷ []) =
    let next = divide (x ∷ []) in
    if c == b'?' then some (record { path = []; rest = c ∷ x ∷ [] }) else copy c next
divide (c ∷ x ∷ y ∷ s) =
    let next = divide (x ∷ y ∷ s) in
    let skip = divide s in
    if c == b'?'
    then some (record { path = []; rest = c ∷ x ∷ y ∷ s })
    else if c == b'%'
    then (let b = http_hex_to_ascii x y in
        if not (b == b'/') && not (b == b'.') then emit b skip else skip)
    else if c == b'.' && x == b'.' && y == b'/'
    then skip
    else copy c next

-- `r->in.query_string`
abbrev pub query : Bytes → Bytes
query [] = []
query (c ∷ s) = if c == b'?' then s else []

pub record PathAndQuery : Type 0 where
  pub path : Bytes
  pub query_string : Bytes

abbrev pub finish : Option Divided → Option PathAndQuery
finish none = none
finish (some d) = some (record { path = b'/' ∷ d.path; query_string = query d.rest })

-- `none` is `return false`, which is answered by 400. The first byte of the URI is skipped.
unfoldable pub http_divide_uri : Bytes → Option PathAndQuery
unfolding divide
http_divide_uri [] = finish (some (record { path = []; rest = [] }))
http_divide_uri (slash ∷ s) = finish (divide s)

abbrev pub http_path_prealloc : ℕ
http_path_prealloc = 128

-- The size of the block that the path is written to, from the size that earlier requests left:
-- at first `http_path_prealloc`.
unfoldable pub path_capacity : ℕ → Bytes → ℕ
path_capacity before uri = if ltb http_path_prealloc (length uri) then length uri else before
