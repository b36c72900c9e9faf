-- ===== src/Http/Args/Cookies.antt =====
-- `http_parse_query_string` and `http_parse_cookies`. (core_http.c)
use open_tube_engine_old.Base.{
  suc, ◌+◌, ◌≡◌, refl, false, List, [], ◌∷◌, ◌++◌, Option, some, if◌then◌else◌, length,
}
use open_tube_engine_old.Http.Chars.{
  Bytes, is_alnum, is_valid_url_key_character, is_valid_url_value_character,
}
use open_tube_engine_old.Http.Headers.{Header, equal_bytes}
use open_tube_engine_old.Http.Args.{Args, http_parse__}
use open_tube_engine_old.Http.Args.Pairs.{Pair, IsPair}
use open_tube_engine_old.Http.Args.RoundTrip.{
  ArePairs, args_of, raw_total, pairs_bytes, http_parse__-pairs_bytes,
}

unfoldable pub http_parse_query_string : Bytes → Args → Option Args
http_parse_query_string query_string old = http_parse__ b'&' query_string old

abbrev pub cookie : Bytes
cookie = b'c' ∷ b'o' ∷ b'o' ∷ b'k' ∷ b'i' ∷ b'e' ∷ []

-- The first header with the key `cookie` is parsed, if there is one.
unfoldable pub http_parse_cookies : List Header → Args → Option Args
http_parse_cookies [] old = some old
http_parse_cookies (h ∷ hs) old =
    let rest = http_parse_cookies hs old in
    if equal_bytes h.key cookie then http_parse__ b';' h.value old else rest

abbrev pub HaveNoCookie : List Header → Type 0
HaveNoCookie [] = Unit {0}
HaveNoCookie (h ∷ hs) = (equal_bytes h.key cookie ≡ false) × HaveNoCookie hs

semicolon : is_valid_url_value_character b';' ≡ false
unfolding is_valid_url_value_character is_valid_url_key_character is_alnum
semicolon = refl

-- Where the first header with the key `cookie` holds keys and values with semicolons between them,
-- the keys valid and not empty and the values valid, `http_parse_cookies` reads them back in order,
-- whatever headers stand behind it.
pub http_parse_cookies-pairs_bytes :
    (hs more : List Header) (ps : List Pair) (last : Pair) (old : Args)
    → HaveNoCookie hs
    → ArePairs ps
    → IsPair last
    → http_parse_cookies
        (hs ++ record { key = cookie; value = pairs_bytes b';' ps last } ∷ more)
        old
      ≡ some (record {
        args_num = suc (length ps);
        args = args_of ps last;
        args_len = suc (length ps);
        vals_len = raw_total ps last + suc (length ps);
      })
unfolding http_parse_cookies
http_parse_cookies-pairs_bytes [] more ps last old no_cookie h k =
    http_parse__-pairs_bytes b';' semicolon ps last old h k
http_parse_cookies-pairs_bytes (x ∷ hs) more ps last old no_cookie h k =
    rw no_cookie.0 (http_parse_cookies-pairs_bytes hs more ps last old no_cookie.1 h k)
