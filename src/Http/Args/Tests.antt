-- ===== src/Http/Args/Tests.antt =====
-- `http_parse__` at concrete inputs. (core_http.c)
use open_tube_engine_old.Base.{◌≡◌, refl, false, [], ◌∷◌, none, some}
use open_tube_engine_old.Http.Chars.{
  is_alnum, is_valid_url_key_character, is_valid_url_value_character,
}
use open_tube_engine_old.Http.Args.{Args, http_parse__}
use open_tube_engine_old.Http.Args.Pairs.{byte, plus, escape, Pair, IsPair, pair_bytes}
use open_tube_engine_old.Http.Args.Cookies.{
  cookie, http_parse_cookies, http_parse_cookies-pairs_bytes,
}
use open_tube_engine_old.Http.Args.RoundTrip.{
  pairs_bytes, args_of, http_parse__-pairs_bytes, http_parse__-percent,
}

abbrev no_args : Args
no_args = record { args_num = 0; args = []; args_len = 0; vals_len = 0 }

-- `id=4+%41`
abbrev id_pair : Pair
id_pair = record {
  first = b'i';
  key = b'd' ∷ [];
  pieces = byte b'4' ∷ plus ∷ escape b'4' b'1' ∷ [];
}

-- `b=c`
abbrev b_pair : Pair
b_pair = record { first = b'b'; key = []; pieces = byte b'c' ∷ [] }

ampersand : is_valid_url_value_character b'&' ≡ false
unfolding is_valid_url_value_character is_valid_url_key_character is_alnum
ampersand = refl

id_pair-IsPair : IsPair id_pair
unfolding is_valid_url_value_character is_valid_url_key_character is_alnum
id_pair-IsPair = record {
  first = refl;
  key = (refl, tt);
  pieces = (refl, (tt, ((refl, refl), tt)));
}

b_pair-IsPair : IsPair b_pair
unfolding is_valid_url_key_character is_alnum
b_pair-IsPair = record { first = refl; key = tt; pieces = (refl, tt) }

-- `id=4+%41&b=c`
http_parse__-pairs_bytes_example :
    http_parse__ b'&' (pairs_bytes b'&' (id_pair ∷ []) b_pair) no_args
    ≡ some
        (record { args_num = 2; args = args_of (id_pair ∷ []) b_pair; args_len = 2; vals_len = 8 })
http_parse__-pairs_bytes_example =
    http_parse__-pairs_bytes b'&' ampersand (id_pair ∷ []) b_pair no_args (id_pair-IsPair, tt)
      b_pair-IsPair

-- `id=4+%41%&b=c`
http_parse__-percent_example :
    http_parse__ b'&' (pair_bytes id_pair (b'%' ∷ b'&' ∷ pair_bytes b_pair [])) no_args ≡ none
http_parse__-percent_example =
    http_parse__-percent b'&' ampersand id_pair b_pair no_args refl id_pair-IsPair b_pair-IsPair

-- `Host: a`, then `Cookie: id=4+%41;b=c`
http_parse_cookies-pairs_bytes_example :
    http_parse_cookies
      (record { key = b'h' ∷ b'o' ∷ b's' ∷ b't' ∷ []; value = b'a' ∷ [] }
        ∷ record { key = cookie; value = pairs_bytes b';' (id_pair ∷ []) b_pair }
        ∷ [])
      no_args
    ≡ some
        (record { args_num = 2; args = args_of (id_pair ∷ []) b_pair; args_len = 2; vals_len = 8 })
http_parse_cookies-pairs_bytes_example =
    http_parse_cookies-pairs_bytes
      (record { key = b'h' ∷ b'o' ∷ b's' ∷ b't' ∷ []; value = b'a' ∷ [] } ∷ []) [] (id_pair ∷ [])
      b_pair no_args (refl, tt) (id_pair-IsPair, tt) b_pair-IsPair
