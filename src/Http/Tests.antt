-- ===== src/Http/Tests.antt =====
-- Runs of core_http.c's routines, and their theorems at concrete inputs.
use Prim.Native.Char.{code}
use Prim.Native.String.{String}
use open_tube_engine_old.Base.{
  ltb, ℕ, ◌+◌, ◌≤◌, ◌≡◌, refl, true, false, [], ◌∷◌, some, none, arith, length,
}
use open_tube_engine_old.Http.Chars.{Bytes, is_valid_path_character}
use open_tube_engine_old.Http.Hex.{http_hex_to_ascii}
use open_tube_engine_old.Http.Hex.Digits.{http_hex_to_ascii-hex_digit}
use open_tube_engine_old.Http.Uri.{divide, http_divide_uri, path_capacity}
use open_tube_engine_old.Http.Uri.Paths.{
  IsPlain, http_divide_uri_bounds, http_divide_uri_plain, path_overflow, http_divide_uri_climbs,
}
use open_tube_engine_old.Http.Send.{
  Written, wrote, Response, bytes_of, http_append_to_output_buf, http_send, events_out_vec, goes_on,
}
use open_tube_engine_old.Http.Send.Stream.{
  IsReady, http_append_to_output_buf-IsReady, events_out, send_all,
}

abbrev codes : String → Bytes
codes String.[] = []
codes (String.◌∷◌ c s) = code c ∷ codes s

divide_run :
    http_divide_uri (codes "/a/../b%21%2Fc?x=1")
    ≡ some (record { path = codes "/a/b!c"; query_string = codes "x=1" })
unfolding http_divide_uri http_hex_to_ascii is_valid_path_character
divide_run = refl

divide_refused : http_divide_uri (codes "/a b") ≡ none
unfolding http_divide_uri http_hex_to_ascii is_valid_path_character
divide_refused = refl

http_hex_to_ascii-hex_digit_example : http_hex_to_ascii b'2' b'f' ≡ 47
http_hex_to_ascii-hex_digit_example = http_hex_to_ascii-hex_digit true false 47 (omega arith)

http_divide_uri_bounds_example : (6 ≤ 18) × (2 ≤ 3) × (0 ≤ 2)
http_divide_uri_bounds_example = http_divide_uri_bounds (codes "a/../b%21%2Fc?x=1") divide_run

abc_IsPlain : IsPlain (codes "abc")
unfolding is_valid_path_character
abc_IsPlain = (refl, (refl, (refl, tt)))

http_divide_uri_plain_example :
    (http_divide_uri (codes "/abc") ≡ some (record { path = codes "/abc"; query_string = [] }))
    × (http_divide_uri (codes "/abc?d")
        ≡ some (record { path = codes "/abc"; query_string = codes "d" }))
http_divide_uri_plain_example = http_divide_uri_plain (codes "abc") (codes "d") abc_IsPlain

abbrev repeated : ℕ → Bytes
repeated ℕ.zero = []
repeated (ℕ.suc n) = b'a' ∷ repeated n

repeated-IsPlain : (n : ℕ) → IsPlain (repeated n)
unfolding is_valid_path_character
repeated-IsPlain ℕ.zero = tt
repeated-IsPlain (ℕ.suc n) = (refl, repeated-IsPlain n)

path_overflow_example :
    (ltb (path_capacity 128 (b'/' ∷ repeated 127)) (length (b'/' ∷ repeated 127) + 1) ≡ true)
    × (length (b'/' ∷ repeated 127) ≤ path_capacity 128 (b'/' ∷ repeated 127))
path_overflow_example =
    path_overflow 128 (repeated 127) (omega arith) (repeated-IsPlain 127)
      (http_divide_uri_plain (repeated 127) [] (repeated-IsPlain 127)).0

divide_passwd : divide (codes "etc") ≡ some (record { path = codes "etc"; rest = [] })
unfolding divide is_valid_path_character
divide_passwd = refl

http_divide_uri_climbs_example :
    http_divide_uri (codes "/....//etc")
    ≡ some (record { path = codes "/../etc"; query_string = [] })
http_divide_uri_climbs_example = http_divide_uri_climbs (codes "etc") divide_passwd

-- Two parts, of which nothing is sent yet.
abbrev response : Response
response = record {
  out_vec = codes "abc" ∷ codes "de" ∷ [];
  temp_out_vec = codes "old" ∷ [];
  writev_total = 5;
  sent = [];
}

response-IsReady : IsReady response
response-IsReady = record { total = refl; bounded = omega arith }

http_append_to_output_buf-IsReady_example :
    IsReady (http_append_to_output_buf response (codes "f"))
    × (bytes_of (http_append_to_output_buf response (codes "f")).out_vec ≡ codes "abcdef")
http_append_to_output_buf-IsReady_example =
    http_append_to_output_buf-IsReady response (codes "f") response-IsReady (omega arith)

send_all_example :
    ((http_send response (wrote 2)).0 ≡ false)
    × ((events_out (http_send response (wrote 2)).1 (1 ∷ 2 ∷ [])).sent ≡ codes "abcde")
    × ((w : Written)
        → (events_out_vec (events_out (http_send response (wrote 2)).1 (1 ∷ 2 ∷ [])) w).0 ≡ goes_on)
send_all_example =
    send_all response 2 (1 ∷ 2 ∷ []) response-IsReady (omega arith) (omega arith) (omega arith) refl

-- The parts are not written yet; `temp_out_vec` has what is left of an earlier response.
abbrev stale : Response
stale = record {
  out_vec = codes "ab" ∷ codes "c" ∷ [];
  temp_out_vec = codes "ol" ∷ codes "der" ∷ [];
  writev_total = 3;
  sent = [];
}
