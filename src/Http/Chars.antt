-- ===== src/Http/Chars.antt =====
-- The character classes of common_functions.h that core_http.c uses, over byte values.
use open_tube_engine_old.Base.{ℕ, ◌+◌, Bool, List, ◌&&◌, ◌||◌, leb, ◌==◌, if◌then◌else◌}

abbrev pub Bytes : Type 0
Bytes = List ℕ

abbrev pub within : ℕ → ℕ → ℕ → Bool
within lo hi c = leb lo c && leb c hi

unfoldable pub is_sym : ℕ → Bool
is_sym c = leb b' ' c && leb c b'~'

unfoldable pub to_lower : ℕ → ℕ
to_lower c = if within b'A' b'Z' c then c + 32 else c

unfoldable pub is_alnum : ℕ → Bool
is_alnum c = within b'a' b'z' c || within b'A' b'Z' c || within b'0' b'9' c

unfoldable pub is_valid_path_character : ℕ → Bool
unfolding is_alnum
is_valid_path_character c =
    is_alnum c
    || c == b'/'
    || c == b'-'
    || c == b'_'
    || c == b'.'
    || c == b','
    || c == b':'
    || c == b'~'

unfoldable pub is_valid_url_key_character : ℕ → Bool
unfolding is_alnum
is_valid_url_key_character c = is_alnum c || c == b'-' || c == b'_'

unfoldable pub is_valid_url_value_character : ℕ → Bool
unfolding is_valid_url_key_character
is_valid_url_value_character c = is_valid_url_key_character c || c == b'+' || c == b'%'
