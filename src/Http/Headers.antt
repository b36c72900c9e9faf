-- ===== src/Http/Headers.antt =====
-- `http_parse_headers`: the request line and the header lines of a request. (core_http.c)
pub mod Scans
pub mod Lines
pub mod RoundTrip
pub mod Answers
mod Tests
use open_tube_engine_old.Base.{
  ℕ, zero, suc, Bool, true, false, not, ◌&&◌, ◌||◌, List, [], ◌∷◌, ◌++◌, ltb, ◌==◌, if◌then◌else◌,
  length, get_or,
}
use open_tube_engine_old.Http.Chars.{Bytes, is_sym, to_lower}

-- What a look at the received bytes gives; `beyond` is a read behind the last of them.
pub data Look {ℓ} (A : Type ℓ) : Type ℓ where
  got : A → Look A
  differs beyond : Look A

-- The bytes behind `cs`, where the text begins with them.
unfoldable pub after : Bytes → Bytes → Look Bytes
after [] s = got s
after (c ∷ cs) [] = beyond
after (c ∷ cs) (d ∷ s) = let rest = after cs s in if d == c then rest else differs

abbrev pub onto : ℕ → Look (Bytes × Bytes) → Look (Bytes × Bytes)
onto c (got (xs, s)) = got (c ∷ xs, s)
onto c differs = differs
onto c beyond = beyond

-- The bytes before the first `b`, and those behind it.
abbrev pub scan_to : ℕ → Bytes → Look (Bytes × Bytes)
scan_to b [] = beyond
scan_to b (c ∷ s) = let rest = scan_to b s in if c == b then got ([], s) else onto c rest

-- The key of a header, in lower case; a byte that is no symbol ends the request.
unfoldable pub scan_key : Bytes → Look (Bytes × Bytes)
scan_key [] = beyond
scan_key (c ∷ s) =
    let rest = scan_key s in
    if c == b':' then got ([], s) else if is_sym c then onto (to_lower c) rest else differs

abbrev pub skip_spaces : Bytes → Bytes
skip_spaces [] = []
skip_spaces (c ∷ s) = let rest = skip_spaces s in if c == b' ' then rest else c ∷ s

-- The value of a header, up to the end of its line.
unfoldable pub scan_value : Bytes → Look (Bytes × Bytes)
scan_value [] = beyond
scan_value (c ∷ []) = beyond
scan_value (c ∷ d ∷ s) =
    let rest = scan_value (d ∷ s) in if c == b'\r' && d == b'\n' then got ([], s) else onto c rest

pub record Header : Type 0 where
  pub key : Bytes
  pub value : Bytes

-- A string is the bytes that its pointer and length give. `keepalive_sockets` is the table that
-- `new_keepalive_socket` changes, and `headers` what the pool `in.p` has handed out.
pub record Request (K : Type 0) : Type 0 where
  pub method_get : Bool
  pub method_post : Bool
  pub method_head : Bool
  pub uri : Bytes
  pub http_version : Bytes
  pub headers : List Header
  pub keepalive : Bool
  pub keepalive_sockets : K

-- What `http_parse_headers` returns; `out_of_fuel` is for the model only.
pub data Status : Type 0 where
  status : ℕ → Status
  reads_beyond out_of_fuel : Status

abbrev pub equal_bytes : Bytes → Bytes → Bool
equal_bytes [] [] = true
equal_bytes [] (d ∷ ds) = false
equal_bytes (c ∷ cs) [] = false
equal_bytes (c ∷ cs) (d ∷ ds) = c == d && equal_bytes cs ds

abbrev pub connection : Bytes
connection = b'c' ∷ b'o' ∷ b'n' ∷ b'n' ∷ b'e' ∷ b'c' ∷ b't' ∷ b'i' ∷ b'o' ∷ b'n' ∷ []

unfoldable pub asks_keepalive : Header → Bool
asks_keepalive h =
    equal_bytes h.key connection
    && ltb 9 (length h.value)
    && (get_or h.value 0 0 == b'k' || get_or h.value 0 0 == b'K')
    && (get_or h.value 9 0 == b'e' || get_or h.value 9 0 == b'E')

-- `undefined` is what a node of the pool holds when it is handed out.
module _ {K : Type 0} (new_keepalive_socket : K → Bool × K) (undefined : Header) where
  pub add_header : Request K → Header → Request K
  add_header r h =
      let (kept, sockets) = new_keepalive_socket r.keepalive_sockets in
      let r' = record r { headers = r.headers ++ h ∷ [] } in
      if asks_keepalive h then record r' { keepalive = kept; keepalive_sockets = sockets } else r'

  abbrev pub add_undefined : Request K → Request K
  add_undefined r = record r { headers = r.headers ++ undefined ∷ [] }

  -- `while (* p != 1)`
  pub header_lines : ℕ → Bytes → Request K → Status × Request K
  header_lines zero s r = (out_of_fuel, r)
  header_lines (suc n) [] r = (reads_beyond, r)
  header_lines (suc n) (c ∷ s) r = if c == 1 then (status 0, r) else elim (scan_key (c ∷ s)) [
    | differs ↦ (status 400, add_undefined r)
    | beyond ↦ (reads_beyond, add_undefined r)
    | got (key, s1) ↦ elim (scan_value (skip_spaces s1)) [
      | got (value, s2) ↦ header_lines n s2 (add_header r (record { key = key; value = value }))
      | differs ↦ (reads_beyond, add_undefined r)
      | beyond ↦ (reads_beyond, add_undefined r)
    ]
  ]

  -- From the protocol on.
  pub parse_version : Bytes → Request K → Status × Request K
  parse_version s r = elim (after (b'H' ∷ b'T' ∷ b'T' ∷ b'P' ∷ b'/' ∷ []) s) [
    | differs ↦ (status 400, r)
    | beyond ↦ (reads_beyond, r)
    | got s1 ↦ elim (scan_to b'\r' s1) [
      | got (version, []) ↦ (reads_beyond, record r { http_version = version })
      | got (version, lf ∷ s2) ↦
          header_lines (suc (length s2)) s2 (record r { http_version = version })
      | differs ↦ (reads_beyond, r)
      | beyond ↦ (reads_beyond, r)
    ]
  ]

  -- From the URI on; `in.uri.len` is 0 before.
  pub parse_uri : Bytes → Request K → Status × Request K
  parse_uri [] r = (reads_beyond, r)
  parse_uri (c ∷ s) r =
      if c == b'/'
      then (elim (scan_to b' ' (c ∷ s)) [
        | got (uri, s1) ↦ parse_version s1 (record r { uri = uri })
        | differs ↦ (reads_beyond, r)
        | beyond ↦ (reads_beyond, r)
      ])
      else (status 400, r)

  pub http_parse_headers : Bytes → Request K → Status × Request K
  http_parse_headers s r = elim (after (b'G' ∷ b'E' ∷ b'T' ∷ b' ' ∷ []) s) [
    | got s1 ↦ parse_uri s1 (record r { method_get = true })
    | beyond ↦ (reads_beyond, r)
    | differs ↦ elim (after (b'P' ∷ b'O' ∷ b'S' ∷ b'T' ∷ b' ' ∷ []) s) [
      | got s1 ↦ parse_uri s1 (record r { method_post = true })
      | beyond ↦ (reads_beyond, r)
      | differs ↦ elim (after (b'H' ∷ b'E' ∷ b'A' ∷ b'D' ∷ b' ' ∷ []) s) [
        | got s1 ↦ parse_uri s1 (record r { method_head = true })
        | beyond ↦ (reads_beyond, r)
        | differs ↦ (status 501, r)
      ]
    ]
  ]
