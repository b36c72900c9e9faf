-- ===== src/Http/Headers/Lines.antt =====
-- Header lines, and what `http_parse_headers` makes of them. (core_http.c)
use open_tube_engine_old.Base.{
  ℕ, zero, suc, ◌+◌, ◌≤◌, ◌<◌, ◌≡◌, refl, ap, ◌∙◌, Bool, true, false, List, [], ◌∷◌, ◌++◌, map,
  arith, ◌==◌, ◌&&◌, ◌||◌, ltb, get_or, drop, sym, append-nil, append_assoc, if◌then◌else◌, length,
  replicate, length-append,
}
use open_tube_engine_old.Http.Chars.{Bytes, is_sym, to_lower}
use open_tube_engine_old.Http.Headers.{
  got, scan_key, skip_spaces, scan_value, Header, Request, status, equal_bytes, connection,
  asks_keepalive, add_header, header_lines,
}
use open_tube_engine_old.Http.Headers.Scans.{
  All, is_not, is_key_byte, scan_key-append, scan_value-append, StartsPlain, skip_spaces-append,
}

-- A header line: key, colon, spaces, value.
pub record Line : Type 0 where
  pub key : Bytes
  pub spaces : ℕ
  pub value : Bytes

pub record IsLine (l : Line) : Type 0 where
  pub key : All is_key_byte l.key
  pub value : All (is_not b'\r') l.value
  pub plain : StartsPlain l.value

abbrev pub line_bytes : Line → Bytes → Bytes
line_bytes l s = l.key ++ b':' ∷ (replicate l.spaces b' ' ++ (l.value ++ b'\r' ∷ b'\n' ∷ s))

abbrev pub lines_bytes : List Line → Bytes → Bytes
lines_bytes [] s = 1 ∷ s
lines_bytes (l ∷ ls) s = line_bytes l (lines_bytes ls s)

abbrev pub AreLines : List Line → Type 0
AreLines [] = Unit {0}
AreLines (l ∷ ls) = IsLine l × AreLines ls

abbrev pub header_of : Line → Header
header_of l = record { key = map to_lower l.key; value = l.value }

-- One of two bytes stands first.
abbrev pub starts_with : ℕ → ℕ → Bytes → Bool
starts_with a b [] = false
starts_with a b (c ∷ s) = c == a || c == b

-- The line asks for a lasting connection: its key is `connection` but for the case, and its value
-- has a k first and an e as its tenth byte, in either case.
abbrev pub asks : Line → Bool
asks l =
    equal_bytes (map to_lower l.key) connection
    && starts_with b'k' b'K' l.value
    && starts_with b'e' b'E' (drop 9 l.value)

byte_at :
    (a b n : ℕ) (v : Bytes)
    → (ltb n (length v) && (get_or v n 0 == a || get_or v n 0 == b)) ≡ starts_with a b (drop n v)
byte_at a b zero [] = ground arith
byte_at a b zero (c ∷ v) = ground arith
byte_at a b (suc n) [] = ground arith
byte_at a b (suc n) (c ∷ v) = ground (arith, byte_at a b n v)

asks-header_of : (l : Line) → asks_keepalive (header_of l) ≡ asks l
unfolding asks_keepalive
asks-header_of l = ground (arith, byte_at b'k' b'K' 0 l.value, byte_at b'e' b'E' 9 l.value)

line_bytes_longer : (l : Line) (s : Bytes) → length s + 1 < length (line_bytes l s)
line_bytes_longer l s = omega (
  arith,
  length-append l.key (b':' ∷ (replicate l.spaces b' ' ++ (l.value ++ b'\r' ∷ b'\n' ∷ s))),
  length-append (replicate l.spaces b' ') (l.value ++ b'\r' ∷ b'\n' ∷ s),
  length-append l.value (b'\r' ∷ b'\n' ∷ s),
)

not_end : (c : ℕ) → is_key_byte c ≡ true → (c == 1) ≡ false
unfolding is_sym
not_end c h = ground arith

module _ {K : Type 0} (new_keepalive_socket : K → Bool × K) (undefined : Header) where
  abbrev pub add_lines : Request K → List Line → Request K
  add_lines r [] = r
  add_lines r (l ∷ ls) = add_lines (add_header new_keepalive_socket undefined r (header_of l)) ls

  -- Whether the connection lasts, and the table of sockets, after the lines.
  abbrev pub kept_by : Bool × K → List Line → Bool × K
  kept_by kept [] = kept
  kept_by kept (l ∷ ls) = kept_by (if asks l then new_keepalive_socket kept.1 else kept) ls

  -- The lines are headers behind those there were.
  abbrev pub after_lines : Request K → List Line → Request K
  after_lines r ls =
      let kept = kept_by (r.keepalive, r.keepalive_sockets) ls in
      record r {
        headers = r.headers ++ map header_of ls;
        keepalive = kept.0;
        keepalive_sockets = kept.1;
      }

  -- After a header that asks for a lasting connection, or does not.
  abbrev after_header : Request K → Header → List Line → Bool → Request K
  after_header r h ls b =
      let kept =
        kept_by
          (if b
            then new_keepalive_socket r.keepalive_sockets
            else (r.keepalive, r.keepalive_sockets))
          ls in
      record r {
        headers = r.headers ++ h ∷ map header_of ls;
        keepalive = kept.0;
        keepalive_sockets = kept.1;
      }

  header-after_lines :
      (b : Bool) (r : Request K) (h : Header) (ls : List Line)
      → asks_keepalive h ≡ b
      → after_lines (add_header new_keepalive_socket undefined r h) ls ≡ after_header r h ls b
  unfolding add_header
  header-after_lines true r h ls asked = rw asked (
      ap (λ hs. record (after_header r h ls true) { headers = hs })
        (append_assoc r.headers (h ∷ []) (map header_of ls)))
  header-after_lines false r h ls asked = rw asked (
      ap (λ hs. record (after_header r h ls false) { headers = hs })
        (append_assoc r.headers (h ∷ []) (map header_of ls)))

  pub add_lines-after_lines : (r : Request K) (ls : List Line) → add_lines r ls ≡ after_lines r ls
  add_lines-after_lines r [] = ap (λ hs. record r { headers = hs }) (sym (append-nil r.headers))
  add_lines-after_lines r (l ∷ ls) =
      add_lines-after_lines (add_header new_keepalive_socket undefined r (header_of l)) ls
      ∙ header-after_lines (asks_keepalive (header_of l)) r (header_of l) ls refl
      ∙ ap (after_header r (header_of l) ls) (asks-header_of l)

  header_lines-step :
      (n c : ℕ) (s : Bytes) {key s1 value s2 : Bytes} (r : Request K)
      → (c == 1) ≡ false
      → scan_key (c ∷ s) ≡ got (key, s1)
      → scan_value (skip_spaces s1) ≡ got (value, s2)
      → header_lines new_keepalive_socket undefined (suc n) (c ∷ s) r
        ≡ header_lines new_keepalive_socket undefined n s2
            (add_header new_keepalive_socket undefined r (record { key = key; value = value }))
  unfolding header_lines
  header_lines-step n c s r going k v = rw (going, k, v)

  header_lines-line :
      (n : ℕ) (key : Bytes) (m : ℕ) (value s : Bytes) (r : Request K)
      → All is_key_byte key
      → All (is_not b'\r') value
      → StartsPlain value
      → header_lines new_keepalive_socket undefined
          (suc n)
          (key ++ b':' ∷ (replicate m b' ' ++ (value ++ b'\r' ∷ b'\n' ∷ s)))
          r
        ≡ header_lines new_keepalive_socket undefined n s (
            add_header new_keepalive_socket undefined r
              (record { key = map to_lower key; value = value }))
  header_lines-line n [] m value s r k v plain =
      header_lines-step n b':' (replicate m b' ' ++ (value ++ b'\r' ∷ b'\n' ∷ s)) r refl
        (scan_key-append [] _ tt)
        (ap scan_value (skip_spaces-append m value (b'\n' ∷ s) plain) ∙ scan_value-append value s v)
  header_lines-line n (c ∷ key) m value s r k v plain =
      let tail = replicate m b' ' ++ (value ++ b'\r' ∷ b'\n' ∷ s) in
      header_lines-step n c (key ++ b':' ∷ tail) r (not_end c k.0)
        (scan_key-append (c ∷ key) tail k)
        (ap scan_value (skip_spaces-append m value (b'\n' ∷ s) plain) ∙ scan_value-append value s v)

  pub header_lines-lines :
      (n : ℕ) (ls : List Line) (s : Bytes) (r : Request K)
      → AreLines ls
      → length (lines_bytes ls s) ≤ n
      → header_lines new_keepalive_socket undefined n (lines_bytes ls s) r
        ≡ (status 0, add_lines r ls)
  unfolding header_lines
  header_lines-lines zero [] s r h le = absurd (omega arith)
  header_lines-lines zero (l ∷ ls) s r h le =
      absurd (omega (arith, line_bytes_longer l (lines_bytes ls s)))
  header_lines-lines (suc n) [] s r h le = refl
  header_lines-lines (suc n) (l ∷ ls) s r h le =
      header_lines-line n l.key l.spaces l.value (lines_bytes ls s) r h.0.key h.0.value h.0.plain
      ∙ header_lines-lines n ls s _ h.1 (omega (arith, le, line_bytes_longer l (lines_bytes ls s)))
