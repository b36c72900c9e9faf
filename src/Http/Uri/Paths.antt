-- ===== src/Http/Uri/Paths.antt =====
-- What `http_divide_uri` lets through. (core_http.c)
use open_tube_engine_old.Base.{
  ℕ, ◌+◌, ◌≤◌, ◌≡◌, refl, sym, ap, ◌∙◌, append-nil, Bool, true, false, not, ltb, ◌||◌, ◌&&◌, [],
  ◌∷◌, ◌++◌, Option, none, some, arith, ◌==◌, if◌then◌else◌, length, inl, inr, Bool-cases,
}
use open_tube_engine_old.Http.Chars.{Bytes, is_valid_path_character}
use open_tube_engine_old.Http.Hex.{http_hex_to_ascii}
use open_tube_engine_old.Http.Uri.{
  Divided, emit, copy, divide, query, PathAndQuery, finish, http_divide_uri, path_capacity,
  http_path_prealloc,
}

abbrev pub occurs : ℕ → Bytes → ℕ
occurs b [] = 0
occurs b (c ∷ s) = (if c == b then 1 else 0) + occurs b s

-- Where a URI is divided, its path is within the bounds that `s` sets.
abbrev Bounded : Bytes → Option Divided → Type 0
Bounded s none = Unit {0}
Bounded s (some d) =
    (length d.path ≤ length s)
    × (occurs b'/' d.path ≤ occurs b'/' s)
    × (occurs b'.' d.path ≤ occurs b'.' s)

copy-Bounded : (c : ℕ) (s : Bytes) (r : Option Divided) → Bounded s r → Bounded (c ∷ s) (copy c r)
copy-Bounded c s none h = ground arith
copy-Bounded c s (some d) h = ground arith

escape-Bounded :
    (c x y b : ℕ) (s : Bytes) (r : Option Divided)
    → Bounded s r
    → Bounded (c ∷ x ∷ y ∷ s) (if not (b == b'/') && not (b == b'.') then emit b r else r)
escape-Bounded c x y b s none h = ground arith
escape-Bounded c x y b s (some d) h = ground arith

skip-Bounded :
    (c x y : ℕ) (s : Bytes) (r : Option Divided) → Bounded s r → Bounded (c ∷ x ∷ y ∷ s) r
skip-Bounded c x y s none h = tt
skip-Bounded c x y s (some d) h = ground arith

divide-Bounded : (s : Bytes) → Bounded s (divide s)
unfolding divide
divide-Bounded [] = omega arith
divide-Bounded (c ∷ []) = elim (Bool-cases (c == b'?')) [
  | inl e ↦ rw e (omega arith)
  | inr e ↦ rw e (copy-Bounded c [] (divide []) (divide-Bounded []))
]
divide-Bounded (c ∷ x ∷ []) = elim (Bool-cases (c == b'?')) [
  | inl e ↦ rw e (omega arith)
  | inr e ↦ rw e (copy-Bounded c (x ∷ []) (divide (x ∷ [])) (divide-Bounded (x ∷ [])))
]
divide-Bounded (c ∷ x ∷ y ∷ s) = elim (Bool-cases (c == b'?')) [
  | inl e ↦ rw e (omega arith)
  | inr e ↦ rw e (elim (Bool-cases (c == b'%')) [
    | inl e' ↦ rw e' (escape-Bounded c x y (http_hex_to_ascii x y) s (divide s) (divide-Bounded s))
    | inr e' ↦ rw e' (elim (Bool-cases (c == b'.' && x == b'.' && y == b'/')) [
      | inl up ↦ rw up (skip-Bounded c x y s (divide s) (divide-Bounded s))
      | inr other ↦
          rw other (copy-Bounded c (x ∷ y ∷ s) (divide (x ∷ y ∷ s)) (divide-Bounded (x ∷ y ∷ s)))
    ])
  ])
]

finish-path :
    (r : Option Divided) {q : PathAndQuery}
    → finish r ≡ some q
    → (d : Divided) × (r ≡ some d) × (q.path ≡ b'/' ∷ d.path)
finish-path none e = cc
finish-path (some d) e = (d, refl, cc)

-- Where a URI that begins with a slash is accepted, its path is no longer than the URI and has no
-- more slashes and no more dots than it: escapes add neither.
pub http_divide_uri_bounds :
    (s : Bytes) {q : PathAndQuery}
    → http_divide_uri (b'/' ∷ s) ≡ some q
    → (length q.path ≤ length (b'/' ∷ s))
      × (occurs b'/' q.path ≤ occurs b'/' (b'/' ∷ s))
      × (occurs b'.' q.path ≤ occurs b'.' (b'/' ∷ s))
unfolding http_divide_uri
http_divide_uri_bounds s e =
    let (d, run, path) = finish-path (divide s) e in
    let h : Bounded s (some d) = rw run at (divide-Bounded s) in rw path (omega arith)

-- Bytes that stand for themselves in a path, and begin no `../`.
abbrev pub is_plain : ℕ → Bool
is_plain c = is_valid_path_character c && not (c == b'.')

abbrev pub IsPlain : Bytes → Type 0
IsPlain [] = Unit {0}
IsPlain (c ∷ s) = (is_plain c ≡ true) × IsPlain s

record PlainTests (c : ℕ) : Type 0 where
  valid : is_valid_path_character c ≡ true
  no_query : (c == b'?') ≡ false
  no_escape : (c == b'%') ≡ false
  no_dot : (c == b'.') ≡ false

is_plain-PlainTests : (c : ℕ) → is_plain c ≡ true → PlainTests c
unfolding is_valid_path_character
is_plain-PlainTests c h = record {
  valid = ground arith;
  no_query = ground arith;
  no_escape = ground arith;
  no_dot = ground arith;
}

-- A plain byte is copied.
divide-copy : (c : ℕ) (r : Bytes) → is_plain c ≡ true → divide (c ∷ r) ≡ emit c (divide r)
unfolding divide
divide-copy c [] h = let t = is_plain-PlainTests c h in rw (t.no_query, t.valid)
divide-copy c (x ∷ []) h = let t = is_plain-PlainTests c h in rw (t.no_query, t.valid)
divide-copy c (x ∷ y ∷ s) h =
    let t = is_plain-PlainTests c h in rw (t.no_query, t.no_escape, t.no_dot, t.valid)

divide-query : (u : Bytes) → divide (b'?' ∷ u) ≡ some (record { path = []; rest = b'?' ∷ u })
unfolding divide
divide-query [] = refl
divide-query (x ∷ []) = refl
divide-query (x ∷ y ∷ s) = refl

divide_plain :
    (s t : Bytes)
    → IsPlain s
    → divide t ≡ some (record { path = []; rest = t })
    → divide (s ++ t) ≡ some (record { path = s; rest = t })
divide_plain [] t h k = k
divide_plain (c ∷ s) t h k = divide-copy c (s ++ t) h.0 ∙ rw (divide_plain s t h.1 k)

-- A URI of plain bytes is its own path, and what stands behind a question mark is the query string.
pub http_divide_uri_plain :
    (s u : Bytes)
    → IsPlain s
    → (http_divide_uri (b'/' ∷ s) ≡ some (record { path = b'/' ∷ s; query_string = [] }))
      × (http_divide_uri (b'/' ∷ (s ++ b'?' ∷ u))
          ≡ some (record { path = b'/' ∷ s; query_string = u }))
unfolding http_divide_uri
http_divide_uri_plain s u h = (
  ap finish (rw append-nil at (divide_plain s [] h refl)),
  ap finish (divide_plain s (b'?' ∷ u) h (divide-query u)),
)

-- For a plain URI the path with its terminating NUL is longer than the block that it is written to
-- exactly where the URI has more than 128 bytes, or has 128 and the block still has its first size
-- of 128 (earlier requests leave it of that size or another, here no smaller); it is then one byte
-- longer, and never more.
pub path_overflow :
    (before : ℕ) (s : Bytes) {q : PathAndQuery}
    → http_path_prealloc ≤ before
    → IsPlain s
    → http_divide_uri (b'/' ∷ s) ≡ some q
    → let uri = b'/' ∷ s in
      let too_long = ltb (path_capacity before uri) (length q.path + 1) in
      (too_long ≡ (ltb 128 (length uri) || (length uri == 128 && before == 128)))
      × (length q.path ≤ path_capacity before uri)
unfolding path_capacity
path_overflow before s {q} kept h e =
    let same : some q ≡ some (record { path = b'/' ∷ s; query_string = [] }) =
      sym e ∙ (http_divide_uri_plain s [] h).0 in
    let path : length q.path ≡ length (b'/' ∷ s) = ground arith in
    (ground (arith, path), ground (arith, path))

-- Whatever follows `/....//`, where it is accepted, the path begins with `/../` and climbs out of
-- the document root.
pub http_divide_uri_climbs :
    (s : Bytes) {d : Divided}
    → divide s ≡ some d
    → http_divide_uri (b'/' ∷ b'.' ∷ b'.' ∷ b'.' ∷ b'.' ∷ b'/' ∷ b'/' ∷ s)
      ≡ some (record { path = b'/' ∷ b'.' ∷ b'.' ∷ b'/' ∷ d.path; query_string = query d.rest })
unfolding http_divide_uri is_valid_path_character
http_divide_uri_climbs s e = rw (divide-copy b'/' s refl, e)
