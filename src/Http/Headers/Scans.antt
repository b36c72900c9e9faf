-- ===== src/Http/Headers/Scans.antt =====
-- The scans of `http_parse_headers`, on texts that hold what they look for. (core_http.c)
use open_tube_engine_old.Base.{
  ℕ, zero, suc, ◌≤◌, ◌<◌, ◌≡◌, refl, Bool, true, false, not, ◌&&◌, [], ◌∷◌, ◌++◌, map, arith, ◌==◌,
  ==_iff, length, inl, inr, Bool-cases, replicate,
}
use open_tube_engine_old.Http.Chars.{Bytes, is_sym, to_lower}
use open_tube_engine_old.Http.Headers.{
  equal_bytes, Look, got, differs, beyond, after, onto, scan_to, scan_key, skip_spaces, scan_value,
}

-- All bytes pass a test.
abbrev pub All : (ℕ → Bool) → Bytes → Type 0
All p [] = Unit {0}
All p (c ∷ s) = (p c ≡ true) × All p s

abbrev pub all : (ℕ → Bool) → Bytes → Bool
all p [] = true
all p (c ∷ s) = p c && all p s

pub all-All : (p : ℕ → Bool) (s : Bytes) → all p s ≡ true → All p s
all-All p [] h = tt
all-All p (c ∷ s) h = (ground (arith, h), all-All p s (ground (arith, h)))

pub after-append : (cs s : Bytes) → after cs (cs ++ s) ≡ got s
unfolding after
after-append [] s = refl
after-append (c ∷ cs) s = rw ((==_iff c c).1 refl, after-append cs s)

abbrev pub is_not : ℕ → ℕ → Bool
is_not b c = not (c == b)

pub scan_to-append :
    (b : ℕ) (xs s : Bytes) → All (is_not b) xs → scan_to b (xs ++ b ∷ s) ≡ got (xs, s)
scan_to-append b [] s h = rw ((==_iff b b).1 refl)
scan_to-append b (c ∷ xs) s h =
    let no : (c == b) ≡ false = ground (arith, h.0) in rw (no, scan_to-append b xs s h.1)

-- A byte that may stand in a key.
abbrev pub is_key_byte : ℕ → Bool
is_key_byte c = is_sym c && not (c == b':')

pub scan_key-append :
    (key s : Bytes) → All is_key_byte key → scan_key (key ++ b':' ∷ s) ≡ got (map to_lower key, s)
unfolding scan_key
scan_key-append [] s h = refl
scan_key-append (c ∷ key) s h =
    let no : (c == b':') ≡ false = ground (arith, h.0) in
    let ok : is_sym c ≡ true = ground (arith, h.0) in rw (no, ok, scan_key-append key s h.1)

pub scan_value-append :
    (value s : Bytes)
    → All (is_not b'\r') value
    → scan_value (value ++ b'\r' ∷ b'\n' ∷ s) ≡ got (value, s)
unfolding scan_value
scan_value-append [] s h = refl
scan_value-append (c ∷ []) s h = let no : (c == b'\r') ≡ false = ground (arith, h.0) in rw no
scan_value-append (c ∷ d ∷ value) s h =
    let no : (c == b'\r') ≡ false = ground (arith, h.0) in
    rw (no, scan_value-append (d ∷ value) s h.1)

-- A text that does not begin with a space.
abbrev pub StartsPlain : Bytes → Type 0
StartsPlain [] = Unit {0}
StartsPlain (c ∷ s) = (c == b' ') ≡ false

pub skip_spaces-append :
    (n : ℕ) (value s : Bytes)
    → StartsPlain value
    → skip_spaces (replicate n b' ' ++ (value ++ b'\r' ∷ s)) ≡ value ++ b'\r' ∷ s
skip_spaces-append zero [] s h = refl
skip_spaces-append zero (c ∷ value) s h = rw h
skip_spaces-append (suc n) value s h = skip_spaces-append n value s h

-- Where the byte that is looked for is missing, the scan leaves the text.
pub scan_to-missing : (b : ℕ) (xs : Bytes) → All (is_not b) xs → scan_to b xs ≡ beyond
scan_to-missing b [] h = refl
scan_to-missing b (c ∷ xs) h =
    let no : (c == b) ≡ false = ground (arith, h.0) in rw (no, scan_to-missing b xs h.1)

-- What is left behind a key or a value is shorter.
unfoldable pub Shorter : ℕ → Look (Bytes × Bytes) → Type 0
Shorter n differs = Unit {0}
Shorter n beyond = Unit {0}
Shorter n (got (x, s)) = length s < n

onto-Shorter : (c n : ℕ) (l : Look (Bytes × Bytes)) → Shorter n l → Shorter (suc n) (onto c l)
unfolding Shorter
onto-Shorter c n differs h = tt
onto-Shorter c n beyond h = tt
onto-Shorter c n (got (x, s)) h = omega (arith, h)

pub scan_key-Shorter : (s : Bytes) → Shorter (length s) (scan_key s)
unfolding scan_key Shorter
scan_key-Shorter [] = tt
scan_key-Shorter (c ∷ s) = elim (Bool-cases (c == b':')) [
  | inl e ↦ rw e (omega arith)
  | inr e ↦ elim (Bool-cases (is_sym c)) [
    | inl e' ↦ rw (e, e') (onto-Shorter (to_lower c) (length s) (scan_key s) (scan_key-Shorter s))
    | inr e' ↦ rw (e, e') tt
  ]
]

pub scan_value-Shorter : (s : Bytes) → Shorter (length s) (scan_value s)
unfolding scan_value Shorter
scan_value-Shorter [] = tt
scan_value-Shorter (c ∷ []) = tt
scan_value-Shorter (c ∷ d ∷ s) = elim (Bool-cases (c == b'\r' && d == b'\n')) [
  | inl e ↦ rw e (omega arith)
  | inr e ↦ rw e (onto-Shorter c (suc (length s)) (scan_value (d ∷ s)) (scan_value-Shorter (d ∷ s)))
]

pub length-skip_spaces : (s : Bytes) → length (skip_spaces s) ≤ length s
length-skip_spaces [] = omega arith
length-skip_spaces (c ∷ s) = elim (Bool-cases (c == b' ')) [
  | inl e ↦ rw e (omega (arith, length-skip_spaces s))
  | inr e ↦ rw e (omega arith)
]

pub equal_bytes-eq : (xs ys : Bytes) → equal_bytes xs ys ≡ true → xs ≡ ys
equal_bytes-eq [] [] h = refl
equal_bytes-eq [] (d ∷ ds) h = cc
equal_bytes-eq (c ∷ cs) [] h = cc
equal_bytes-eq (c ∷ cs) (d ∷ ds) h =
    let head : c ≡ d = ground arith in
    let tail : cs ≡ ds = equal_bytes-eq cs ds (ground arith) in cc

pub equal_bytes_refl : (xs : Bytes) → equal_bytes xs xs ≡ true
equal_bytes_refl [] = refl
equal_bytes_refl (x ∷ xs) = ground (arith, equal_bytes_refl xs)
