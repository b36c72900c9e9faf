-- ===== src/Http/Hex/Digits.antt =====
-- What `http_hex_to_ascii` makes of a percent-encoded byte. (core_http.c)
use open_tube_engine_old.Base.{
  ℕ, zero, suc, ◌+◌, ◌-◌, ◌/◌, ◌%◌, ◌<◌, ◌≡◌, refl, Bool, true, false, ◌&&◌, arith, ap, ◌≤◌,
  Bool-cases, inl, inr, ltb, ◌==◌, ==_iff, if◌then◌else◌,
}
use open_tube_engine_old.Http.Hex.{http_hex_to_ascii}

-- The hexadecimal digit for a value below 16, in upper or lower case.
abbrev pub hex_digit : Bool → ℕ → ℕ
hex_digit upper n = if ltb n 10 then b'0' + n else (if upper then b'A' else b'a') + (n - 10)

-- The test `p` on the numbers from `i` on, as many as `k`.
passes : (ℕ → Bool) → ℕ → ℕ → Bool
passes p i zero = true
passes p i (suc k) = p i && passes p (suc i) k

passes_lem : (p : ℕ → Bool) {b : ℕ} (i k : ℕ) → i ≤ b → b < i + k → passes p i k ≡ true → p b ≡ true
unfolding passes
passes_lem p i zero le lt h = absurd (omega arith)
passes_lem p {b} i (suc k) le lt h = elim (Bool-cases (i == b)) [
  | inl e ↦ (let same : i ≡ b = ground arith in ground (arith, ap p same))
  | inr e ↦ passes_lem p (suc i) k (ground arith) (omega arith) (ground arith)
]

-- The byte that comes out: control characters below 16 come out 32 higher.
abbrev pub decoded : ℕ → ℕ
decoded b = if ltb b 16 then b + 32 else b

abbrev decodes : Bool → Bool → ℕ → Bool
decodes u v b = http_hex_to_ascii (hex_digit u (b / 16)) (hex_digit v (b % 16)) == decoded b

decodes_table : (u v : Bool) → passes (decodes u v) 0 256 ≡ true
unfolding passes http_hex_to_ascii
decodes_table true true = refl
decodes_table true false = refl
decodes_table false true = refl
decodes_table false false = refl

-- A byte from 16 on, written as two hexadecimal digits, each in either case, is read back; a byte
-- below 16 is read as the one 32 above it.
pub http_hex_to_ascii-hex_digit :
    (upper upper' : Bool) (b : ℕ)
    → b < 256
    → http_hex_to_ascii (hex_digit upper (b / 16)) (hex_digit upper' (b % 16))
      ≡ (if ltb b 16 then b + 32 else b)
http_hex_to_ascii-hex_digit u v b lt =
    (==_iff _ (decoded b)).0 (passes_lem (decodes u v) 0 256 (omega arith) lt (decodes_table u v))
