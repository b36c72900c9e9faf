-- ===== src/Http/Send/Advance.antt =====
-- The loop that finds where a partial write stopped. (core_http.c, core_server.c)
use open_tube_engine_old.Base.{
  ℕ, zero, suc, ◌+◌, ◌-◌, ◌≤◌, ◌<◌, ◌≡◌, refl, sym, ap, ◌∙◌, append_assoc, inl, inr, List, [], ◌∷◌,
  ◌++◌, some, arith, leb, Bool-cases, leb→le, length, drop, u32_mod, add32, length-append,
}
use open_tube_engine_old.Http.Chars.{Bytes}
use open_tube_engine_old.Http.Send.{bytes_of, advance}

drop-append_left :
    {A : Type 0} (n : ℕ) (xs ys : List A) → n ≤ length xs → drop n (xs ++ ys) ≡ drop n xs ++ ys
drop-append_left zero xs ys h = refl
drop-append_left (suc n) [] ys h = absurd (omega arith)
drop-append_left (suc n) (x ∷ xs) ys h = drop-append_left n xs ys (omega arith)

drop-append_right :
    {A : Type 0} (n : ℕ) (xs ys : List A)
    → length xs ≤ n
    → drop n (xs ++ ys) ≡ drop (n - length xs) ys
drop-append_right n [] ys h = let e : n ≡ n - 0 = omega arith in ap (λ k. drop k ys) e
drop-append_right zero (x ∷ xs) ys h = absurd (omega arith)
drop-append_right (suc n) (x ∷ xs) ys h =
    let e : n - length xs ≡ suc n - suc (length xs) = omega arith in
    drop-append_right n xs ys (omega arith) ∙ ap (λ k. drop k ys) e

-- The vector that `advance` leaves holds the bytes behind the first `res - size`.
pub advance-drop :
    (size res : ℕ) (vs : List Bytes)
    → size < res
    → res ≤ size + length (bytes_of vs)
    → size + length (bytes_of vs) < u32_mod
    → (ws : List Bytes) × (advance size res vs ≡ some ws)
      × (bytes_of ws ≡ drop (res - size) (bytes_of vs))
unfolding advance
advance-drop size res [] lo hi lt = absurd (omega arith)
advance-drop size res (v ∷ vs) lo hi lt = elim (Bool-cases (leb res (add32 size (length v)))) [
  | inl here ↦
      let le = leb→le res (add32 size (length v)) here in
      let total = length-append v (bytes_of vs) in
      let n : length v - (add32 size (length v) - res) ≡ res - size = omega arith in
      (
        drop (length v - (add32 size (length v) - res)) v ∷ vs,
        rw here,
        ap (λ k. drop k v ++ bytes_of vs) n
            ∙ sym (drop-append_left (res - size) v (bytes_of vs) (omega arith)),
      )
  | inr later ↦
      let total = length-append v (bytes_of vs) in
      let e : add32 size (length v) ≡ size + length v = omega arith in
      let past : add32 size (length v) < res = ground arith in
      let (ws, run, rest) =
        advance-drop (add32 size (length v)) res vs past (omega arith) (omega arith) in
      let n : res - add32 size (length v) ≡ res - size - length v = omega arith in
      (
        ws,
        rw later run,
        rest
            ∙ ap (λ k. drop k (bytes_of vs)) n
            ∙ sym (drop-append_right (res - size) v (bytes_of vs) (omega arith)),
      )
]

pub advance_from_start :
    (n : ℕ) (vs : List Bytes)
    → 0 < n
    → n ≤ length (bytes_of vs)
    → length (bytes_of vs) < u32_mod
    → (ws : List Bytes) × (advance 0 n vs ≡ some ws) × (bytes_of ws ≡ drop n (bytes_of vs))
advance_from_start n vs pos le lt =
    let (ws, run, rest) = advance-drop 0 n vs pos (omega arith) (omega arith) in
    let e : n - 0 ≡ n = omega arith in (ws, run, rest ∙ ap (λ k. drop k (bytes_of vs)) e)

pub bytes_of-append : (vs ws : List Bytes) → bytes_of (vs ++ ws) ≡ bytes_of vs ++ bytes_of ws
bytes_of-append [] ws = refl
bytes_of-append (v ∷ vs) ws =
    rw (bytes_of-append vs ws) (sym (append_assoc v (bytes_of vs) (bytes_of ws)))
