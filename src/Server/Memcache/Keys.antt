-- ===== src/Server/Memcache/Keys.antt =====
-- The keys of the cache are slices of one block. (memcache.c)
use open_tube_engine_old.Base.{
  ℕ, zero, suc, ◌+◌, ◌%◌, ◌≤◌, ◌<◌, ◌≡◌, refl, sym, ap, ◌∙◌, [], ◌∷◌, ◌++◌, arith, length,
  length-append, take, drop, take-take, take-append, length-take, length-drop, u32_mod, take_all,
}
use open_tube_engine_old.Http.Chars.{Bytes}
use open_tube_engine_old.Common.Buf.{Buf, ptr_mod, ptr_sub}
use open_tube_engine_old.Server.Memcache.{Cached, write_bytes}

-- The key of the entry is the slice at `k` of the block.
pub record IsKey (names : Buf) (c : Cached) : Type 0 where
  pub place : ℕ
  pub points : c.key_str ≡ (names.addr + place) % ptr_mod
  pub within : place + c.key_len ≤ names.cur_len

slice-take :
    (n k len : ℕ) (xs : Bytes) → k + len ≤ n → take len (drop k xs) ≡ take len (drop k (take n xs))
slice-take n zero len xs le = sym (take-take len n xs (omega arith))
slice-take zero (suc k) len xs le = absurd (omega arith)
slice-take (suc n) (suc k) len [] le = refl
slice-take (suc n) (suc k) len (x ∷ xs) le = slice-take n k len xs (omega arith)

-- Blocks with the same first `n` bytes have the same slices there.
pub same_slice :
    (n k len : ℕ) (xs ys : Bytes)
    → k + len ≤ n
    → take n xs ≡ take n ys
    → take len (drop k xs) ≡ take len (drop k ys)
same_slice n k len xs ys le same =
    slice-take n k len xs le ∙ ap (λ l. take len (drop k l)) same ∙ sym (slice-take n k len ys le)

drop-take : (k : ℕ) (xs ys : Bytes) → k ≤ length xs → drop k (take k xs ++ ys) ≡ ys
drop-take zero xs ys le = refl
drop-take (suc k) [] ys le = absurd (omega arith)
drop-take (suc k) (x ∷ xs) ys le = drop-take k xs ys (omega arith)

-- What is written is read.
pub slice-write_bytes :
    (s : Bytes) (k : ℕ) (xs : Bytes)
    → k ≤ length xs
    → take (length s) (drop k (write_bytes s k xs)) ≡ s
slice-write_bytes s k xs le =
    ap (take (length s)) (drop-take k xs (s ++ drop (k + length s) xs) le)
    ∙ take-append (length s) s (drop (k + length s) xs) (omega arith)
    ∙ take_all (length s) s (omega arith)

pub take-write_bytes :
    (s : Bytes) (k : ℕ) (xs : Bytes) → k ≤ length xs → take k (write_bytes s k xs) ≡ take k xs
take-write_bytes s k xs le =
    take-append k (take k xs) (s ++ drop (k + length s) xs) (omega (arith, length-take k xs))
    ∙ take_all k (take k xs) (omega (arith, length-take k xs))

pub length-write_bytes :
    (s : Bytes) (k : ℕ) (xs : Bytes)
    → k + length s ≤ length xs
    → length (write_bytes s k xs) ≡ length xs
length-write_bytes s k xs le = omega (
  arith,
  length-append (take k xs) (s ++ drop (k + length s) xs),
  length-append s (drop (k + length s) xs),
  length-take k xs,
  length-drop (k + length s) xs,
)

-- A pointer to a place less than 2^32 bytes into the block.
pub ptr_sub_place : (addr k : ℕ) → k < u32_mod → ptr_sub ((addr + k) % ptr_mod) addr ≡ k
ptr_sub_place addr k lt = omega arith
