-- ===== src/Common/Paths/Basename.antt =====
-- What `gnu_basename` returns. (common_functions.c)
use open_tube_engine_old.Base.{
  ℕ, zero, suc, ◌+◌, ◌-◌, ◌≡◌, refl, false, List, [], ◌∷◌, ◌++◌, arith, ◌==◌, length, length-append,
  get_or, drop,
}
use open_tube_engine_old.Common.Paths.{walk_back, gnu_basename}

abbrev pub HasNoSlash : List ℕ → Type 0
HasNoSlash [] = Unit {0}
HasNoSlash (c ∷ s) = ((c == b'/') ≡ false) × HasNoSlash s

HasNoSlash-get_or : (s : List ℕ) (i : ℕ) → HasNoSlash s → (get_or s i 0 == b'/') ≡ false
HasNoSlash-get_or [] i h = refl
HasNoSlash-get_or (c ∷ s) zero h = h.0
HasNoSlash-get_or (c ∷ s) (suc i) h = HasNoSlash-get_or s i h.1

get_or-append : (dir s : List ℕ) (i : ℕ) → get_or (dir ++ s) (length dir + i) 0 ≡ get_or s i 0
get_or-append [] s i = (let e : 0 + i ≡ i = omega arith in rw e refl)
get_or-append (c ∷ dir) s i =
    let e : suc (length dir) + i ≡ suc (length dir + i) = omega arith in
    rw e (get_or-append dir s i)

drop_behind : (dir : List ℕ) (x : ℕ) (s : List ℕ) → drop (suc (length dir)) (dir ++ x ∷ s) ≡ s
drop_behind [] x s = refl
drop_behind (c ∷ dir) x s = drop_behind dir x s

-- The walk from `k` bytes behind the slash.
walk_back-name :
    (c : ℕ) (dir name : List ℕ) (k : ℕ)
    → HasNoSlash name
    → walk_back (c ∷ (dir ++ b'/' ∷ name)) (suc (length dir + k)) ≡ name
unfolding walk_back
walk_back-name c dir name zero h =
    let at : get_or (dir ++ b'/' ∷ name) (length dir + 0) 0 ≡ b'/' =
      get_or-append dir (b'/' ∷ name) 0 in
    let e : length dir + 0 ≡ length dir = omega arith in rw at (rw e (drop_behind dir b'/' name))
walk_back-name c dir name (suc k) h =
    let at : get_or (dir ++ b'/' ∷ name) (length dir + suc k) 0 ≡ get_or name k 0 =
      get_or-append dir (b'/' ∷ name) (suc k) in
    rw (at, HasNoSlash-get_or name k h)
      (let e : length dir + suc k ≡ suc (length dir + k) = omega arith in
        rw e (walk_back-name c dir name k h))

walk_back-plain : (c : ℕ) (s : List ℕ) (i : ℕ) → HasNoSlash s → walk_back (c ∷ s) i ≡ c ∷ s
unfolding walk_back
walk_back-plain c s zero h = refl
walk_back-plain c s (suc i) h = rw (HasNoSlash-get_or s i h) (walk_back-plain c s i h)

-- Where a slash stands behind the first byte of a path, `gnu_basename` returns what stands behind
-- the last slash.
pub gnu_basename-name :
    (c : ℕ) (dir name : List ℕ) → HasNoSlash name → gnu_basename (c ∷ (dir ++ b'/' ∷ name)) ≡ name
unfolding gnu_basename
gnu_basename-name c dir name h =
    let full : (suc (length (dir ++ b'/' ∷ name)) == 0) ≡ false = ground arith in
    let e : suc (length (dir ++ b'/' ∷ name)) - 1 ≡ suc (length dir + length name) =
      omega (arith, length-append dir (b'/' ∷ name)) in
    rw (full, e) (walk_back-name c dir name (length name) h)

-- Where no slash stands behind the first byte of a path, `gnu_basename` returns the whole path, also
-- where the first byte is a slash.
pub gnu_basename-plain : (c : ℕ) (s : List ℕ) → HasNoSlash s → gnu_basename (c ∷ s) ≡ c ∷ s
unfolding gnu_basename
gnu_basename-plain c s h =
    let full : (suc (length s) == 0) ≡ false = ground arith in
    rw full (walk_back-plain c s (suc (length s) - 1) h)
