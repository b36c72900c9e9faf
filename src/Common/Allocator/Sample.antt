-- ===== src/Common/Allocator/Sample.antt =====
-- An allocator that satisfies the laws: the heap lists the live addresses, and a new block takes
-- the address above all of them.
use open_tube_engine_old.Base.{
  ℕ, suc, ◌<◌, max, ◌≡◌, refl, zero, ◌⊎◌, inl, inr, Bool, true, false, not, ◌&&◌, ◌||◌, List, [],
  ◌∷◌, ◌==◌, if◌then◌else◌, arith,
}
use open_tube_engine_old.Common.Allocator.{Allocator}

abbrev pub contains : ℕ → List ℕ → Bool
contains q [] = false
contains q (x ∷ xs) = q == x || contains q xs

abbrev pub remove : ℕ → List ℕ → List ℕ
remove p [] = []
remove p (x ∷ xs) = if x == p then remove p xs else x ∷ remove p xs

abbrev pub highest : List ℕ → ℕ
highest [] = 0
highest (x ∷ xs) = max x (highest xs)

contains_above : (q : ℕ) (xs : List ℕ) → highest xs < q → contains q xs ≡ false
contains_above q [] h = refl
contains_above q (x ∷ xs) h = ground (arith, contains_above q xs (omega arith))

pub contains-remove :
    (q p : ℕ) (xs : List ℕ) → contains q (remove p xs) ≡ (not (q == p) && contains q xs)
contains-remove q p [] = ground arith
contains-remove q p (x ∷ xs) = ground (arith, contains-remove q p xs)

pub sample_fresh : (h : List ℕ) → contains (suc (highest h)) h ≡ false
sample_fresh h = contains_above (suc (highest h)) h (omega arith)

abbrev pub sample_realloc : ℕ → ℕ → List ℕ → ℕ × List ℕ
sample_realloc p zero h = (0, remove p h)
sample_realloc zero (suc n) h = (suc (highest h), suc (highest h) ∷ h)
sample_realloc (suc p) (suc n) h = (suc p, h)

abbrev pub sample_is_live : ℕ → List ℕ → Bool
sample_is_live q h = not (q == 0) && contains q h

pub sample_realloc_fresh :
    (p n : ℕ) (h : List ℕ)
    → (p ≡ 0) ⊎ (sample_is_live p h ≡ true)
    → (sample_is_live (sample_realloc p n h).0 h ≡ false) ⊎ ((sample_realloc p n h).0 ≡ p)
sample_realloc_fresh p zero h v = inl refl
sample_realloc_fresh zero (suc n) h v = inl (ground (arith, sample_fresh h))
sample_realloc_fresh (suc p) (suc n) h v = inr refl

pub sample_realloc_live :
    (p n : ℕ) (h : List ℕ) (q : ℕ)
    → (p ≡ 0) ⊎ (sample_is_live p h ≡ true)
    → sample_is_live q (sample_realloc p n h).1
      ≡ ((q == (sample_realloc p n h).0 && not (q == 0)) || (not (q == p) && sample_is_live q h))
sample_realloc_live p zero h q v = ground (arith, contains-remove q p h)
sample_realloc_live zero (suc n) h q v = ground arith
sample_realloc_live (suc p) (suc n) h q v = ground arith

pub sample_realloc_null :
    (p n : ℕ) (h : List ℕ)
    → (p ≡ 0) ⊎ (sample_is_live p h ≡ true)
    → ((sample_realloc p n h).0 == 0) ≡ (n == 0)
sample_realloc_null p zero h v = refl
sample_realloc_null zero (suc n) h v = ground arith
sample_realloc_null (suc p) (suc n) h v = ground arith

pub sample_malloc_fresh : (h : List ℕ) → sample_is_live (suc (highest h)) h ≡ false
sample_malloc_fresh h = ground (arith, sample_fresh h)

pub sample_malloc_live :
    (q : ℕ) (h : List ℕ)
    → sample_is_live q (suc (highest h) ∷ h) ≡ (q == suc (highest h) || sample_is_live q h)
sample_malloc_live q h = ground arith

pub sample_free_live :
    (p q : ℕ) (h : List ℕ) → sample_is_live q (remove p h) ≡ (not (q == p) && sample_is_live q h)
sample_free_live p q h = ground (arith, contains-remove q p h)

abbrev pub sample : Allocator
sample = record {
  Heap = List ℕ;
  malloc = λ n h. (suc (highest h), suc (highest h) ∷ h);
  realloc = λ p n h. sample_realloc p n h;
  free = λ p h. remove p h;
  is_live = λ q h. sample_is_live q h;
  null_live = λ h. refl;
  malloc_fresh = λ n h. sample_malloc_fresh h;
  malloc_live = λ n h q. sample_malloc_live q h;
  realloc_fresh = λ p n h e. sample_realloc_fresh p n h e;
  realloc_live = λ p n h q e. sample_realloc_live p n h q e;
  realloc_null = λ p n h e. sample_realloc_null p n h e;
  free_live = λ p h q e. sample_free_live p q h;
}
