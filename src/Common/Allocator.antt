-- ===== src/Common/Allocator.antt =====
-- The allocator behind `allocator_malloc`, `allocator_realloc` and `allocator_free` (allocator.h
-- passes them to jemalloc or the C library): a parameter of the containers, with its documented
-- laws. The address 0 is NULL. As in the C library, `realloc` to size 0 frees the block and returns
-- NULL, `realloc` of NULL is `malloc`, `free` of NULL does nothing, and `malloc` of size 0 returns a
-- block of its own. Sizes are as the callers compute them. A failing `malloc` is not modelled: no
-- caller checks for it.
pub mod Sample
use open_tube_engine_old.Base.{
  ℕ, zero, suc, ◌+◌, ◌≡◌, ◌≢◌, refl, ◌⊎◌, inl, inr, Bool, true, false, not, ◌&&◌, ◌||◌, List, [],
  ◌∷◌, ◌++◌, ◌==◌, if◌then◌else◌, arith,
}

pub record Allocator : Type 1 where
  pub Heap : Type 0
  pub malloc : ℕ → Heap → ℕ × Heap
  pub realloc : ℕ → ℕ → Heap → ℕ × Heap
  pub free : ℕ → Heap → Heap
  pub is_live : ℕ → Heap → Bool
  pub null_live : (h : Heap) → is_live 0 h ≡ false
  pub malloc_fresh : (n : ℕ) (h : Heap) → is_live (malloc n h).0 h ≡ false
  pub malloc_live :
      (n : ℕ) (h : Heap) (q : ℕ) → is_live q (malloc n h).1 ≡ (q == (malloc n h).0 || is_live q h)
  pub realloc_fresh :
      (p n : ℕ) (h : Heap)
      → (p ≡ 0) ⊎ (is_live p h ≡ true)
      → (is_live (realloc p n h).0 h ≡ false) ⊎ ((realloc p n h).0 ≡ p)
  pub realloc_live :
      (p n : ℕ) (h : Heap) (q : ℕ)
      → (p ≡ 0) ⊎ (is_live p h ≡ true)
      → is_live q (realloc p n h).1
        ≡ ((q == (realloc p n h).0 && not (q == 0)) || (not (q == p) && is_live q h))
  pub realloc_null :
      (p n : ℕ) (h : Heap) → (p ≡ 0) ⊎ (is_live p h ≡ true) → ((realloc p n h).0 == 0) ≡ (n == 0)
  pub free_live :
      (p : ℕ) (h : Heap) (q : ℕ)
      → (p ≡ 0) ⊎ (is_live p h ≡ true)
      → is_live q (free p h) ≡ (not (q == p) && is_live q h)

abbrev pub one_if : Bool → ℕ
one_if b = if b then 1 else 0

abbrev pub count : ℕ → List ℕ → ℕ
count q [] = 0
count q (x ∷ xs) = one_if (q == x) + count q xs

pub count-append : (q : ℕ) (xs ys : List ℕ) → count q (xs ++ ys) ≡ count q xs + count q ys
count-append q [] ys = omega arith
count-append q (x ∷ xs) ys = omega (arith, count-append q xs ys)

-- A pointer that `realloc` returned: NULL is no block.
abbrev pub block : ℕ → List ℕ → List ℕ
block zero xs = xs
block (suc x) xs = suc x ∷ xs

abbrev pub one_block : ℕ → ℕ → ℕ
one_block q x = if x == 0 then 0 else one_if (q == x)

pub count-block : (q x : ℕ) (xs : List ℕ) → count q (block x xs) ≡ one_block q x + count q xs
count-block q zero xs = omega arith
count-block q (suc x) xs = ground arith

module _ (a : Allocator) where
  -- The live blocks are those of `xs`, each once, and those of `base`, which are others.
  abbrev pub Holds : (ℕ → Bool) → List ℕ → a.Heap → Type 0
  Holds base xs h = (q : ℕ) → count q xs + one_if (base q) ≡ one_if (a.is_live q h)

  pub Holds-live :
      (base : ℕ → Bool) (x : ℕ) (xs : List ℕ) (h : a.Heap)
      → Holds base (x ∷ xs) h
      → a.is_live x h ≡ true
  Holds-live base x xs h own = ground (arith, own x)

  pub malloc-Holds :
      (base : ℕ → Bool) (n : ℕ) (xs : List ℕ) (h : a.Heap)
      → Holds base xs h
      → Holds base ((a.malloc n h).0 ∷ xs) (a.malloc n h).1
  malloc-Holds base n xs h own q = ground (arith, own q, a.malloc_fresh n h, a.malloc_live n h q)

  pub free-Holds :
      (base : ℕ → Bool) (x : ℕ) (xs : List ℕ) (h : a.Heap)
      → Holds base (x ∷ xs) h
      → Holds base xs (a.free x h)
  free-Holds base x xs h own q =
      ground (arith, own q, a.free_live x h q (inr (Holds-live base x xs h own)))

  block-live :
      (base : ℕ → Bool) (x : ℕ) (xs : List ℕ) (h : a.Heap)
      → Holds base (block x xs) h
      → (x ≡ 0) ⊎ (a.is_live x h ≡ true)
  block-live base zero xs h own = inl refl
  block-live base (suc x) xs h own = inr (Holds-live base (suc x) xs h own)

  pub Holds-block :
      (base : ℕ → Bool) (x : ℕ) (xs : List ℕ) (h : a.Heap)
      → Holds base (x ∷ xs) h
      → Holds base (block x xs) h
  Holds-block base x xs h own q = ground (arith, own q, own 0, a.null_live h, count-block q x xs)

  pub Holds-ne_null :
      (base : ℕ → Bool) (x : ℕ) (xs : List ℕ) (h : a.Heap) → Holds base (x ∷ xs) h → x ≢ 0
  Holds-ne_null base x xs h own e = ground (arith, Holds-live base x xs h own, a.null_live h)

  pub free_block-Holds :
      (base : ℕ → Bool) (x : ℕ) (xs : List ℕ) (h : a.Heap)
      → Holds base (block x xs) h
      → Holds base xs (a.free x h)
  free_block-Holds base x xs h own q = ground (
    arith,
    own q,
    own 0,
    count-block q x xs,
    a.null_live h,
    a.free_live x h q (block-live base x xs h own),
  )

  pub realloc-Holds :
      (base : ℕ → Bool) (x n : ℕ) (xs : List ℕ) (h : a.Heap)
      → Holds base (block x xs) h
      → Holds base (block (a.realloc x n h).0 xs) (a.realloc x n h).1
  realloc-Holds base x n xs h own q =
      let valid = block-live base x xs h own in
      let new = (a.realloc x n h).0 in
      ground (
        arith,
        own q,
        own x,
        count-block q x xs,
        count-block x x xs,
        count-block q new xs,
        a.null_live h,
        a.realloc_fresh x n h valid,
        a.realloc_live x n h q valid,
      )

  -- The block is there unless its size is 0.
  pub realloc-ne_null :
      (base : ℕ → Bool) (x n : ℕ) (xs : List ℕ) (h : a.Heap)
      → Holds base (block x xs) h
      → (a.realloc x n h).0 ≡ 0
      → n ≡ 0
  realloc-ne_null base x n xs h own e =
      ground (arith, a.realloc_null x n h (block-live base x xs h own))

  pub block-Holds :
      (base : ℕ → Bool) (x : ℕ) (xs : List ℕ) (h : a.Heap)
      → x ≢ 0
      → Holds base (block x xs) h
      → Holds base (x ∷ xs) h
  block-Holds base zero xs h some_block own = absurd (some_block refl)
  block-Holds base (suc x) xs h some_block own = own
