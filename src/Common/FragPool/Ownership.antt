-- ===== src/Common/FragPool/Ownership.antt =====
-- What a `frag_pool_t` owns and hands out: taking and growing. (common_functions.c)
use open_tube_engine_old.Base.{
  ℕ, zero, suc, ◌+◌, ◌-◌, ◌*◌, ◌≤◌, ◌<◌, ◌≡◌, refl, ap, ◌∙◌, inl, inr, Bool, true, false, List, [],
  ◌∷◌, ◌++◌, Option, none, some, arith, Option-cases, length, get_elem?, take, take_all,
  length-append, u32_mod, add32,
}
use open_tube_engine_old.Common.Allocator.{
  Allocator, Holds, count, count-append, block, count-block, Holds-block, Holds-ne_null,
  realloc-ne_null, malloc-Holds, realloc-Holds,
}
use open_tube_engine_old.Common.FragPool.{
  Elem, FragPool, sizeof_frag_pool, sizeof_elem, find_free, is_free_at, mark_at, malloc_elems,
  frag_pool_create, frag_pool_grow, frag_pool_reuse, frag_pool_alloc,
}
use open_tube_engine_old.Common.FragPool.Tally.{
  tally, ptrs, tally-append, tally-mark_used, tally_one-le, ptrs-mark_at, ptrs-append,
  length-mark_at, is_free_at-mark_used, find_free_at,
}

-- `real_len` is the length of the array, `cur_len` the number of used elements; beyond the reserve
-- the last element is used; the structure, the array and each node are allocated once; the array
-- is NULL where it was moved to a length of 0, and only there.
pub record IsFragPool {ℓ} {A : Type ℓ} (a : Allocator) (base : ℕ → Bool) (p : FragPool A)
    (h : a.Heap) : Type 0 where
  pub size : length p.elems ≡ p.real_len
  pub bounded : p.real_len < u32_mod
  pub reserve : p.reserved_len ≤ p.real_len
  pub used : p.cur_len ≡ tally (λ _ _. 1) p.elems
  pub tight : p.reserved_len < p.real_len → is_free_at p.elems (p.real_len - 1) ≡ false
  pub owns : Holds a base (block p.array (p.self ∷ ptrs p.elems)) h
  pub there : p.array ≡ 0 → p.real_len ≡ 0

-- The call returned a node `x`, which joins the used ones of `old` with what `x` held before.
abbrev pub FragTakes :
    {A : Type 0} (a : Allocator)
    → (ℕ → Bool)
    → List (Elem A)
    → Option (ℕ × FragPool A × a.Heap)
    → Type 0
FragTakes a base old none = ⊥
FragTakes {A} a base old (some (x, p, h)) =
    IsFragPool a base p h × ((v : A) × ((f : ℕ → A → ℕ) → tally f p.elems ≡ f x v + tally f old))

module _ {A : Type 0} (a : Allocator) (base : ℕ → Bool) (undefined : A) where
  malloc_elems-Holds :
      (n size : ℕ) (xs : List ℕ) (h : a.Heap)
      → Holds a base xs h
      → Holds a base
          (ptrs (malloc_elems a undefined n size h).0 ++ xs)
          (malloc_elems a undefined n size h).1
  unfolding malloc_elems
  malloc_elems-Holds zero size xs h own = own
  malloc_elems-Holds (suc n) size xs h own =
      let x = a.malloc size h in
      let rest = malloc_elems a undefined n size x.1 in
      λ q. omega (
        arith,
        malloc_elems-Holds n size (x.0 ∷ xs) x.1 (malloc-Holds a base size xs h own) q,
        count-append q (ptrs rest.0) (x.0 ∷ xs),
        count-append q (ptrs rest.0) xs,
      )

  length-malloc_elems : (n size : ℕ) (h : a.Heap) → length (malloc_elems a undefined n size h).0 ≡ n
  unfolding malloc_elems
  length-malloc_elems zero size h = refl
  length-malloc_elems (suc n) size h = ap suc (length-malloc_elems n size (a.malloc size h).1)

  tally-malloc_elems :
      (f : ℕ → A → ℕ) (n size : ℕ) (h : a.Heap) → tally f (malloc_elems a undefined n size h).0 ≡ 0
  unfolding malloc_elems
  tally-malloc_elems f zero size h = refl
  tally-malloc_elems f (suc n) size h =
      omega (arith, tally-malloc_elems f n size (a.malloc size h).1)

  -- A new pool has its reserve, all of it free.
  pub frag_pool_create-IsFragPool :
      (size len : ℕ) (h : a.Heap)
      → len < u32_mod
      → Holds a base [] h
      → let (p, h') = frag_pool_create a undefined size len h in
        IsFragPool a base p h' × ((f : ℕ → A → ℕ) → tally f p.elems ≡ 0)
  unfolding frag_pool_create
  frag_pool_create-IsFragPool size len h lt own = (
    record {
      size = length-malloc_elems len size h2.1;
      bounded = lt;
      reserve = omega arith;
      used = omega (arith, tally-malloc_elems (λ _ _. 1) len size h2.1);
      tight = λ less. absurd (omega arith);
      owns = Holds-block a base h2.0 (h1.0 ∷ ptrs elems.0) elems.1 all;
      there = λ e. absurd (Holds-ne_null a base h2.0 (h1.0 ∷ ptrs elems.0) elems.1 all e);
    },
    λ f. tally-malloc_elems f len size h2.1,
  )
    where
      h1 : ℕ × a.Heap
      h1 = a.malloc sizeof_frag_pool h

      h2 : ℕ × a.Heap
      h2 = a.malloc (sizeof_elem * len) h1.1

      elems : List (Elem A) × a.Heap
      elems = malloc_elems a undefined len size h2.1

      held : Holds a base (ptrs elems.0 ++ h2.0 ∷ h1.0 ∷ []) elems.1
      held = malloc_elems-Holds len size (h2.0 ∷ h1.0 ∷ []) h2.1 (
          malloc-Holds a base (sizeof_elem * len) (h1.0 ∷ []) h1.1
            (malloc-Holds a base sizeof_frag_pool [] h own))

      all : Holds a base (h2.0 ∷ h1.0 ∷ ptrs elems.0) elems.1
      all q = omega (arith, held q, count-append q (ptrs elems.0) (h2.0 ∷ h1.0 ∷ []))

  is_free_at_last :
      (es : List (Elem A)) (e : Elem A) (n : ℕ)
      → length es ≡ n
      → is_free_at (es ++ e ∷ []) n ≡ e.free
  is_free_at_last [] e zero s = refl
  is_free_at_last [] e (suc n) s = absurd (omega arith)
  is_free_at_last (x ∷ es) e zero s = absurd (omega arith)
  is_free_at_last (x ∷ es) e (suc n) s = is_free_at_last es e n (omega arith)

  frag_pool_grow-FragTakes :
      (p : FragPool A) (h : a.Heap)
      → IsFragPool a base p h
      → p.real_len + 1 < u32_mod
      → FragTakes a base p.elems (some (frag_pool_grow a undefined p h))
  unfolding frag_pool_grow
  frag_pool_grow-FragTakes p h v lt = rw all (
    record {
      size = omega (arith, length-append p.elems (new ∷ []), v.size);
      bounded = omega arith;
      reserve = omega (arith, v.reserve);
      used =
          omega (
            arith,
            tally-append (λ _ _. 1) p.elems (new ∷ []),
            tally_one-le p.elems,
            v.used,
            v.size,
          );
      tight = λ less.
          let e : add32 p.real_len 1 - 1 ≡ p.real_len = omega arith in
          rw e (is_free_at_last p.elems new p.real_len v.size);
      owns = λ q. omega (
        arith,
        held q,
        ap (count q) (ptrs-append p.elems (new ∷ [])),
        count-append q (ptrs p.elems) (x.0 ∷ []),
        count-block q array.0 (p.self ∷ ptrs p.elems),
        count-block q array.0 (p.self ∷ ptrs (p.elems ++ new ∷ [])),
      );
      there = λ e. absurd (
          omega (
            arith,
            realloc-ne_null a base p.array (sizeof_elem * add32 p.real_len 1)
                (p.self ∷ ptrs p.elems) h v.owns e,
          ));
    },
    (undefined, λ f. omega (arith, tally-append f p.elems (new ∷ []))),
  )
    where
      array : ℕ × a.Heap
      array = a.realloc p.array (sizeof_elem * add32 p.real_len 1) h

      x : ℕ × a.Heap
      x = a.malloc p.node_size array.1

      new : Elem A
      new = record { ptr = x.0; free = false; node = undefined }

      all : take p.real_len p.elems ≡ p.elems
      all = take_all p.real_len p.elems (omega (arith, v.size))

      held : Holds a base (x.0 ∷ block array.0 (p.self ∷ ptrs p.elems)) x.1
      held = malloc-Holds a base p.node_size (block array.0 (p.self ∷ ptrs p.elems)) array.1 (
          realloc-Holds a base p.array (sizeof_elem * add32 p.real_len 1) (p.self ∷ ptrs p.elems) h
            v.owns)

  frag_pool_reuse-FragTakes :
      (p : FragPool A) (h : a.Heap) (i : ℕ) (e : Elem A)
      → IsFragPool a base p h
      → get_elem? p.elems i ≡ some e
      → e.free ≡ true
      → FragTakes a base p.elems (some (frag_pool_reuse a undefined p i e h))
  unfolding frag_pool_reuse
  frag_pool_reuse-FragTakes p h i e v got free = (
    record {
      size = length-mark_at false p.elems i ∙ v.size;
      bounded = v.bounded;
      reserve = v.reserve;
      used = omega (
        arith,
        tally-mark_used (λ _ _. 1) p.elems i e got free,
        tally_one-le (mark_at false p.elems i),
        length-mark_at false p.elems i,
        v.used,
        v.size,
        v.bounded,
      );
      tight = λ less. is_free_at-mark_used p.elems i (p.real_len - 1) (v.tight less);
      owns = rw (ptrs-mark_at false p.elems i) v.owns;
      there = v.there;
    },
    (e.node, λ f. tally-mark_used f p.elems i e got free),
  )

  -- On a valid pool with fewer than 2^32 - 1 elements `frag_pool_alloc` succeeds, leaves a valid
  -- pool, and returns a node that joins those in use, each of which it leaves as it was.
  pub frag_pool_alloc-FragTakes :
      (p : FragPool A) (h : a.Heap)
      → IsFragPool a base p h
      → p.real_len + 1 < u32_mod
      → FragTakes a base p.elems (frag_pool_alloc a undefined p h)
  unfolding frag_pool_alloc
  frag_pool_alloc-FragTakes p h v lt = elim (Option-cases (find_free p.real_len 0 p.elems)) [
    | inl full ↦ rw (full, frag_pool_alloc) (frag_pool_grow-FragTakes p h v lt)
    | inr (i, found) ↦
        let (e, got, free) = find_free_at p.real_len i p.elems found in
        rw (found, got, frag_pool_alloc) (frag_pool_reuse-FragTakes p h i e v got free)
  ]
