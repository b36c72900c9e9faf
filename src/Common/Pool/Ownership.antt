-- ===== src/Common/Pool/Ownership.antt =====
-- What a `pool_t` owns: every operation keeps the nodes allocated exactly once, and stays inside
-- the array. (common_functions.c)
use open_tube_engine_old.Base.{
  ℕ, zero, suc, ◌+◌, ◌*◌, ◌≤◌, ◌<◌, max, ◌≡◌, refl, ap, ◌∙◌, Bool, List, [], ◌∷◌, ◌++◌, Option,
  none, some, arith, leb, leb→le, inl, inr, Bool-cases, u32_mod, add32, length, get_elem?, set,
  take, drop, resize, get_elem?-lt, drop-get_elem?, take-get_elem?, take_all, take-set, length-set,
  length-resize, take-resize, get_elem?-set_self,
}
use open_tube_engine_old.Common.Allocator.{
  Allocator, Holds, count, count-append, malloc-Holds, free-Holds, realloc-Holds, block,
  Holds-block, block-Holds, realloc-ne_null,
}
use open_tube_engine_old.Common.Pool.{
  Pool, sizeof_pool, sizeof_ptr, undefined_ptr, malloc_nodes, free_nodes, pool_create, pool_grow,
  pool_take, pool_alloc,
}

-- The structure, its array and the nodes in use or in reserve are allocated, each once; `base`
-- tells the blocks of everybody else.
pub record IsPool (a : Allocator) (base : ℕ → Bool) (len : ℕ) (p : Pool) (h : a.Heap) : Type 0 where
  pub reserve : p.real_len ≡ max p.cur_len len
  pub fits : p.real_len ≤ length p.data_cells
  pub bounded : p.real_len < u32_mod
  pub owns : Holds a base (p.self ∷ p.array ∷ take p.real_len p.data_cells) h

-- The nodes handed out since the last `pool_free`, in order.
abbrev pub handed_out : Pool → List ℕ
handed_out p = take p.cur_len p.data_cells

-- The call returned, with a pool that owns its nodes and has handed out one more.
abbrev pub HandsOut :
    (a : Allocator) → (ℕ → Bool) → ℕ → List ℕ → Option (ℕ × Pool × a.Heap) → Type 0
HandsOut a base len old none = ⊥
HandsOut a base len old (some (x, p, h)) = IsPool a base len p h × (handed_out p ≡ old ++ x ∷ [])

-- The call returned, with a pool that owns its nodes and has handed out those in `now`.
abbrev pub Leaves : (a : Allocator) → (ℕ → Bool) → ℕ → List ℕ → Option (Pool × a.Heap) → Type 0
Leaves a base len now none = ⊥
Leaves a base len now (some (p, h)) = IsPool a base len p h × (handed_out p ≡ now)

-- The call returned, and only the blocks of `base` are left.
abbrev pub LeavesNothing : (a : Allocator) → (ℕ → Bool) → Option a.Heap → Type 0
LeavesNothing a base none = ⊥
LeavesNothing a base (some h) = Holds a base [] h

module _ (a : Allocator) (base : ℕ → Bool) where
  -- The live blocks may be listed in another order.
  pub Holds-count :
      (xs ys : List ℕ) (h : a.Heap)
      → ((q : ℕ) → count q xs ≡ count q ys)
      → Holds a base xs h
      → Holds a base ys h
  Holds-count xs ys h e own q = omega (arith, e q, own q)

  malloc_nodes-Holds :
      (n size : ℕ) (xs : List ℕ) (h : a.Heap)
      → Holds a base xs h
      → Holds a base ((malloc_nodes a n size h).0 ++ xs) (malloc_nodes a n size h).1
  unfolding malloc_nodes
  malloc_nodes-Holds zero size xs h own = own
  malloc_nodes-Holds (suc n) size xs h own =
      let x = a.malloc size h in
      let rest = malloc_nodes a n size x.1 in
      Holds-count (rest.0 ++ x.0 ∷ xs) (x.0 ∷ (rest.0 ++ xs)) rest.1
        (λ q. omega (arith, count-append q rest.0 (x.0 ∷ xs), count-append q rest.0 xs))
        (malloc_nodes-Holds n size (x.0 ∷ xs) x.1 (malloc-Holds a base size xs h own))

  length-malloc_nodes : (n size : ℕ) (h : a.Heap) → length (malloc_nodes a n size h).0 ≡ n
  unfolding malloc_nodes
  length-malloc_nodes zero size h = refl
  length-malloc_nodes (suc n) size h = ap suc (length-malloc_nodes n size (a.malloc size h).1)

  pub free_nodes-Holds :
      (n i : ℕ) (xs rest : List ℕ) (h : a.Heap)
      → i + n ≤ length xs
      → Holds a base (take n (drop i xs) ++ rest) h
      → (h' : a.Heap) × (free_nodes a n i xs h ≡ some h') × Holds a base rest h'
  unfolding free_nodes
  free_nodes-Holds zero i xs rest h fits own = (h, refl, own)
  free_nodes-Holds (suc n) i xs rest h fits own =
      let (x, e) = get_elem?-lt xs i (omega arith) in
      let own' : Holds a base (take (suc n) (x ∷ drop (suc i) xs) ++ rest) h =
        rw (drop-get_elem? xs i e) at own in
      let (h', run, left) =
        free_nodes-Holds n (suc i) xs rest (a.free x h) (omega arith)
          (free-Holds a base x _ h own') in
      (h', rw (e, free_nodes) run, left)

  -- A new pool has its reserve.
  pub pool_create-IsPool :
      (size len : ℕ) (h : a.Heap)
      → len < u32_mod
      → Holds a base [] h
      → IsPool a base len (pool_create a size len h).0 (pool_create a size len h).1
  unfolding pool_create
  pool_create-IsPool size len h lt own = record {
    reserve = omega arith;
    fits = omega (arith, length-malloc_nodes len size h2.1);
    bounded = lt;
    owns =
        rw (take_all len nodes.0 (omega (arith, length-malloc_nodes len size h2.1)))
          (λ q. omega (arith, held q, count-append q nodes.0 (h2.0 ∷ h1.0 ∷ [])));
  }
    where
      h1 : ℕ × a.Heap
      h1 = a.malloc sizeof_pool h

      h2 : ℕ × a.Heap
      h2 = a.malloc (sizeof_ptr * len) h1.1

      nodes : List ℕ × a.Heap
      nodes = malloc_nodes a len size h2.1

      held : Holds a base (nodes.0 ++ h2.0 ∷ h1.0 ∷ []) nodes.1
      held = malloc_nodes-Holds len size (h2.0 ∷ h1.0 ∷ []) h2.1 (
          malloc-Holds a base (sizeof_ptr * len) (h1.0 ∷ []) h1.1
            (malloc-Holds a base sizeof_pool [] h own))

  -- A full pool grows by one node, in the first free cell; the others stay.
  pool_grow-Holds :
      (len : ℕ) (p : Pool) (h : a.Heap)
      → IsPool a base len p h
      → p.real_len ≤ p.cur_len
      → p.cur_len + 1 < u32_mod
      → let (p', h') = pool_grow a p h in
        (x : ℕ) × (get_elem? p'.data_cells p.cur_len ≡ some x)
        × (take p.cur_len p'.data_cells ≡ take p.cur_len p.data_cells)
        × (length p'.data_cells ≡ p.cur_len + 1)
        × (p'.cur_len ≡ p.cur_len)
        × (p'.real_len ≡ suc p.cur_len)
        × Holds a base (p'.self ∷ p'.array ∷ take (suc p.cur_len) p'.data_cells) h'
  unfolding pool_grow
  pool_grow-Holds len p h v full lt = (
    x.0,
    got,
    kept,
    length-set grown p.cur_len x.0 ∙ length_grown,
    refl,
    rw same (omega arith),
    rw (take-get_elem? (set grown p.cur_len x.0) p.cur_len got, kept)
        (λ q. omega (arith, held q, count-append q (take p.cur_len p.data_cells) (x.0 ∷ []))),
  )
    where
      same : p.real_len ≡ p.cur_len
      same = omega (arith, v.reserve)

      n : ℕ
      n = add32 p.cur_len 1

      array : ℕ × a.Heap
      array = a.realloc p.array (sizeof_ptr * n) h

      x : ℕ × a.Heap
      x = a.malloc p.node_size array.1

      grown : List ℕ
      grown = resize n undefined_ptr p.data_cells

      length_grown : length grown ≡ p.cur_len + 1
      length_grown = omega (arith, length-resize n undefined_ptr p.data_cells)

      got : get_elem? (set grown p.cur_len x.0) p.cur_len ≡ some x.0
      got = get_elem?-set_self grown p.cur_len x.0 (omega (arith, length_grown))

      kept : take p.cur_len (set grown p.cur_len x.0) ≡ take p.cur_len p.data_cells
      kept =
          take-set grown p.cur_len x.0
          ∙ take-resize p.cur_len n undefined_ptr p.data_cells (omega arith) (omega (arith, v.fits))

      before : Holds a base (block p.array (p.self ∷ take p.cur_len p.data_cells)) h
      before =
          Holds-block a base p.array (p.self ∷ take p.cur_len p.data_cells) h
            (λ q. omega (arith, rw same at (v.owns q)))

      held : Holds a base (x.0 ∷ array.0 ∷ p.self ∷ take p.cur_len p.data_cells) x.1
      held =
          malloc-Holds a base p.node_size (array.0 ∷ p.self ∷ take p.cur_len p.data_cells) array.1 (
            block-Holds a base array.0 (p.self ∷ take p.cur_len p.data_cells) array.1
              (λ e. omega (
                arith,
                realloc-ne_null a base p.array (sizeof_ptr * n)
                    (p.self ∷ take p.cur_len p.data_cells) h before e,
              ))
              (realloc-Holds a base p.array (sizeof_ptr * n) (p.self ∷ take p.cur_len p.data_cells)
                h before))

  -- Handing out the next of the allocated nodes.
  pool_take-HandsOut :
      (len : ℕ) (p : Pool) (h : a.Heap) (x : ℕ) (old : List ℕ)
      → get_elem? p.data_cells p.cur_len ≡ some x
      → p.cur_len + 1 < u32_mod
      → p.real_len ≡ max (suc p.cur_len) len
      → p.real_len ≤ length p.data_cells
      → p.real_len < u32_mod
      → Holds a base (p.self ∷ p.array ∷ take p.real_len p.data_cells) h
      → handed_out p ≡ old
      → HandsOut a base len old (pool_take a p h)
  unfolding pool_take
  pool_take-HandsOut len p h x old got lt most fits bounded owns was =
      let same : add32 p.cur_len 1 ≡ suc p.cur_len = omega arith in
      rw (got, pool_take)
        (
          record { reserve = rw same most; fits = fits; bounded = bounded; owns = owns },
          rw (same, ← was) (take-get_elem? p.data_cells p.cur_len got),
        )

  -- On a valid pool with fewer than 2^32 - 1 nodes handed out `pool_alloc` never reads beyond the
  -- array, leaves a valid pool, keeps the nodes handed out before, and hands out one more, which
  -- is a block held once like the others.
  pub pool_alloc-HandsOut :
      (len : ℕ) (p : Pool) (h : a.Heap)
      → IsPool a base len p h
      → p.cur_len + 1 < u32_mod
      → HandsOut a base len (handed_out p) (pool_alloc a p h)
  unfolding pool_alloc
  pool_alloc-HandsOut len p h v lt = elim (Bool-cases (leb p.real_len p.cur_len)) [
    | inl full ↦
        let full' = leb→le p.real_len p.cur_len full in
        let (x, got, kept, size, cur, real, own) = pool_grow-Holds len p h v full' lt in
        rw full (
          pool_take-HandsOut len (pool_grow a p h).0 (pool_grow a p h).1 x (handed_out p)
            (rw cur got) (rw cur lt) (rw (real, cur) (omega (arith, v.reserve)))
            (rw (real, size) (omega arith)) (rw real (omega arith)) (rw real own) (rw cur kept))
    | inr room ↦
        let (x, got) = get_elem?-lt p.data_cells p.cur_len (ground (arith, v.fits)) in
        rw room (
          pool_take-HandsOut len p h x (handed_out p) got lt (ground (arith, v.reserve)) v.fits
            v.bounded v.owns refl)
  ]
