-- ===== src/Common/Pool/Release.antt =====
-- Nodes going back: `pool_free`, `pool_free_last` and `pool_destroy`, and whole histories of a
-- `pool_t`. (common_functions.c)
use open_tube_engine_old.Base.{
  ℕ, suc, ◌+◌, ◌-◌, ◌≡◌, refl, ap, ◌∙◌, Bool, List, [], ◌∷◌, ◌++◌, some, arith, leb, leb→le, inl,
  inr, Bool-cases, sub32, take, drop, get_elem?-lt, take-get_elem?, take-add,
}
use open_tube_engine_old.Common.Allocator.{Allocator, Holds, count, count-append, free-Holds}
use open_tube_engine_old.Common.Pool.{
  Pool, free_nodes, pool_free, pool_free_at, pool_free_last, pool_destroy,
}
use open_tube_engine_old.Common.Pool.Ownership.{IsPool, Leaves, LeavesNothing, free_nodes-Holds}

module _ (a : Allocator) (base : ℕ → Bool) where
  -- `pool_free` takes all nodes back and gives those beyond the reserve to the allocator.
  pub pool_free-Leaves :
      (len : ℕ) (p : Pool) (h : a.Heap)
      → IsPool a base len p h
      → Leaves a base len [] (pool_free a p len h)
  unfolding pool_free
  pool_free-Leaves len p h v =
      rw (freed.1, pool_free)
        (
          record {
            reserve = omega arith;
            fits = omega (arith, v.reserve, v.fits);
            bounded = omega (arith, v.reserve, v.bounded);
            owns = freed.2;
          },
          refl,
        )
    where
      beyond : ℕ
      beyond = p.real_len - len

      reserve : List ℕ
      reserve = p.self ∷ p.array ∷ take len p.data_cells

      parts :
          take p.real_len p.data_cells
          ≡ take len p.data_cells ++ take beyond (drop len p.data_cells)
      parts =
          let e : p.real_len ≡ len + beyond = omega (arith, v.reserve) in
          ap (λ k. take k p.data_cells) e ∙ take-add len beyond p.data_cells

      freed :
          (h' : a.Heap) × (free_nodes a beyond len p.data_cells h ≡ some h')
          × Holds a base reserve h'
      freed =
          free_nodes-Holds a base beyond len p.data_cells reserve h
            (omega (arith, v.reserve, v.fits))
            λ q. omega (
              arith,
              v.owns q,
              ap (count q) parts,
              count-append q (take len p.data_cells) (take beyond (drop len p.data_cells)),
              count-append q (take beyond (drop len p.data_cells)) reserve,
            )

  pool_free_at-Leaves :
      (len n : ℕ) (p : Pool) (h : a.Heap)
      → p.cur_len ≡ suc n
      → IsPool a base len p h
      → Leaves a base len (take n p.data_cells) (pool_free_at a p n len h)
  unfolding pool_free_at
  pool_free_at-Leaves len n p h e v = elim (Bool-cases (leb len n)) [
    | inl beyond ↦
        let (x, got) = get_elem?-lt p.data_cells n (omega (arith, v.reserve, v.fits)) in
        let most = leb→le len n beyond in
        let full : p.real_len ≡ suc n = omega (arith, v.reserve) in
        let less : sub32 p.real_len 1 ≡ n = omega (arith, v.bounded) in
        let parts = ap (λ k. take k p.data_cells) full ∙ take-get_elem? p.data_cells n got in
        rw (beyond, got)
          (
            record {
              reserve = omega (arith, less);
              fits = omega (arith, less, v.fits);
              bounded = omega (arith, less, v.bounded);
              owns = rw less (
                  free-Holds a base x (p.self ∷ p.array ∷ take n p.data_cells) h λ q. omega (
                    arith,
                    v.owns q,
                    ap (count q) parts,
                    count-append q (take n p.data_cells) (x ∷ []),
                  ));
            },
            refl,
          )
    | inr within ↦ rw within (
      record {
        reserve = ground (arith, v.reserve);
        fits = v.fits;
        bounded = v.bounded;
        owns = v.owns;
      },
      refl,
    )
  ]

  -- `pool_free_last` takes the last node back, and keeps the others.
  pub pool_free_last-Leaves :
      (len n : ℕ) (p : Pool) (h : a.Heap)
      → p.cur_len ≡ suc n
      → IsPool a base len p h
      → Leaves a base len (take n p.data_cells) (pool_free_last a p len h)
  unfolding pool_free_last
  pool_free_last-Leaves len n p h e v =
      let cur : sub32 p.cur_len 1 ≡ n = omega (arith, v.reserve, v.bounded) in
      rw cur (pool_free_at-Leaves len n p h e v)

  -- `pool_destroy` gives back all that the pool holds.
  pub pool_destroy-LeavesNothing :
      (len : ℕ) (p : Pool) (h : a.Heap)
      → IsPool a base len p h
      → LeavesNothing a base (pool_destroy a p h)
  unfolding pool_destroy
  pool_destroy-LeavesNothing len p h v =
      let (h', run, own) =
        free_nodes-Holds a base p.real_len 0 p.data_cells (p.array ∷ p.self ∷ []) h
          (omega (arith, v.fits))
          λ q. omega (
            arith,
            v.owns q,
            count-append q (take p.real_len p.data_cells) (p.array ∷ p.self ∷ []),
          ) in
      rw (run, pool_destroy)
        (free-Holds a base p.self [] (a.free p.array h')
          (free-Holds a base p.array (p.self ∷ []) h' own))
