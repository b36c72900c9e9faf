-- ===== src/Common/Pool/History.antt =====
-- A `pool_t` from its creation to its end, as the request structures use it: nodes are handed
-- out one by one, and all or the last of them taken back. (common_functions.c)
use open_tube_engine_old.Base.{
  ℕ, suc, ◌+◌, ◌-◌, ◌<◌, ◌≡◌, refl, ap, Bool, List, [], ◌∷◌, Option, none, some, arith, u32_mod,
  length, length-append, length-take, take,
}
use open_tube_engine_old.Common.Allocator.{Allocator, Holds}
use open_tube_engine_old.Common.Pool.{
  Pool, pool_create, pool_alloc, pool_free, pool_free_last, pool_destroy,
}
use open_tube_engine_old.Common.Pool.Ownership.{
  IsPool, HandsOut, Leaves, LeavesNothing, handed_out, pool_create-IsPool, pool_alloc-HandsOut,
}
use open_tube_engine_old.Common.Pool.Release.{
  pool_free-Leaves, pool_free_last-Leaves, pool_destroy-LeavesNothing,
}

pub data PoolCall : Type 0 where
  allocs frees frees_last : PoolCall

-- The calls that a client may make with `n` nodes in hand.
abbrev pub IsAllowed : ℕ → List PoolCall → Type 0
IsAllowed n [] = Unit {0}
IsAllowed n (allocs ∷ cs) = (n + 1 < u32_mod) × IsAllowed (suc n) cs
IsAllowed n (frees ∷ cs) = IsAllowed 0 cs
IsAllowed n (frees_last ∷ cs) = (0 < n) × IsAllowed (n - 1) cs

module _ (a : Allocator) where
  abbrev drop_node : Option (ℕ × Pool × a.Heap) → Option (Pool × a.Heap)
  drop_node none = none
  drop_node (some (x, p, h)) = some (p, h)

  abbrev and_then : Option (Pool × a.Heap) → (Pool → a.Heap → Option a.Heap) → Option a.Heap
  and_then none k = none
  and_then (some (p, h)) k = k p h

  pub pool_call : ℕ → PoolCall → Pool → a.Heap → Option (Pool × a.Heap)
  pool_call len allocs p h = drop_node (pool_alloc a p h)
  pool_call len frees p h = pool_free a p len h
  pool_call len frees_last p h = pool_free_last a p len h

  -- The calls, then `pool_destroy`.
  pub pool_calls : ℕ → List PoolCall → Pool → a.Heap → Option a.Heap
  pool_calls len [] p h = pool_destroy a p h
  pool_calls len (c ∷ cs) p h = and_then (pool_call len c p h) (pool_calls len cs)

  pub pool_lifetime : ℕ → ℕ → List PoolCall → a.Heap → Option a.Heap
  pool_lifetime size len cs h = let (p, h') = pool_create a size len h in pool_calls len cs p h'

-- The call returned, with a valid pool that has `n` nodes in hand.
abbrev Stays : (a : Allocator) → (ℕ → Bool) → ℕ → ℕ → Option (Pool × a.Heap) → Type 0
Stays a base len n none = ⊥
Stays a base len n (some (p, h)) = IsPool a base len p h × (p.cur_len ≡ n)

module _ (a : Allocator) (base : ℕ → Bool) where
  cur_len-handed_out :
      (len : ℕ) (p : Pool) (h : a.Heap) → IsPool a base len p h → p.cur_len ≡ length (handed_out p)
  cur_len-handed_out len p h v =
      omega (arith, v.reserve, v.fits, length-take p.cur_len p.data_cells)

  HandsOut-Stays :
      (len n : ℕ) (old : List ℕ) (r : Option (ℕ × Pool × a.Heap))
      → n ≡ length old
      → HandsOut a base len old r
      → Stays a base len (suc n) (drop_node a r)
  HandsOut-Stays len n old none e v = v
  HandsOut-Stays len n old (some (x, p, h)) e v = (
    v.0,
    omega (arith, cur_len-handed_out len p h v.0, ap length v.1, length-append old (x ∷ [])),
  )

  Leaves-Stays :
      (len n : ℕ) (now : List ℕ) (r : Option (Pool × a.Heap))
      → n ≡ length now
      → Leaves a base len now r
      → Stays a base len n r
  Leaves-Stays len n now none e v = v
  Leaves-Stays len n now (some (p, h)) e v =
      (v.0, omega (arith, cur_len-handed_out len p h v.0, ap length v.1))

  pool_call-Stays :
      (len : ℕ) (c : PoolCall) (cs : List PoolCall) (p : Pool) (h : a.Heap)
      → IsPool a base len p h
      → IsAllowed p.cur_len (c ∷ cs)
      → (n : ℕ) × Stays a base len n (pool_call a len c p h) × IsAllowed n cs
  unfolding pool_call
  pool_call-Stays len allocs cs p h v ok = (
    suc p.cur_len,
    HandsOut-Stays len p.cur_len (handed_out p) (pool_alloc a p h) (cur_len-handed_out len p h v)
        (pool_alloc-HandsOut a base len p h v ok.0),
    ok.1,
  )
  pool_call-Stays len frees cs p h v ok =
      (0, Leaves-Stays len 0 [] (pool_free a p len h) refl (pool_free-Leaves a base len p h v), ok)
  pool_call-Stays len frees_last cs p h v ok =
      let e : p.cur_len ≡ suc (p.cur_len - 1) = omega (arith, ok.0) in
      (
        p.cur_len - 1,
        Leaves-Stays len (p.cur_len - 1) (take (p.cur_len - 1) p.data_cells)
            (pool_free_last a p len h)
            (omega (arith, v.reserve, v.fits, length-take (p.cur_len - 1) p.data_cells))
            (pool_free_last-Leaves a base len (p.cur_len - 1) p h e v),
        ok.1,
      )

  and_then-LeavesNothing :
      (len n : ℕ) (r : Option (Pool × a.Heap)) (k : Pool → a.Heap → Option a.Heap)
      → ((p : Pool) (h : a.Heap)
          → IsPool a base len p h
          → p.cur_len ≡ n
          → LeavesNothing a base (k p h))
      → Stays a base len n r
      → LeavesNothing a base (and_then a r k)
  and_then-LeavesNothing len n none k go v = v
  and_then-LeavesNothing len n (some (p, h)) k go v = go p h v.0 v.1

  pub pool_calls-LeavesNothing :
      (len : ℕ) (cs : List PoolCall) (p : Pool) (h : a.Heap)
      → IsPool a base len p h
      → IsAllowed p.cur_len cs
      → LeavesNothing a base (pool_calls a len cs p h)
  unfolding pool_calls
  pool_calls-LeavesNothing len [] p h v ok = pool_destroy-LeavesNothing a base len p h v
  pool_calls-LeavesNothing len (c ∷ cs) p h v ok =
      let (n, stays, ok') = pool_call-Stays len c cs p h v ok in
      and_then-LeavesNothing len n (pool_call a len c p h) (pool_calls a len cs)
        (λ p' h' v' e. pool_calls-LeavesNothing len cs p' h' v' (rw e ok')) stays

module _ (a : Allocator) where
  -- For a reserve below 2^32 and any sequence of calls that gives back no more than it took and
  -- stays below 2^32 nodes, no call reads or frees outside the cells of the pool, and after
  -- `pool_destroy` exactly the blocks that were live before `pool_create` are live.
  pub pool_lifetime-LeavesNothing :
      (size len : ℕ) (cs : List PoolCall) (h : a.Heap)
      → len < u32_mod
      → IsAllowed 0 cs
      → LeavesNothing a (λ q. a.is_live q h) (pool_lifetime a size len cs h)
  unfolding pool_lifetime pool_create
  pool_lifetime-LeavesNothing size len cs h lt ok =
      let base : ℕ → Bool = λ q. a.is_live q h in
      let own : Holds a base [] h = λ q. omega arith in
      pool_calls-LeavesNothing a base len cs (pool_create a size len h).0
        (pool_create a size len h).1 (pool_create-IsPool a base size len h lt own) ok
