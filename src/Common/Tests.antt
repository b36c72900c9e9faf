-- ===== src/Common/Tests.antt =====
-- Runs of the containers of common_functions.c, and their theorems at concrete inputs.
use open_tube_engine_old.Base.{ℕ, ◌≡◌, refl, Bool, true, false, List, [], ◌∷◌, none, some, arith}
use open_tube_engine_old.Common.Allocator.{Holds}
use open_tube_engine_old.Common.Allocator.Sample.{sample}
use open_tube_engine_old.Common.Pool.{Pool, pool_create, pool_alloc}
use open_tube_engine_old.Common.Pool.Ownership.{
  IsPool, HandsOut, LeavesNothing, handed_out, pool_create-IsPool, pool_alloc-HandsOut,
}
use open_tube_engine_old.Common.Pool.History.{
  allocs, frees, frees_last, pool_lifetime, pool_lifetime-LeavesNothing,
}
use open_tube_engine_old.Common.FragPool.{
  Elem, FragPool, frag_pool_create, frag_pool_alloc, frag_pool_free, frag_pool_free_alt,
}
use open_tube_engine_old.Common.FragPool.Ownership.{
  IsFragPool, FragTakes, frag_pool_create-IsFragPool, frag_pool_alloc-FragTakes,
}
use open_tube_engine_old.Common.FragPool.Tail.{FragKeeps}
use open_tube_engine_old.Common.FragPool.Release.{
  frag_pool_free-FragKeeps, frag_pool_free_alt-FragKeeps,
}
use open_tube_engine_old.Common.Pqueue.{Pqueue, pqueue_push, pqueue_fetch}
use open_tube_engine_old.Common.Pqueue.Order.{
  IsPqueue, entries, entries-pqueue_push, pqueue_fetch_newest, pqueue_fetch_beyond,
}
use open_tube_engine_old.Common.Buf.{Buf, buf_expand, buf_resize}
use open_tube_engine_old.Common.Buf.Room.{IsBuf, Grown, buf_expand-Grown, buf_resize-Grown}

abbrev nobody : ℕ → Bool
nobody q = false

no_blocks : Holds sample nobody [] []
no_blocks q = ground arith

-- A pool with a reserve of two nodes, on an empty heap.
abbrev small : Pool × List ℕ
small = pool_create sample 16 2 []

small-IsPool : IsPool sample nobody 2 small.0 small.1
small-IsPool = pool_create-IsPool sample nobody 16 2 [] (omega arith) no_blocks

pool_lifetime-LeavesNothing_example :
    LeavesNothing sample
      (λ q. sample.is_live q (7 ∷ []))
      (pool_lifetime sample 16 2 (allocs ∷ allocs ∷ allocs ∷ frees_last ∷ frees ∷ []) (7 ∷ []))
pool_lifetime-LeavesNothing_example =
    pool_lifetime-LeavesNothing sample 16 2 (allocs ∷ allocs ∷ allocs ∷ frees_last ∷ frees ∷ [])
      (7 ∷ []) (omega arith) (omega arith)

pool_alloc-HandsOut_example :
    HandsOut sample nobody 2 (handed_out small.0) (pool_alloc sample small.0 small.1)
unfolding pool_create
pool_alloc-HandsOut_example =
    pool_alloc-HandsOut sample nobody 2 small.0 small.1 small-IsPool (omega arith)

-- A pool of four free nodes.
abbrev frags : FragPool ℕ × List ℕ
frags = frag_pool_create sample 0 4 4 []

frags-IsFragPool : IsFragPool sample nobody frags.0 frags.1
frags-IsFragPool = (frag_pool_create-IsFragPool sample nobody 0 4 4 [] (omega arith) no_blocks).0

frag_pool_alloc-FragTakes_example :
    FragTakes sample nobody frags.0.elems (frag_pool_alloc sample 0 frags.0 frags.1)
unfolding frag_pool_create
frag_pool_alloc-FragTakes_example =
    frag_pool_alloc-FragTakes sample nobody 0 frags.0 frags.1 frags-IsFragPool (omega arith)

abbrev elem : ℕ → Bool → ℕ → Elem ℕ
elem q b n = record { ptr = q; free = b; node = n }

-- Two nodes in use, with a free one between them, and a reserve of one.
abbrev mixed : FragPool ℕ
mixed = record {
  cur_len = 2;
  reserved_len = 1;
  real_len = 3;
  node_size = 4;
  self = 1;
  array = 2;
  elems = elem 3 false 30 ∷ elem 4 true 40 ∷ elem 5 false 50 ∷ [];
}

abbrev mixed_heap : List ℕ
mixed_heap = 1 ∷ 2 ∷ 3 ∷ 4 ∷ 5 ∷ []

mixed-IsFragPool : IsFragPool sample nobody mixed mixed_heap
mixed-IsFragPool = record {
  size = refl;
  bounded = omega arith;
  reserve = omega arith;
  used = refl;
  tight = λ _. refl;
  owns = λ q. ground arith;
  there = λ e. absurd (omega arith);
}

-- The node at 5 is given back by its address: 30 is left, and the tail shrinks.
frag_pool_free-FragKeeps_example :
    FragKeeps sample nobody (λ _ n. n) 30 (frag_pool_free sample mixed 5 mixed_heap)
frag_pool_free-FragKeeps_example =
    frag_pool_free-FragKeeps sample nobody (λ _ n. n) mixed 5 mixed_heap mixed-IsFragPool

frag_pool_free_alt-FragKeeps_example :
    FragKeeps sample nobody (λ _ n. n) 50 (frag_pool_free_alt sample mixed 0 mixed_heap)
frag_pool_free_alt-FragKeeps_example =
    frag_pool_free_alt-FragKeeps sample nobody (λ _ n. n) mixed 0 (elem 3 false 30) mixed_heap
      mixed-IsFragPool refl

-- One entry, in an array of two.
abbrev queue : Pqueue ℕ
queue = record { cur_len = 1; reserved_len = 2; cells = 7 ∷ 0 ∷ [] }

queue-IsPqueue : IsPqueue queue
queue-IsPqueue = record { room = omega arith; bounded = omega arith }

entries-pqueue_push_example :
    IsPqueue (pqueue_push 0 queue 8) × (entries (pqueue_push 0 queue 8) ≡ 7 ∷ 8 ∷ [])
entries-pqueue_push_example = entries-pqueue_push 0 queue 8 queue-IsPqueue (omega arith)

pqueue_fetch_newest_example :
    ((pqueue_fetch 0 queue).0 ≡ some 7)
    × IsPqueue (pqueue_fetch 0 queue).1
    × (entries (pqueue_fetch 0 queue).1 ≡ [])
pqueue_fetch_newest_example = pqueue_fetch_newest 0 queue [] 7 queue-IsPqueue refl (omega arith)

-- Three entries where one is the reserve.
abbrev long_queue : Pqueue ℕ
long_queue = record { cur_len = 3; reserved_len = 1; cells = 7 ∷ 8 ∷ 9 ∷ [] }

pqueue_fetch_beyond_example : (pqueue_fetch 0 long_queue).0 ≡ none
pqueue_fetch_beyond_example =
    pqueue_fetch_beyond 0 long_queue (record { room = omega arith; bounded = omega arith })
      (omega arith)

-- Two nodes of four bytes, with a reserve of one.
abbrev two_nodes : Buf
two_nodes = record {
  cur_len = 2;
  reserved_len = 1;
  node_size = 4;
  self = 1;
  addr = 2;
  bytes = 10 ∷ 11 ∷ 12 ∷ 13 ∷ 14 ∷ 15 ∷ 16 ∷ 17 ∷ [];
}

two_nodes-IsBuf : IsBuf sample nobody two_nodes (1 ∷ 2 ∷ [])
two_nodes-IsBuf = record {
  room = omega arith;
  reserve = omega arith;
  no_wrap = omega arith;
  owns = λ q. ground arith;
  there = λ e. absurd (omega arith);
}

buf_expand-Grown_example :
    Grown sample nobody two_nodes 5 8 (buf_expand sample two_nodes 3 (1 ∷ 2 ∷ []))
buf_expand-Grown_example =
    buf_expand-Grown sample nobody two_nodes 3 (1 ∷ 2 ∷ []) two_nodes-IsBuf (omega arith)
      (omega arith)

buf_resize-Grown_example :
    Grown sample nobody two_nodes 1 4 (buf_resize sample two_nodes 1 (1 ∷ 2 ∷ []))
buf_resize-Grown_example =
    buf_resize-Grown sample nobody two_nodes 1 (1 ∷ 2 ∷ []) two_nodes-IsBuf (omega arith)
