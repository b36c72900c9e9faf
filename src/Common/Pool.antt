-- ===== src/Common/Pool.antt =====
-- `pool_t`: an array of equally sized nodes, handed out in order and reused from the start after
-- `pool_free`; the first `len` nodes, the reserve, stay allocated. (common_functions.c)
pub mod Ownership
pub mod Release
pub mod History
use open_tube_engine_old.Base.{
  ℕ, zero, suc, ◌-◌, ◌*◌, List, [], ◌∷◌, Option, none, some, leb, if◌then◌else◌, get_elem?, set,
  resize, add32, sub32,
}
use open_tube_engine_old.Common.Allocator.{Allocator}

-- `self` and `array` are the blocks of the structure and of its `data`. `data` lists the cells
-- of the array: what is beyond its end is no cell.
pub record Pool : Type 0 where
  pub cur_len : ℕ
  pub real_len : ℕ
  pub node_size : ℕ
  pub self : ℕ
  pub array : ℕ
  pub data_cells : List ℕ

abbrev pub sizeof_pool : ℕ
sizeof_pool = 24

abbrev pub sizeof_ptr : ℕ
sizeof_ptr = 8

-- A cell that nothing was written to has no defined value; 0 stands for it.
abbrev pub undefined_ptr : ℕ
undefined_ptr = 0

module _ (a : Allocator) where
  -- The loop that fills the reserve.
  pub malloc_nodes : ℕ → ℕ → a.Heap → List ℕ × a.Heap
  malloc_nodes zero size h = ([], h)
  malloc_nodes (suc n) size h =
      let (x, h1) = a.malloc size h in let (xs, h2) = malloc_nodes n size h1 in (x ∷ xs, h2)

  -- The loops `for (i = …; i < …; i++) allocator_free(p->data[i])`, over `n` rounds.
  pub free_nodes : ℕ → ℕ → List ℕ → a.Heap → Option a.Heap
  free_nodes zero i xs h = some h
  free_nodes (suc n) i xs h = elim (get_elem? xs i) [
    | none ↦ none
    | some x ↦ free_nodes n (suc i) xs (a.free x h)
  ]

  unfoldable pub pool_create : ℕ → ℕ → a.Heap → Pool × a.Heap
  pool_create size start_len h =
      let (self, h1) = a.malloc sizeof_pool h in
      let (array, h2) = a.malloc (sizeof_ptr * start_len) h1 in
      let (nodes, h3) = malloc_nodes start_len size h2 in
      (
        record {
          cur_len = 0;
          real_len = start_len;
          node_size = size;
          self = self;
          array = array;
          data_cells = nodes;
        },
        h3,
      )

  -- `if (p->cur_len >= p->real_len)`: one more cell, and a node for it.
  pub pool_grow : Pool → a.Heap → Pool × a.Heap
  pool_grow p h =
      let (array, h1) = a.realloc p.array (sizeof_ptr * add32 p.cur_len 1) h in
      let (x, h2) = a.malloc p.node_size h1 in
      (
        record p {
          array = array;
          data_cells = set (resize (add32 p.cur_len 1) undefined_ptr p.data_cells) p.cur_len x;
          real_len = add32 p.real_len 1;
        },
        h2,
      )

  -- `return p->data[p->cur_len++]`; `none` is a read beyond the array.
  pub pool_take : Pool → a.Heap → Option (ℕ × Pool × a.Heap)
  pool_take p h = elim (get_elem? p.data_cells p.cur_len) [
    | none ↦ none
    | some x ↦ some (x, record p { cur_len = add32 p.cur_len 1 }, h)
  ]

  pub pool_alloc : Pool → a.Heap → Option (ℕ × Pool × a.Heap)
  pool_alloc p h =
      if leb p.real_len p.cur_len
      then (let (p', h') = pool_grow p h in pool_take p' h')
      else pool_take p h

  pub pool_free : Pool → ℕ → a.Heap → Option (Pool × a.Heap)
  pool_free p len h = elim (free_nodes (p.real_len - len) len p.data_cells h) [
    | none ↦ none
    | some h' ↦ some (record p { cur_len = 0; real_len = len }, h')
  ]

  -- `pool_free_last` once `cur_len` is `cur`.
  pub pool_free_at : Pool → ℕ → ℕ → a.Heap → Option (Pool × a.Heap)
  pool_free_at p cur len h =
      if leb len cur
      then elim (get_elem? p.data_cells cur) [
        | none ↦ none
        | some x ↦ some (record p { cur_len = cur; real_len = sub32 p.real_len 1 }, a.free x h)
      ]
      else some (record p { cur_len = cur }, h)

  pub pool_free_last : Pool → ℕ → a.Heap → Option (Pool × a.Heap)
  pool_free_last p len h = pool_free_at p (sub32 p.cur_len 1) len h

  pub pool_destroy : Pool → a.Heap → Option a.Heap
  pool_destroy p h = elim (free_nodes p.real_len 0 p.data_cells h) [
    | none ↦ none
    | some h' ↦ some (a.free p.self (a.free p.array h'))
  ]
