-- ===== src/Common/Pqueue.antt =====
-- `pqueue_t`: the array of pointers through which requests reach the worker threads. The entry
-- pushed last is fetched first. (common_functions.c)
pub mod Order
use open_tube_engine_old.Base.{
  ℕ, ◌-◌, Bool, List, Option, none, some, ltb, if◌then◌else◌, get_elem?, set, resize, replicate,
  length, add32, sub32,
}

-- `cells` lists the cells of the array `data`: what is beyond its end is no cell.
pub record Pqueue {ℓ} (A : Type ℓ) : Type ℓ where
  pub cur_len : ℕ
  pub reserved_len : ℕ
  pub cells : List A

-- `undefined` stands for what a cell holds that nothing was written to.
module _ {ℓ} {A : Type ℓ} (undefined : A) where
  pub pqueue_create : ℕ → Pqueue A
  pqueue_create res_len = record {
    cur_len = 0;
    reserved_len = res_len;
    cells = replicate res_len undefined;
  }

  -- `if (p->cur_len > p->reserved_len) p->data = allocator_realloc(...)`
  pub pqueue_fit : Pqueue A → Pqueue A
  pqueue_fit p =
      if ltb p.reserved_len p.cur_len
      then record p { cells = resize p.cur_len undefined p.cells }
      else p

  pub pqueue_push : Pqueue A → A → Pqueue A
  pqueue_push p x =
      let q = pqueue_fit (record p { cur_len = add32 p.cur_len 1 }) in
      record q { cells = set q.cells (sub32 q.cur_len 1) x }

  -- The entry is `none` where the code reads beyond the array.
  pub pqueue_fetch : Pqueue A → Option A × Pqueue A
  pqueue_fetch p =
      let q = pqueue_fit (record p { cur_len = sub32 p.cur_len 1 }) in
      (get_elem? q.cells q.cur_len, q)
