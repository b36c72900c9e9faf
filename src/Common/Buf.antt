-- ===== src/Common/Buf.antt =====
-- `buf_t`: a growing array. The caller is told by how much the block moved. (common_functions.c)
pub mod Room
use open_tube_engine_old.Base.{
  ℕ, ◌+◌, ◌-◌, ◌%◌, ◌^◌, Bool, List, ltb, if◌then◌else◌, resize, replicate, add32, mul32,
}
use open_tube_engine_old.Common.Allocator.{Allocator}

-- `self` is the block of the structure, `addr` that of the array (`data`); `bytes` are its bytes.
pub record Buf : Type 0 where
  pub cur_len : ℕ
  pub reserved_len : ℕ
  pub node_size : ℕ
  pub self : ℕ
  pub addr : ℕ
  pub bytes : List ℕ

abbrev pub sizeof_buf : ℕ
sizeof_buf = 24

abbrev pub ptr_mod : ℕ
ptr_mod = 2 ^ 64

-- A byte that nothing was written to has no defined value; 0 stands for it.
abbrev pub undefined_byte : ℕ
undefined_byte = 0

-- `intptr_t` differences, as 64-bit patterns.
abbrev pub ptr_sub : ℕ → ℕ → ℕ
ptr_sub p q = (p + (ptr_mod - q % ptr_mod)) % ptr_mod

abbrev pub ptr_add : ℕ → ℕ → ℕ
ptr_add p d = (p + d) % ptr_mod

module _ (a : Allocator) where
  unfoldable pub buf_create : ℕ → ℕ → a.Heap → Buf × a.Heap
  buf_create size res_len h =
      let (self, h1) = a.malloc sizeof_buf h in
      let (addr, h2) = a.malloc (mul32 size res_len) h1 in
      (
        record {
          cur_len = 0;
          reserved_len = res_len;
          node_size = size;
          self = self;
          addr = addr;
          bytes = replicate (mul32 size res_len) undefined_byte;
        },
        h2,
      )

  pub buf_destroy : Buf → a.Heap → a.Heap
  buf_destroy b h = a.free b.self (a.free b.addr h)

  -- `b->data = allocator_realloc(b->data, b->node_size * len)`
  pub buf_realloc : Buf → ℕ → a.Heap → Buf × a.Heap
  buf_realloc b len h =
      let (addr, h') = a.realloc b.addr (mul32 b.node_size len) h in
      (record b { addr = addr; bytes = resize (mul32 b.node_size len) undefined_byte b.bytes }, h')

  -- `if (b->cur_len > b->reserved_len)`: the array takes the size of `cur_len` nodes, and the
  -- distance from the old block to the new one is returned.
  pub buf_fit : Buf → a.Heap → ℕ × Buf × a.Heap
  buf_fit b h =
      if ltb b.reserved_len b.cur_len
      then (let (b', h') = buf_realloc b b.cur_len h in (ptr_sub b'.addr b.addr, b', h'))
      else (0, b, h)

  pub buf_expand : Buf → ℕ → a.Heap → ℕ × Buf × a.Heap
  buf_expand b add h = buf_fit (record b { cur_len = add32 b.cur_len add }) h

  -- `add` is the 32-bit pattern of an `int`.
  pub buf_expand_i : Buf → ℕ → a.Heap → ℕ × Buf × a.Heap
  buf_expand_i b add h = buf_fit (record b { cur_len = add32 b.cur_len add }) h

  pub buf_resize : Buf → ℕ → a.Heap → ℕ × Buf × a.Heap
  buf_resize b new_size h = buf_fit (record b { cur_len = new_size }) h

  pub buf_free : Buf → a.Heap → Buf × a.Heap
  buf_free b h =
      let (b', h') =
        if ltb b.reserved_len b.cur_len then buf_realloc b b.reserved_len h else (b, h) in
      (record b' { cur_len = 0 }, h')
