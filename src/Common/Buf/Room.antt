-- ===== src/Common/Buf/Room.antt =====
-- A `buf_t` has room for what is in it, and keeps it when it moves. (common_functions.c)
use open_tube_engine_old.Base.{
  ℕ, ◌+◌, ◌*◌, ◌%◌, ◌≤◌, ◌<◌, ◌≡◌, refl, inl, inr, Bool, [], ◌∷◌, arith, ltb, Bool-cases, u32_mod,
  add32, mul32, length, take, min, length-replicate, length-resize, take-resize,
}
use open_tube_engine_old.Common.Allocator.{
  Allocator, Holds, block, malloc-Holds, free-Holds, free_block-Holds, realloc-Holds, Holds-block,
  Holds-ne_null, realloc-ne_null,
}
use open_tube_engine_old.Common.Buf.{
  Buf, sizeof_buf, ptr_mod, undefined_byte, ptr_add, buf_create, buf_destroy, buf_realloc, buf_fit,
  buf_expand, buf_resize, buf_free,
}

scale-le : (s m n : ℕ) → m ≤ n → s * m ≤ s * n
scale-le s m n h = grind arith

-- The array has room for the reserve and for `cur_len` nodes, whose sizes do not wrap around; it is
-- NULL where it was moved to a size of 0, and only there.
pub record IsBuf (a : Allocator) (base : ℕ → Bool) (b : Buf) (h : a.Heap) : Type 0 where
  pub room : b.node_size * b.cur_len ≤ length b.bytes
  pub reserve : b.node_size * b.reserved_len ≤ length b.bytes
  pub no_wrap : b.node_size * b.reserved_len < u32_mod
  pub owns : Holds a base (block b.addr (b.self ∷ [])) h
  pub there : b.addr ≡ 0 → length b.bytes ≡ 0

-- The call returned a buffer of `len` nodes that begins with the first `n` bytes of `old`; a pointer
-- into the old block plus the returned distance points to the same place of the new one.
abbrev pub Grown : (a : Allocator) → (ℕ → Bool) → Buf → ℕ → ℕ → ℕ × Buf × a.Heap → Type 0
Grown a base old len n (d, b, h) =
    IsBuf a base b h
    × (b.cur_len ≡ len)
    × (take n b.bytes ≡ take n old.bytes)
    × ((k : ℕ) → ptr_add (old.addr + k) d ≡ (b.addr + k) % ptr_mod)

module _ (a : Allocator) (base : ℕ → Bool) where
  pub buf_create-IsBuf :
      (size len : ℕ) (h : a.Heap)
      → size * len < u32_mod
      → Holds a base [] h
      → let (b, h') = buf_create a size len h in IsBuf a base b h' × (b.cur_len ≡ 0)
  unfolding buf_create
  buf_create-IsBuf size len h lt own = (
    record {
      room = omega arith;
      reserve = omega (arith, length-replicate (mul32 size len) undefined_byte);
      no_wrap = lt;
      owns = Holds-block a base h2.0 (h1.0 ∷ []) h2.1 held;
      there = λ e. absurd (Holds-ne_null a base h2.0 (h1.0 ∷ []) h2.1 held e);
    },
    refl,
  )
    where
      h1 : ℕ × a.Heap
      h1 = a.malloc sizeof_buf h

      h2 : ℕ × a.Heap
      h2 = a.malloc (mul32 size len) h1.1

      held : Holds a base (h2.0 ∷ h1.0 ∷ []) h2.1
      held =
          malloc-Holds a base (mul32 size len) (h1.0 ∷ []) h1.1
            (malloc-Holds a base sizeof_buf [] h own)

  -- Everything is given back.
  pub buf_destroy-Holds :
      (b : Buf) (h : a.Heap) → IsBuf a base b h → Holds a base [] (buf_destroy a b h)
  unfolding buf_destroy
  buf_destroy-Holds b h v =
      free-Holds a base b.self [] (a.free b.addr h)
        (free_block-Holds a base b.addr (b.self ∷ []) h v.owns)

  -- `b` has its new `cur_len` already; the array is still as long as before.
  buf_fit-Grown :
      (b : Buf) (n : ℕ) (h : a.Heap)
      → b.node_size * b.cur_len < u32_mod
      → b.node_size * b.reserved_len ≤ length b.bytes
      → b.node_size * b.reserved_len < u32_mod
      → n ≤ length b.bytes
      → n ≤ b.node_size * b.cur_len
      → Holds a base (block b.addr (b.self ∷ [])) h
      → (b.addr ≡ 0 → length b.bytes ≡ 0)
      → Grown a base b b.cur_len n (buf_fit a b h)
  unfolding buf_fit buf_realloc
  buf_fit-Grown b n h lt res lt' in_bytes le own there =
      elim (Bool-cases (ltb b.reserved_len b.cur_len)) [
        | inl over ↦
            let size = mul32 b.node_size b.cur_len in
            rw over (
              record {
                room = omega (arith, length-resize size undefined_byte b.bytes);
                reserve =
                    let less =
                      scale-le b.node_size b.reserved_len b.cur_len (ground (arith, over)) in
                    omega (arith, length-resize size undefined_byte b.bytes);
                no_wrap = lt';
                owns = realloc-Holds a base b.addr size (b.self ∷ []) h own;
                there = λ e. omega (
                  arith,
                  length-resize size undefined_byte b.bytes,
                  realloc-ne_null a base b.addr size (b.self ∷ []) h own e,
                );
              },
              refl,
              take-resize n size undefined_byte b.bytes (omega arith) in_bytes,
              λ k. omega arith,
            )
        | inr within ↦ rw within (
          record {
            room =
                let less = scale-le b.node_size b.cur_len b.reserved_len (ground (arith, within)) in
                omega arith;
            reserve = res;
            no_wrap = lt';
            owns = own;
            there = there;
          },
          refl,
          refl,
          λ k. omega arith,
        )
      ]

  -- On a valid buffer, where neither the new number of nodes nor its size in bytes reaches 2^32,
  -- `buf_expand` leaves a valid buffer of `add` more nodes, keeps the bytes of those there were,
  -- and returns the distance by which the block moved.
  pub buf_expand-Grown :
      (b : Buf) (add : ℕ) (h : a.Heap)
      → IsBuf a base b h
      → b.cur_len + add < u32_mod
      → b.node_size * (b.cur_len + add) < u32_mod
      → Grown a base b (b.cur_len + add) (b.node_size * b.cur_len) (buf_expand a b add h)
  unfolding buf_expand
  buf_expand-Grown b add h v lt lt' =
      let e : add32 b.cur_len add ≡ b.cur_len + add = omega arith in
      rw e (
        buf_fit-Grown (record b { cur_len = b.cur_len + add }) (b.node_size * b.cur_len) h lt'
          v.reserve v.no_wrap v.room (omega arith) v.owns v.there)

  -- On a valid buffer, where the new size in bytes is below 2^32, `buf_resize` leaves a valid
  -- buffer of `new_size` nodes, keeps the bytes of the nodes that the old and the new buffer
  -- share, and returns the distance by which the block moved.
  pub buf_resize-Grown :
      (b : Buf) (n : ℕ) (h : a.Heap)
      → IsBuf a base b h
      → b.node_size * n < u32_mod
      → Grown a base b n (b.node_size * min n b.cur_len) (buf_resize a b n h)
  unfolding buf_resize
  buf_resize-Grown b n h v lt =
      buf_fit-Grown (record b { cur_len = n }) (b.node_size * min n b.cur_len) h lt v.reserve
        v.no_wrap
        (let le = scale-le b.node_size (min n b.cur_len) b.cur_len (omega arith) in
          omega (arith, v.room))
        (scale-le b.node_size (min n b.cur_len) n (omega arith)) v.owns v.there

  -- `buf_free` empties the buffer, and leaves it with the reserve.
  pub buf_free-IsBuf :
      (b : Buf) (h : a.Heap)
      → IsBuf a base b h
      → let (b', h') = buf_free a b h in
        IsBuf a base b' h' × (b'.cur_len ≡ 0) × (b'.reserved_len ≡ b.reserved_len)
  unfolding buf_free buf_realloc
  buf_free-IsBuf b h v = elim (Bool-cases (ltb b.reserved_len b.cur_len)) [
    | inl over ↦ rw over (
      record {
        room = omega arith;
        reserve = omega (
          arith,
          length-resize (mul32 b.node_size b.reserved_len) undefined_byte b.bytes,
          v.no_wrap,
        );
        no_wrap = v.no_wrap;
        owns =
            realloc-Holds a base b.addr (mul32 b.node_size b.reserved_len) (b.self ∷ []) h v.owns;
        there = λ e. omega (
          arith,
          length-resize (mul32 b.node_size b.reserved_len) undefined_byte b.bytes,
          realloc-ne_null a base b.addr (mul32 b.node_size b.reserved_len) (b.self ∷ []) h v.owns e,
        );
      },
      refl,
      refl,
    )
    | inr within ↦ rw within (
      record {
        room = omega arith;
        reserve = v.reserve;
        no_wrap = v.no_wrap;
        owns = v.owns;
        there = v.there;
      },
      refl,
      refl,
    )
  ]

  pub node_size-buf_expand :
      (b : Buf) (n : ℕ) (h : a.Heap) → (buf_expand a b n h).1.node_size ≡ b.node_size
  unfolding buf_expand buf_fit buf_realloc
  node_size-buf_expand b n h = elim (Bool-cases (ltb b.reserved_len (add32 b.cur_len n))) [
    | inl over ↦ rw over refl
    | inr within ↦ rw within refl
  ]
