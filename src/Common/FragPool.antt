-- ===== src/Common/FragPool.antt =====
-- `frag_pool_t`: nodes that are taken and given back in any order, each marked free or used; the
-- unused tail beyond the first `reserved_len` nodes is given back to the allocator.
-- (common_functions.c)
pub mod Tally
pub mod Ownership
pub mod Tail
pub mod Release
pub mod Prefix
pub mod Writes
use open_tube_engine_old.Base.{
  ℕ, zero, suc, ◌+◌, ◌-◌, ◌*◌, Bool, true, false, not, ◌&&◌, List, [], ◌∷◌, ◌++◌, Option, none,
  some, leb, ◌==◌, if◌then◌else◌, get_elem?, set, take, length, add32, sub32,
}
use open_tube_engine_old.Common.Allocator.{Allocator}

-- `frag_pool_elem_t`. `node` is what the block at `ptr` (the field `data`) holds.
pub record Elem {ℓ} (A : Type ℓ) : Type ℓ where
  pub ptr : ℕ
  pub free : Bool
  pub node : A

-- `self` and `array` are the blocks of the structure and of `e`. `elems` lists the cells of the
-- array: what is beyond its end is no cell.
pub record FragPool {ℓ} (A : Type ℓ) : Type ℓ where
  pub cur_len : ℕ
  pub reserved_len : ℕ
  pub real_len : ℕ
  pub node_size : ℕ
  pub self : ℕ
  pub array : ℕ
  pub elems : List (Elem A)

abbrev pub sizeof_frag_pool : ℕ
sizeof_frag_pool = 24

abbrev pub sizeof_elem : ℕ
sizeof_elem = 16

-- The index of the first free element among the next `n`, which begin at index `i`.
pub find_free {ℓ} : {A : Type ℓ} → ℕ → ℕ → List (Elem A) → Option ℕ
find_free zero i es = none
find_free (suc n) i [] = none
find_free (suc n) i (e ∷ es) = if e.free then some i else find_free n (suc i) es

-- The index of the used element that holds `ptr`, where there is one; the outer `none` is a read
-- beyond the array.
pub find_used {ℓ} : {A : Type ℓ} → ℕ → ℕ → ℕ → List (Elem A) → Option (Option ℕ)
find_used ptr zero i es = some none
find_used ptr (suc n) i [] = none
find_used ptr (suc n) i (e ∷ es) =
    if not e.free && e.ptr == ptr then some (some i) else find_used ptr n (suc i) es

-- `p->e[i].free`; beyond the array it is not read by valid calls.
abbrev pub is_free_at {ℓ} : {A : Type ℓ} → List (Elem A) → ℕ → Bool
is_free_at es i = elim (get_elem? es i) [ none ↦ false | some e ↦ e.free ]

abbrev pub mark_at {ℓ} : {A : Type ℓ} → Bool → List (Elem A) → ℕ → List (Elem A)
mark_at b [] i = []
mark_at b (e ∷ es) zero = record e { free = b } ∷ es
mark_at b (e ∷ es) (suc i) = e ∷ mark_at b es i

-- A node written through its pointer, and one written through `e[i].data`.
abbrev pub write_node {ℓ} : {A : Type ℓ} → ℕ → A → List (Elem A) → List (Elem A)
write_node x v [] = []
write_node x v (e ∷ es) = (if e.ptr == x then record e { node = v } else e) ∷ write_node x v es

abbrev pub set_node {ℓ} : {A : Type ℓ} → List (Elem A) → ℕ → A → List (Elem A)
set_node [] i v = []
set_node (e ∷ es) zero v = record e { node = v } ∷ es
set_node (e ∷ es) (suc i) v = e ∷ set_node es i v

-- `undefined` stands for the contents of a block that nothing was written to.
module _ {ℓ} {A : Type ℓ} (a : Allocator) (undefined : A) where
  pub malloc_elems : ℕ → ℕ → a.Heap → List (Elem A) × a.Heap
  malloc_elems zero size h = ([], h)
  malloc_elems (suc n) size h =
      let (x, h1) = a.malloc size h in
      let (es, h2) = malloc_elems n size h1 in
      (record { ptr = x; free = true; node = undefined } ∷ es, h2)

  unfoldable pub frag_pool_create : ℕ → ℕ → a.Heap → FragPool A × a.Heap
  frag_pool_create size res_len h =
      let (self, h1) = a.malloc sizeof_frag_pool h in
      let (array, h2) = a.malloc (sizeof_elem * res_len) h1 in
      let (es, h3) = malloc_elems res_len size h2 in
      (
        record {
          cur_len = 0;
          reserved_len = res_len;
          real_len = res_len;
          node_size = size;
          self = self;
          array = array;
          elems = es;
        },
        h3,
      )

  -- No free element: the array grows by one, which is used at once.
  pub frag_pool_grow : FragPool A → a.Heap → ℕ × FragPool A × a.Heap
  frag_pool_grow p h =
      let (array, h1) = a.realloc p.array (sizeof_elem * add32 p.real_len 1) h in
      let (x, h2) = a.malloc p.node_size h1 in
      (
        x,
        record p {
          cur_len = add32 p.cur_len 1;
          real_len = add32 p.real_len 1;
          array = array;
          elems =
              take p.real_len p.elems ++ record { ptr = x; free = false; node = undefined } ∷ [];
        },
        h2,
      )

  -- The element found free at index `i`: marked used, and its block returned.
  pub frag_pool_reuse : FragPool A → ℕ → Elem A → a.Heap → ℕ × FragPool A × a.Heap
  frag_pool_reuse p i e h =
      (e.ptr, record p { cur_len = add32 p.cur_len 1; elems = mark_at false p.elems i }, h)

  pub frag_pool_alloc : FragPool A → a.Heap → Option (ℕ × FragPool A × a.Heap)
  frag_pool_alloc p h = elim (find_free p.real_len 0 p.elems) [
    | none ↦ some (frag_pool_grow p h)
    | some i ↦ elim (get_elem? p.elems i) [ none ↦ none | some e ↦ some (frag_pool_reuse p i e h) ]
  ]

module _ {ℓ} {A : Type ℓ} (a : Allocator) where
  -- The last element, at index `i`, goes back to the allocator, and the array shrinks.
  pub frag_drop_last : FragPool A → ℕ → Elem A → a.Heap → FragPool A × a.Heap
  frag_drop_last p i e h =
      let (array, h') = a.realloc p.array (sizeof_elem * sub32 p.real_len 1) (a.free e.ptr h) in
      (record p { real_len = sub32 p.real_len 1; array = array; elems = take i p.elems }, h')

  -- `i >= p->reserved_len` and `i == p->real_len - 1`
  abbrev pub is_spare_last : FragPool A → ℕ → Bool
  is_spare_last p i = leb p.reserved_len i && i == sub32 p.real_len 1

  -- `_frag_try_internal_pool_free` on the element `e` at index `i`
  pub frag_try : ℕ → FragPool A → a.Heap → Option (FragPool A × a.Heap)
  frag_try zero p h =
      if is_spare_last p zero
      then (elim (get_elem? p.elems zero) [
        | none ↦ none
        | some e ↦ some (frag_drop_last p zero e h)
      ])
      else some (p, h)
  frag_try (suc i) p h = elim (is_spare_last p (suc i)) [
    | false ↦ some (p, h)
    | true ↦ elim (get_elem? p.elems (suc i)) [
      | none ↦ none
      | some e ↦
          let (p', h') = frag_drop_last p (suc i) e h in
          let rest = frag_try i p' h' in if is_free_at p'.elems i then rest else some (p', h')
    ]
  ]

  pub frag_release : FragPool A → ℕ → a.Heap → Option (FragPool A × a.Heap)
  frag_release p i h =
      frag_try i (record p { cur_len = sub32 p.cur_len 1; elems = mark_at true p.elems i }) h

  -- `frag_pool_free_alt`: by index. `none` is a read beyond the array.
  pub frag_pool_free_alt : FragPool A → ℕ → a.Heap → Option (FragPool A × a.Heap)
  frag_pool_free_alt p i h = elim (get_elem? p.elems i) [
    | none ↦ none
    | some e ↦ if not e.free then frag_release p i h else some (p, h)
  ]

  -- `frag_pool_free`: by pointer. `none` is a read beyond the array.
  pub frag_pool_free : FragPool A → ℕ → a.Heap → Option (FragPool A × a.Heap)
  frag_pool_free p ptr h = elim (find_used ptr p.real_len 0 p.elems) [
    | none ↦ none
    | some none ↦ some (p, h)
    | some (some i) ↦ frag_release p i h
  ]
