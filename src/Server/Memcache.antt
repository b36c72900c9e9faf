-- ===== src/Server/Memcache.antt =====
-- The cache of pages in memory. (memcache.c)
mod Tests
pub mod Keys
pub mod Moves
pub mod Store
use open_tube_engine_old.Base.{
  ℕ, ◌+◌, ◌-◌, ◌/◌, ◌%◌, Bool, true, false, not, ◌&&◌, List, [], ◌∷◌, ◌++◌, map, Option, none, some,
  ◌==◌, ltb, if◌then◌else◌, length, take, drop,
}
use open_tube_engine_old.Http.Chars.{Bytes}
use open_tube_engine_old.Http.Headers.{equal_bytes}
use open_tube_engine_old.Common.Allocator.{Allocator}
use open_tube_engine_old.Common.Buf.{Buf, ptr_sub, ptr_add, buf_expand}

-- `cache_update_cb`: new contents, or NULL.
abbrev pub Callback : Type 0
Callback = ℕ → Bytes → Option Bytes

-- `cache_t`. The key is a pointer into the block of `cache_names`; the values are their bytes, and
-- no bytes where `gzipped_value.len` is 0.
pub record Cached : Type 0 where
  pub key_str : ℕ
  pub key_len : ℕ
  pub value : Bytes
  pub gzipped_value : Bytes
  pub update_callback : Option Callback
  pub time : ℕ

-- `entries` are the structures in the buffer `cache`, `names` is the buffer `cache_names`.
pub record Cache : Type 0 where
  pub entries : List Cached
  pub names : Buf

-- `len` bytes from a pointer into the block on.
abbrev pub read_bytes : Buf → ℕ → ℕ → Bytes
read_bytes b p len = take len (drop (ptr_sub p b.addr) b.bytes)

abbrev pub write_bytes : Bytes → ℕ → Bytes → Bytes
write_bytes s k xs = take k xs ++ (s ++ drop (k + length s) xs)

unfoldable pub has_name : Bytes → Buf → Cached → Bool
has_name name names c =
    length name == c.key_len && equal_bytes name (read_bytes names c.key_str c.key_len)

-- The value found with its time, and what becomes of `accept_gzip`.
abbrev pub hit : Bool → Cached → Bytes × ℕ × Bool
hit accept c =
    if accept && ltb 0 (length c.gzipped_value)
    then (c.gzipped_value, c.time, accept)
    else (c.value, c.time, false)

unfoldable pub find_cached : Bytes → Bool → Buf → List Cached → Option (Bytes × ℕ × Bool)
find_cached name accept names [] = none
find_cached name accept names (c ∷ cs) =
    let rest = find_cached name accept names cs in
    if has_name name names c then some (hit accept c) else rest

unfoldable pub cache_find : Bytes → Bool → Cache → Option (Bytes × ℕ × Bool)
cache_find name accept c = find_cached name accept c.names c.entries

unfoldable pub ajust_key_ptrs : ℕ → List Cached → List Cached
ajust_key_ptrs offset [] = []
ajust_key_ptrs offset (c ∷ cs) =
    record c { key_str = ptr_add c.key_str offset } ∷ ajust_key_ptrs offset cs

-- zlib: the deflated bytes, or none for an error, and the check sum.
pub record Zlib : Type 0 where
  pub deflate : Bytes → Option Bytes
  pub crc32 : Bytes → ℕ

-- GZIP_HEADER of libs/zlib.h, where Z_DEFLATED is 8.
abbrev pub gzip_header : Bytes
gzip_header = 31 ∷ 139 ∷ 8 ∷ 0 ∷ 0 ∷ 0 ∷ 0 ∷ 0 ∷ 0 ∷ 3 ∷ []

-- A 32-bit number in the order of bytes that the format has.
abbrev pub little_endian : ℕ → Bytes
little_endian n = n % 256 ∷ n / 256 % 256 ∷ n / 65536 % 256 ∷ n / 16777216 % 256 ∷ []

unfoldable pub gzip : Zlib → Bytes → Option Bytes
gzip zlib s = elim (zlib.deflate s) [
  | none ↦ none
  | some z ↦ some (gzip_header ++ (z ++ (little_endian (zlib.crc32 s) ++ little_endian (length s))))
]

module _ (zlib : Zlib) where
  unfoldable pub gen_gzipped_value : Cached → Cached
  gen_gzipped_value c = elim (gzip zlib c.value) [
    | none ↦ record c { gzipped_value = [] }
    | some z ↦ record c { gzipped_value = z }
  ]

  abbrev pub refresh : ℕ → Bytes → Cached → Cached
  refresh curtime name c = elim c.update_callback [
    | none ↦ c
    | some f ↦ elim (f c.time name) [
      | none ↦ c
      | some s ↦ gen_gzipped_value (record c { value = s; time = curtime })
    ]
  ]

  unfoldable pub update_cached : ℕ → Bytes → Buf → List Cached → List Cached
  update_cached curtime name names [] = []
  update_cached curtime name names (c ∷ cs) =
      let rest = update_cached curtime name names cs in
      if has_name name names c then refresh curtime name c ∷ cs else c ∷ rest

  unfoldable pub cache_update : ℕ → Bytes → Cache → Cache
  cache_update curtime name c = record c { entries = update_cached curtime name c.names c.entries }

  abbrev pub new_cached : ℕ → ℕ → Bytes → Bytes → Option Callback → Cached
  new_cached curtime p name s f = gen_gzipped_value (record {
    key_str = p;
    key_len = length name;
    value = s;
    gzipped_value = [];
    update_callback = f;
    time = curtime;
  })

  -- The growth of the buffer `cache` is that of the list.
  unfoldable pub cache_store :
      (a : Allocator) → ℕ → Bytes → Bytes → Option Callback → Cache → a.Heap → Cache × a.Heap
  cache_store a curtime name s f c h =
      let (offset, names, h') = buf_expand a c.names (length name) h in
      let old = if not (offset == 0) then ajust_key_ptrs offset c.entries else c.entries in
      let at = names.cur_len - length name in
      (
        record {
          entries = old ++ new_cached curtime (ptr_add names.addr at) name s f ∷ [];
          names = record names { bytes = write_bytes name at names.bytes };
        },
        h',
      )
