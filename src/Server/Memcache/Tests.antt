-- ===== src/Server/Memcache/Tests.antt =====
-- The cache at concrete inputs. (memcache.c)
use open_tube_engine_old.Base.{
  ℕ, ◌≡◌, refl, Bool, true, false, [], ◌∷◌, ◌++◌, none, some, arith, length, take,
}
use open_tube_engine_old.Common.Allocator.Sample.{sample}
use open_tube_engine_old.Server.Memcache.{
  Callback, Cached, Cache, Zlib, gzip, gzip_header, little_endian, has_name, find_cached,
  cache_find, gen_gzipped_value, update_cached, cache_update, cache_store,
}
use open_tube_engine_old.Server.Memcache.Store.{IsCache, Stored, cache_store-Stored}

abbrev nobody : ℕ → Bool
nobody q = false

-- A compression that keeps the first byte.
abbrev zlib : Zlib
zlib = record { deflate = λ s. some (take 1 s); crc32 = λ s. length s }

-- New contents are the name.
abbrev echo : Callback
echo t name = some name

abbrev page : Cached
page = record {
  key_str = 7;
  key_len = 2;
  value = b'x' ∷ b'y' ∷ [];
  gzipped_value = 31 ∷ b'x' ∷ [];
  update_callback = some echo;
  time = 50;
}

-- The block of names is at 5, and the key of the page begins behind two bytes of it.
abbrev pages : Cache
pages = record {
  entries = page ∷ [];
  names = record {
    cur_len = 4;
    reserved_len = 0;
    node_size = 1;
    self = 3;
    addr = 5;
    bytes = b'/' ∷ b'a' ∷ b'/' ∷ b'b' ∷ [];
  };
}

pages-IsCache : IsCache sample nobody pages (3 ∷ 5 ∷ [])
pages-IsCache = record {
  names = record {
    room = omega arith;
    reserve = omega arith;
    no_wrap = omega arith;
    owns = λ q. ground arith;
    there = λ e. absurd (omega arith);
  };
  of_bytes = refl;
  few = omega arith;
  keys = (record { place = 2; points = omega arith; within = omega arith }, tt);
}

cache_store-Stored_example :
    Stored sample nobody zlib 60
      (b'/' ∷ b'c' ∷ [])
      (b'z' ∷ [])
      none
      pages
      (cache_store zlib sample 60 (b'/' ∷ b'c' ∷ []) (b'z' ∷ []) none pages (3 ∷ 5 ∷ []))
cache_store-Stored_example =
    cache_store-Stored sample nobody zlib 60 (b'/' ∷ b'c' ∷ []) (b'z' ∷ []) none pages (3 ∷ 5 ∷ [])
      pages-IsCache (omega arith)

found_plain : cache_find (b'/' ∷ b'b' ∷ []) false pages ≡ some (b'x' ∷ b'y' ∷ [], 50, false)
unfolding cache_find find_cached has_name
found_plain = refl

found_gzipped : cache_find (b'/' ∷ b'b' ∷ []) true pages ≡ some (31 ∷ b'x' ∷ [], 50, true)
unfolding cache_find find_cached has_name
found_gzipped = refl

updated :
    cache_find (b'/' ∷ b'b' ∷ []) true (cache_update zlib 90 (b'/' ∷ b'b' ∷ []) pages)
    ≡ some (gzip_header ++ b'/' ∷ little_endian 2 ++ little_endian 2, 90, true)
unfolding cache_find find_cached has_name cache_update update_cached gen_gzipped_value gzip
updated = refl
