-- ===== src/Server/Memcache/Store.antt =====
-- What is stored is found, and nothing else is lost. (memcache.c)
use open_tube_engine_old.Base.{
  ℕ, suc, ◌+◌, ◌-◌, ◌*◌, ◌≤◌, ◌<◌, ◌≡◌, refl, sym, ap, ◌∙◌, subst, Bool, true, false, not, ◌&&◌,
  List, [], ◌∷◌, ◌++◌, Option, none, some, ◌==◌, ltb, inl, inr, if◌then◌else◌, Bool-cases,
  Option-cases, arith, length, take, drop, u32_mod,
}
use open_tube_engine_old.Http.Chars.{Bytes}
use open_tube_engine_old.Http.Headers.{equal_bytes}
use open_tube_engine_old.Common.Allocator.{Allocator}
use open_tube_engine_old.Common.Buf.{Buf, ptr_sub, ptr_add, buf_expand}
use open_tube_engine_old.Common.Buf.Room.{IsBuf, Grown, buf_expand-Grown, node_size-buf_expand}
use open_tube_engine_old.Server.Memcache.{
  Callback, Cached, Cache, Zlib, gzip, read_bytes, write_bytes, has_name, hit, find_cached,
  cache_find, ajust_key_ptrs, gen_gzipped_value, new_cached, cache_store,
}
use open_tube_engine_old.Server.Memcache.Keys.{
  IsKey, slice-write_bytes, take-write_bytes, length-write_bytes, ptr_sub_place,
}
use open_tube_engine_old.Server.Memcache.Moves.{AreKeys, moved-AreKeys, moved-find, ajusted}

-- The block of names is valid, and every key is a slice of it.
pub record IsCache (a : Allocator) (base : ℕ → Bool) (c : Cache) (h : a.Heap) : Type 0 where
  pub names : IsBuf a base c.names h
  pub of_bytes : c.names.node_size ≡ 1
  pub few : c.names.cur_len < u32_mod
  pub keys : AreKeys c.names c.entries

abbrev first_of : Option (Bytes × ℕ × Bool) → Option (Bytes × ℕ × Bool) → Option (Bytes × ℕ × Bool)
first_of none y = y
first_of (some x) y = some x

find-append :
    (name : Bytes) (accept : Bool) (names : Buf) (cs ds : List Cached)
    → find_cached name accept names (cs ++ ds)
      ≡ first_of (find_cached name accept names cs) (find_cached name accept names ds)
unfolding find_cached
find-append name accept names [] ds = refl
find-append name accept names (c ∷ cs) ds = elim (Bool-cases (has_name name names c)) [
  | inl here ↦ rw here refl
  | inr other ↦ rw other (find-append name accept names cs ds)
]

equal_bytes-length : (xs ys : Bytes) → equal_bytes xs ys ≡ true → length xs ≡ length ys
equal_bytes-length [] [] h = refl
equal_bytes-length [] (d ∷ ds) h = cc
equal_bytes-length (c ∷ cs) [] h = cc
equal_bytes-length (c ∷ cs) (d ∷ ds) h = ap suc (equal_bytes-length cs ds (ground arith))

equal_bytes_tests :
    (xs ys : Bytes) → (length xs == length ys && equal_bytes xs ys) ≡ equal_bytes xs ys
equal_bytes_tests xs ys = elim (Bool-cases (equal_bytes xs ys)) [
  | inl same ↦ rw same (ground (arith, equal_bytes-length xs ys same))
  | inr differs ↦ rw differs (ground arith)
]

AreKeys-append :
    (names : Buf) (cs : List Cached) (c : Cached)
    → AreKeys names cs
    → IsKey names c
    → AreKeys names (cs ++ c ∷ [])
AreKeys-append names [] c v k = (k, tt)
AreKeys-append names (x ∷ cs) c v k = (v.0, AreKeys-append names cs c v.1 k)

module _ (a : Allocator) (base : ℕ → Bool) where
  module _ (zlib : Zlib) (curtime : ℕ) (name s : Bytes) (f : Option Callback) where
    -- What a new entry answers.
    abbrev pub stored : Bool → Bytes × ℕ × Bool
    stored accept = elim (gzip zlib s) [
      | none ↦ (s, curtime, false)
      | some z ↦ if accept && ltb 0 (length z) then (z, curtime, accept) else (s, curtime, false)
    ]

    hit-new_cached :
        (accept : Bool) (p : ℕ) → hit accept (new_cached zlib curtime p name s f) ≡ stored accept
    unfolding gen_gzipped_value
    hit-new_cached accept p = elim (Option-cases (gzip zlib s)) [
      | inl failed ↦ rw (failed, gen_gzipped_value, stored) (ground arith)
      | inr (z, done) ↦ rw (done, gen_gzipped_value, stored) refl
    ]

    new_key :
        (curtime' p : ℕ)
        → ((new_cached zlib curtime' p name s f).key_str ≡ p)
          × ((new_cached zlib curtime' p name s f).key_len ≡ length name)
    unfolding gen_gzipped_value
    new_key curtime' p = elim (Option-cases (gzip zlib s)) [
      | inl failed ↦ rw (failed, gen_gzipped_value) (refl, refl)
      | inr (z, done) ↦ rw (done, gen_gzipped_value) (refl, refl)
    ]

    find_new :
        (q : Bytes) (accept : Bool) (b : Buf) (c : Cached) (p : ℕ)
        → c.key_len ≡ length name
        → read_bytes b c.key_str c.key_len ≡ name
        → c ≡ new_cached zlib curtime p name s f
        → find_cached q accept b (c ∷ [])
          ≡ (if equal_bytes q name then some (stored accept) else none)
    unfolding find_cached has_name
    find_new q accept b c p len reads new =
        let answer : hit accept c ≡ stored accept = ap (hit accept) new ∙ hit-new_cached accept p in
        let test : has_name q b c ≡ equal_bytes q name =
          ap (λ k. length q == k && equal_bytes q (read_bytes b c.key_str c.key_len)) len
          ∙ ap (λ k. length q == length name && equal_bytes q k) reads
          ∙ equal_bytes_tests q name in
        ap (λ t. if t then some (hit accept c) else none) test
        ∙ ap (λ x. if equal_bytes q name then some x else none) answer

    -- The cache is valid, and answers as before, but for a name that it did not have.
    abbrev pub Stored : Cache → Cache × a.Heap → Type 0
    Stored c (c', h') =
        IsCache a base c' h'
        × ((q : Bytes) (accept : Bool)
            → cache_find q accept c'
              ≡ first_of (cache_find q accept c)
                  (if equal_bytes q name then some (stored accept) else none))

    Stored-in :
        (c : Cache) (d : ℕ) (b : Buf) (h' : a.Heap)
        → AreKeys c.names c.entries
        → c.names.cur_len < u32_mod
        → c.names.cur_len + length name < u32_mod
        → b.node_size ≡ 1
        → Grown a base c.names (c.names.cur_len + length name) c.names.cur_len (d, b, h')
        → Stored c (
          record {
            entries =
                (if not (d == 0) then ajust_key_ptrs d c.entries else c.entries)
                ++ new_cached zlib curtime (ptr_add b.addr (b.cur_len - length name)) name s f ∷ [];
            names = record b { bytes = write_bytes name (b.cur_len - length name) b.bytes };
          },
          h',
        )
    unfolding cache_find
    Stored-in c d b h' keys few lt unit (v, len, same, moves) =
        let at = b.cur_len - length name in
        let at_end : at ≡ c.names.cur_len = omega (arith, len) in
        let new = new_cached zlib curtime (ptr_add b.addr at) name s f in
        let b' : Buf = record b { bytes = write_bytes name at b.bytes } in
        let room : b.cur_len ≤ length b.bytes =
          let r : 1 * b.cur_len ≤ length b.bytes =
            subst (λ n. n * b.cur_len ≤ length b.bytes) unit v.room in
          omega (arith, r) in
        let le : c.names.cur_len ≤ b.cur_len = omega (arith, len) in
        let kept : take at (write_bytes name at b.bytes) ≡ take at b.bytes =
          take-write_bytes name at b.bytes (omega (arith, room)) in
        let same' : take c.names.cur_len b'.bytes ≡ take c.names.cur_len c.names.bytes =
          subst (λ k. take k (write_bytes name at b.bytes) ≡ take k b.bytes) at_end kept ∙ same in
        let length_kept : length (write_bytes name at b.bytes) ≡ length b.bytes =
          length-write_bytes name at b.bytes (omega (arith, len, room)) in
        let (key, key_len) = new_key curtime (ptr_add b.addr at) in
        let fresh : IsKey b' new = record {
          place = at;
          points = key;
          within = omega (arith, key_len, len);
        } in
        let reads : read_bytes b' new.key_str new.key_len ≡ name =
          ap (λ k. take k (drop (ptr_sub new.key_str b.addr) b'.bytes)) key_len
          ∙ ap (λ p. take (length name) (drop (ptr_sub p b.addr) b'.bytes)) key
          ∙ ap (λ k. take (length name) (drop k b'.bytes))
              (ptr_sub_place b.addr at (omega (arith, at_end, few)))
          ∙ slice-write_bytes name at b.bytes (omega (arith, room)) in
        (
          record {
            names = record {
              room = omega (arith, v.room, length_kept);
              reserve = omega (arith, v.reserve, length_kept);
              no_wrap = v.no_wrap;
              owns = v.owns;
              there = λ e. omega (arith, v.there e, length_kept);
            };
            of_bytes = unit;
            few = omega (arith, len, lt);
            keys = rw (ajusted c.names d c.entries keys) (
                AreKeys-append b' (ajust_key_ptrs d c.entries) new
                  (moved-AreKeys b' c.names d le few same' moves c.entries keys) fresh);
          },
          λ q accept.
              ap (λ es. find_cached q accept b' (es ++ new ∷ [])) (ajusted c.names d c.entries keys)
              ∙ find-append q accept b' (ajust_key_ptrs d c.entries) (new ∷ [])
              ∙ ap (λ o. first_of o (find_cached q accept b' (new ∷ [])))
                  (moved-find b' c.names d le few same' moves q accept c.entries keys)
              ∙ ap (first_of (find_cached q accept c.names c.entries))
                  (find_new q accept b' new (ptr_add b.addr at) key_len reads refl),
        )

    -- Whatever name is stored in a valid cache, with fewer than 2^32 bytes of names in all, leaves a
    -- valid cache: every key still points to its bytes, wherever the block of names has moved. A
    -- lookup finds what it found before, and where it found nothing the new value, plain or
    -- compressed, if the name is the new one.
    pub cache_store-Stored :
        (c : Cache) (h : a.Heap)
        → IsCache a base c h
        → c.names.cur_len + length name < u32_mod
        → Stored c (cache_store zlib a curtime name s f c h)
    unfolding cache_store
    cache_store-Stored c h v lt =
        let size : c.names.node_size * c.names.cur_len ≡ c.names.cur_len =
          ap (λ n. n * c.names.cur_len) v.of_bytes ∙ omega arith in
        let grown = buf_expand-Grown a base c.names (length name) h v.names lt (
          let one : 1 * (c.names.cur_len + length name) < u32_mod = omega arith in
          subst (λ n. n * (c.names.cur_len + length name) < u32_mod) (sym v.of_bytes) one) in
        let r = buf_expand a c.names (length name) h in
        Stored-in c r.0 r.1 r.2 v.keys v.few lt
          (node_size-buf_expand a base c.names (length name) h ∙ v.of_bytes)
          (subst (λ n. Grown a base c.names (c.names.cur_len + length name) n r) size grown)
