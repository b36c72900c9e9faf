-- ===== src/Server/Memcache/Moves.antt =====
-- The keys of the cache when the block of names has moved. (memcache.c)
use open_tube_engine_old.Base.{
  ℕ, ◌+◌, ◌%◌, ◌≤◌, ◌<◌, ◌≡◌, refl, sym, ap, ◌∙◌, Bool, not, List, [], ◌∷◌, ◌==◌, inl, inr,
  if◌then◌else◌, Bool-cases, arith, take, drop, u32_mod,
}
use open_tube_engine_old.Http.Chars.{Bytes}
use open_tube_engine_old.Common.Buf.{Buf, ptr_mod, ptr_sub, ptr_add}
use open_tube_engine_old.Server.Memcache.{Cached, read_bytes, has_name, find_cached, ajust_key_ptrs}
use open_tube_engine_old.Server.Memcache.Keys.{IsKey, same_slice, ptr_sub_place}

abbrev pub AreKeys : Buf → List Cached → Type 0
AreKeys names [] = Unit {0}
AreKeys names (c ∷ cs) = IsKey names c × AreKeys names cs

-- `b` is the block after a move by `d`: its first bytes are as they were.
module _ (b old : Buf) (d : ℕ) (len : old.cur_len ≤ b.cur_len) (few : old.cur_len < u32_mod)
    (same : take old.cur_len b.bytes ≡ take old.cur_len old.bytes)
    (moves : (k : ℕ) → ptr_add (old.addr + k) d ≡ (b.addr + k) % ptr_mod) where
  moved-IsKey : (c : Cached) → IsKey old c → IsKey b (record c { key_str = ptr_add c.key_str d })
  moved-IsKey c v = record {
    place = v.place;
    points = omega (arith, moves v.place, v.points);
    within = omega (arith, v.within, len);
  }

  moved-read :
      (c : Cached)
      → IsKey old c
      → read_bytes b (ptr_add c.key_str d) c.key_len ≡ read_bytes old c.key_str c.key_len
  moved-read c v =
      let key : ptr_add c.key_str d ≡ (b.addr + v.place) % ptr_mod =
        omega (arith, moves v.place, v.points) in
      let to : ptr_sub (ptr_add c.key_str d) b.addr ≡ v.place =
        ap (λ p. ptr_sub p b.addr) key ∙ ptr_sub_place b.addr v.place (omega (arith, v.within)) in
      let at : ptr_sub c.key_str old.addr ≡ v.place =
        ap (λ p. ptr_sub p old.addr) v.points
        ∙ ptr_sub_place old.addr v.place (omega (arith, v.within)) in
      ap (λ k. take c.key_len (drop k b.bytes)) to
      ∙ same_slice old.cur_len v.place c.key_len b.bytes old.bytes v.within same
      ∙ sym (ap (λ k. take c.key_len (drop k old.bytes)) at)

  pub moved-AreKeys : (cs : List Cached) → AreKeys old cs → AreKeys b (ajust_key_ptrs d cs)
  unfolding ajust_key_ptrs
  moved-AreKeys [] v = tt
  moved-AreKeys (c ∷ cs) v = (moved-IsKey c v.0, moved-AreKeys cs v.1)

  pub moved-find :
      (name : Bytes) (accept : Bool) (cs : List Cached)
      → AreKeys old cs
      → find_cached name accept b (ajust_key_ptrs d cs) ≡ find_cached name accept old cs
  unfolding find_cached ajust_key_ptrs has_name
  moved-find name accept [] v = refl
  moved-find name accept (c ∷ cs) v = rw (moved-read c v.0, moved-find name accept cs v.1) refl

ajust_none : (old : Buf) (cs : List Cached) → AreKeys old cs → ajust_key_ptrs 0 cs ≡ cs
unfolding ajust_key_ptrs
ajust_none old [] v = refl
ajust_none old (c ∷ cs) v =
    let key : ptr_add c.key_str 0 ≡ c.key_str = omega (arith, v.0.points) in
    rw (key, ajust_none old cs v.1) refl

-- The test of the offset does not matter.
pub ajusted :
    (old : Buf) (d : ℕ) (cs : List Cached)
    → AreKeys old cs
    → (if not (d == 0) then ajust_key_ptrs d cs else cs) ≡ ajust_key_ptrs d cs
ajusted old d cs v = elim (Bool-cases (d == 0)) [
  | inr moved ↦ rw moved refl
  | inl stays ↦
      let zero_offset : d ≡ 0 = ground arith in rw (zero_offset) (sym (ajust_none old cs v))
]
