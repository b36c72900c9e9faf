-- ===== src/Common/FragPool/Tail.antt =====
-- A `frag_pool_t` gives the unused tail of its array back. (common_functions.c)
use open_tube_engine_old.Base.{
  ℕ, zero, suc, ◌+◌, ◌-◌, ◌*◌, ◌≤◌, ◌<◌, ◌≡◌, ◌≢◌, refl, sym, ◌∙◌, inl, inr, Bool, true, false, ◌∷◌,
  Option, none, some, arith, Bool-cases, length, get_elem?, lt-get_elem?, take, length-take,
  u32_mod, sub32,
}
use open_tube_engine_old.Common.Allocator.{
  Allocator, Holds, block, count-block, free-Holds, realloc-Holds, realloc-ne_null,
}
use open_tube_engine_old.Common.FragPool.{
  Elem, FragPool, sizeof_elem, is_free_at, mark_at, frag_drop_last, is_spare_last, frag_try,
  frag_release,
}
use open_tube_engine_old.Common.FragPool.Tally.{
  tally, ptrs, tally-mark_free, tally-take, tally_one-le, ptrs-mark_at, length-mark_at,
  count-ptrs-take, is_free_at-mark_free, is_free_at-some, get_elem?-mark_free,
}
use open_tube_engine_old.Common.FragPool.Ownership.{IsFragPool}

-- The pool while `_frag_try_internal_pool_free` runs at index `i`: all but the last element's being
-- used, which holds unless that element is the one just freed.
record IsLoose {A : Type 0} (a : Allocator) (base : ℕ → Bool) (i : ℕ) (p : FragPool A) (h : a.Heap)
    : Type 0 where
  size : length p.elems ≡ p.real_len
  bounded : p.real_len < u32_mod
  reserve : p.reserved_len ≤ p.real_len
  used : p.cur_len ≡ tally (λ _ _. 1) p.elems
  tight :
      p.reserved_len < p.real_len → i ≢ p.real_len - 1 → is_free_at p.elems (p.real_len - 1) ≡ false
  owns : Holds a base (block p.array (p.self ∷ ptrs p.elems)) h
  there : p.array ≡ 0 → p.real_len ≡ 0

-- The call returned a valid pool over which the sum of `f` is `t`.
abbrev pub FragKeeps :
    {A : Type 0} (a : Allocator)
    → (ℕ → Bool)
    → (ℕ → A → ℕ)
    → ℕ
    → Option (FragPool A × a.Heap)
    → Type 0
FragKeeps a base f t none = ⊥
FragKeeps a base f t (some (p, h)) = IsFragPool a base p h × (tally f p.elems ≡ t)

module _ {A : Type 0} (a : Allocator) (base : ℕ → Bool) where
  -- Dropping the free last element.
  frag_drop_last-IsLoose :
      (p : FragPool A) (i : ℕ) (e : Elem A) (h : a.Heap)
      → IsLoose a base i p h
      → is_spare_last a p i ≡ true
      → get_elem? p.elems i ≡ some e
      → e.free ≡ true
      → let (p', h') = frag_drop_last a p i e h in
        (length p'.elems ≡ i)
        × (p'.real_len ≡ i)
        × (i < u32_mod)
        × (p'.reserved_len ≤ i)
        × (p'.cur_len ≡ tally (λ _ _. 1) p'.elems)
        × ((f : ℕ → A → ℕ) → tally f p'.elems ≡ tally f p.elems)
        × Holds a base (block p'.array (p'.self ∷ ptrs p'.elems)) h'
        × (p'.array ≡ 0 → p'.real_len ≡ 0)
  unfolding frag_drop_last
  frag_drop_last-IsLoose p i e h v spare got free = (
    omega (arith, length-take i p.elems, lt-get_elem? p.elems i got),
    ground (arith, last),
    ground (arith, last, v.bounded),
    ground arith,
    omega (arith, v.used, tally-take (λ _ _. 1) p.elems i e got free last),
    λ f. tally-take f p.elems i e got free last,
    realloc-Holds a base p.array (sizeof_elem * sub32 p.real_len 1) (p.self ∷ ptrs (take i p.elems))
        (a.free e.ptr h) freed,
    λ n. omega (
      arith,
      realloc-ne_null a base p.array (sizeof_elem * sub32 p.real_len 1)
          (p.self ∷ ptrs (take i p.elems)) (a.free e.ptr h) freed n,
    ),
  )
    where
      last : length p.elems ≡ suc i
      last = ground (arith, v.size, v.bounded, lt-get_elem? p.elems i got)

      freed : Holds a base (block p.array (p.self ∷ ptrs (take i p.elems))) (a.free e.ptr h)
      freed = free-Holds a base e.ptr (block p.array (p.self ∷ ptrs (take i p.elems))) h λ q.
          omega (
            arith,
            v.owns q,
            count-ptrs-take q p.elems i e got last,
            count-block q p.array (p.self ∷ ptrs p.elems),
            count-block q p.array (p.self ∷ ptrs (take i p.elems)),
          )

  -- Where the element at `i` stays, the pool is as it should be.
  IsLoose-IsFragPool :
      (i : ℕ) (p : FragPool A) (h : a.Heap)
      → IsLoose a base i p h
      → is_spare_last a p i ≡ false
      → IsFragPool a base p h
  IsLoose-IsFragPool i p h v stays = record {
    size = v.size;
    bounded = v.bounded;
    reserve = v.reserve;
    used = v.used;
    tight = λ less. v.tight less (λ e. ground (arith, v.bounded));
    owns = v.owns;
    there = v.there;
  }

  frag_try-FragKeeps :
      (f : ℕ → A → ℕ) (i : ℕ) (p : FragPool A) (h : a.Heap) (e : Elem A)
      → IsLoose a base i p h
      → get_elem? p.elems i ≡ some e
      → e.free ≡ true
      → FragKeeps a base f (tally f p.elems) (frag_try a i p h)
  unfolding frag_try
  frag_try-FragKeeps f zero p h e v got free = elim (Bool-cases (is_spare_last a p zero)) [
    | inr stays ↦ rw stays (IsLoose-IsFragPool zero p h v stays, refl)
    | inl spare ↦
        let (size, real, lt, reserve, used, sums, own, there) =
          frag_drop_last-IsLoose p zero e h v spare got free in
        rw (spare, got)
          (
            record {
              size = size ∙ sym real;
              bounded = rw real lt;
              reserve = rw real reserve;
              used = used;
              tight = λ less. absurd (omega arith);
              owns = own;
              there = there;
            },
            sums f,
          )
  ]
  frag_try-FragKeeps f (suc i) p h e v got free = elim (Bool-cases (is_spare_last a p (suc i))) [
    | inr stays ↦ rw (stays, frag_try) (IsLoose-IsFragPool (suc i) p h v stays, refl)
    | inl spare ↦
        let (size, real, lt, reserve, used, sums, own, there) =
          frag_drop_last-IsLoose p (suc i) e h v spare got free in
        let p' = (frag_drop_last a p (suc i) e h).0 in
        let h' = (frag_drop_last a p (suc i) e h).1 in
        let last : p'.real_len - 1 ≡ i = omega (arith, real) in
        rw (spare, got, frag_try)
          (elim (Bool-cases (is_free_at p'.elems i)) [
            | inl again ↦
                let (e', got', free') = is_free_at-some p'.elems i again in
                rw (again, ← sums f)
                  (frag_try-FragKeeps f i p' h' e'
                    (record {
                      size = size ∙ sym real;
                      bounded = rw real lt;
                      reserve = rw real reserve;
                      used = used;
                      tight = λ less ne. absurd (ne (sym last));
                      owns = own;
                      there = there;
                    })
                    got' free')
            | inr stop ↦ rw stop (
              record {
                size = size ∙ sym real;
                bounded = rw real lt;
                reserve = rw real reserve;
                used = used;
                tight = λ less. rw last stop;
                owns = own;
                there = there;
              },
              sums f,
            )
          ])
  ]

  -- A used element at `i` is given back: it leaves the used ones, and nothing else does.
  pub frag_release-FragKeeps :
      (f : ℕ → A → ℕ) (p : FragPool A) (i : ℕ) (e : Elem A) (h : a.Heap)
      → IsFragPool a base p h
      → get_elem? p.elems i ≡ some e
      → e.free ≡ false
      → (t : ℕ) × (tally f p.elems ≡ f e.ptr e.node + t)
        × FragKeeps a base f t (frag_release a p i h)
  unfolding frag_release
  frag_release-FragKeeps f p i e h v got busy = (
    tally f (mark_at true p.elems i),
    sym (tally-mark_free f p.elems i e got busy),
    frag_try-FragKeeps f i freed h (record e { free = true })
        (record {
          size = length-mark_at true p.elems i ∙ v.size;
          bounded = v.bounded;
          reserve = v.reserve;
          used = omega (
            arith,
            tally-mark_free (λ _ _. 1) p.elems i e got busy,
            v.used,
            v.size,
            v.bounded,
            tally_one-le p.elems,
          );
          tight = λ less ne. is_free_at-mark_free p.elems i (p.real_len - 1) ne (v.tight less);
          owns = rw (ptrs-mark_at true p.elems i) v.owns;
          there = v.there;
        })
        (get_elem?-mark_free p.elems i e got) refl,
  )
    where
      freed : FragPool A
      freed = record p { cur_len = sub32 p.cur_len 1; elems = mark_at true p.elems i }
