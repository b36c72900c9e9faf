-- ===== src/Common/FragPool/Release.antt =====
-- Giving nodes of a `frag_pool_t` back: the node leaves the used ones, and the free tail beyond the
-- reserve goes to the allocator. (common_functions.c)
use open_tube_engine_old.Base.{
  ℕ, zero, suc, ◌+◌, ◌-◌, ◌≤◌, ◌≡◌, refl, sym, inl, inr, Bool, false, List, [], ◌∷◌, none, some,
  arith, ◌==◌, if◌then◌else◌, Bool-cases, Option-cases, get_elem?,
}
use open_tube_engine_old.Common.Allocator.{Allocator, count, one_if, count-block}
use open_tube_engine_old.Common.FragPool.{
  Elem, FragPool, find_used, frag_pool_free_alt, frag_pool_free,
}
use open_tube_engine_old.Common.FragPool.Tally.{
  tally, ptrs, find_used_at, find_used-none, find_used_within,
}
use open_tube_engine_old.Common.FragPool.Ownership.{IsFragPool}
use open_tube_engine_old.Common.FragPool.Tail.{FragKeeps, frag_release-FragKeeps}

count-get_elem? :
    {A : Type 0} (es : List (Elem A)) (i : ℕ) (e : Elem A)
    → get_elem? es i ≡ some e
    → 1 ≤ count e.ptr (ptrs es)
count-get_elem? [] i e got = cc
count-get_elem? (x ∷ es) zero e got = ground arith
count-get_elem? (x ∷ es) (suc i) e got = omega (arith, count-get_elem? es i e got)

module _ {A : Type 0} (f : ℕ → A → ℕ) (ptr : ℕ) where
  -- `f`, with nothing for the node at `ptr`.
  abbrev pub others : ℕ → A → ℕ
  others q n = if q == ptr then 0 else f q n

  tally-others_none :
      (es : List (Elem A)) → tally (λ q _. one_if (q == ptr)) es ≡ 0 → tally others es ≡ tally f es
  tally-others_none [] h = refl
  tally-others_none (e ∷ es) h = ground (arith, tally-others_none es)

  tally-others_absent :
      (es : List (Elem A)) → count ptr (ptrs es) ≡ 0 → tally others es ≡ tally f es
  tally-others_absent [] h = refl
  tally-others_absent (e ∷ es) h = ground (arith, tally-others_absent es)

  tally-others :
      (es : List (Elem A)) (i : ℕ) (e : Elem A)
      → get_elem? es i ≡ some e
      → e.free ≡ false
      → e.ptr ≡ ptr
      → count ptr (ptrs es) ≤ 1
      → tally f es ≡ f e.ptr e.node + tally others es
  tally-others [] i e got busy same once = cc
  tally-others (x ∷ es) zero e got busy same once = ground (arith, tally-others_absent es)
  tally-others (x ∷ es) (suc i) e got busy same once =
      ground (arith, tally-others es i e, count-get_elem? es i e)

module _ {A : Type 0} (a : Allocator) (base : ℕ → Bool) (f : ℕ → A → ℕ) where
  -- On a valid pool, for an index within the array, `frag_pool_free_alt` leaves a valid pool. The
  -- nodes in use are those from before without the one at the index, if that one was in use.
  pub frag_pool_free_alt-FragKeeps :
      (p : FragPool A) (i : ℕ) (e : Elem A) (h : a.Heap)
      → IsFragPool a base p h
      → get_elem? p.elems i ≡ some e
      → FragKeeps a base f
          (tally f p.elems - (if e.free then 0 else f e.ptr e.node))
          (frag_pool_free_alt a p i h)
  unfolding frag_pool_free_alt
  frag_pool_free_alt-FragKeeps p i e h v got =
      rw (got, frag_pool_free_alt)
        (elim (Bool-cases e.free) [
          | inl idle ↦ rw idle (v, omega arith)
          | inr busy ↦
              let (t, parts, keeps) = frag_release-FragKeeps a base f p i e h v got busy in
              let left : tally f p.elems - f e.ptr e.node ≡ t = omega arith in rw (busy, left) keeps
        ])

  -- On a valid pool `frag_pool_free` reads nothing beyond the array and leaves a valid pool. The
  -- nodes in use are those from before without the one at `ptr`, if it was in use: any sum over
  -- them is the sum without `ptr`.
  pub frag_pool_free-FragKeeps :
      (p : FragPool A) (ptr : ℕ) (h : a.Heap)
      → IsFragPool a base p h
      → FragKeeps a base f (tally (others f ptr) p.elems) (frag_pool_free a p ptr h)
  unfolding frag_pool_free
  frag_pool_free-FragKeeps p ptr h v = elim (Option-cases (find_used ptr p.real_len 0 p.elems)) [
    | inl beyond ↦ absurd (find_used_within ptr p.real_len 0 p.elems (omega (arith, v.size)) beyond)
    | inr (none, missing) ↦
        rw (missing, frag_pool_free)
          (
            v,
            sym (
                tally-others_none f ptr p.elems
                  (find_used-none ptr p.real_len 0 p.elems missing (sym v.size))),
          )
    | inr (some i, found) ↦
        let (e, got, busy, same) = find_used_at ptr p.real_len i p.elems found in
        let (t, parts, keeps) = frag_release-FragKeeps a base f p i e h v got busy in
        let once : count ptr (ptrs p.elems) ≤ 1 =
          ground (arith, v.owns ptr, count-block ptr p.array (p.self ∷ ptrs p.elems)) in
        let left : tally (others f ptr) p.elems ≡ t =
          omega (arith, tally-others f ptr p.elems i e got busy same once) in
        rw (found, frag_pool_free, left) keeps
  ]
