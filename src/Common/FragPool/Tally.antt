-- ===== src/Common/FragPool/Tally.antt =====
-- Sums over the used elements of a `frag_pool_t`, and what marking an element does to them.
use open_tube_engine_old.Base.{
  ℕ, zero, suc, ◌+◌, ◌≤◌, ◌≡◌, ◌≢◌, refl, ap, inl, inr, Bool, true, false, not, ◌&&◌, List, [], ◌∷◌,
  ◌++◌, none, some, arith, ◌==◌, if◌then◌else◌, Bool-cases, length, get_elem?, take,
}
use open_tube_engine_old.Common.Allocator.{count, one_if}
use open_tube_engine_old.Common.FragPool.{Elem, find_free, find_used, is_free_at, mark_at}

module _ {ℓ} {A : Type ℓ} where
  -- The sum of `f` over the used elements.
  abbrev pub tally : (ℕ → A → ℕ) → List (Elem A) → ℕ
  tally f [] = 0
  tally f (e ∷ es) = (if e.free then 0 else f e.ptr e.node) + tally f es

  abbrev pub ptrs : List (Elem A) → List ℕ
  ptrs [] = []
  ptrs (e ∷ es) = e.ptr ∷ ptrs es

module _ {ℓ} {A : Type ℓ} (f : ℕ → A → ℕ) where
  pub tally-append : (es fs : List (Elem A)) → tally f (es ++ fs) ≡ tally f es + tally f fs
  tally-append [] fs = omega arith
  tally-append (e ∷ es) fs = omega (arith, tally-append es fs)

  pub tally-mark_used :
      (es : List (Elem A)) (i : ℕ) (e : Elem A)
      → get_elem? es i ≡ some e
      → e.free ≡ true
      → tally f (mark_at false es i) ≡ f e.ptr e.node + tally f es
  tally-mark_used [] i e at h = cc
  tally-mark_used (x ∷ es) zero e at h = ground arith
  tally-mark_used (x ∷ es) (suc i) e at h = omega (arith, tally-mark_used es i e at h)

  pub tally-mark_free :
      (es : List (Elem A)) (i : ℕ) (e : Elem A)
      → get_elem? es i ≡ some e
      → e.free ≡ false
      → f e.ptr e.node + tally f (mark_at true es i) ≡ tally f es
  tally-mark_free [] i e at h = cc
  tally-mark_free (x ∷ es) zero e at h = ground arith
  tally-mark_free (x ∷ es) (suc i) e at h = omega (arith, tally-mark_free es i e at h)

  -- A free last element counts for nothing.
  pub tally-take :
      (es : List (Elem A)) (i : ℕ) (e : Elem A)
      → get_elem? es i ≡ some e
      → e.free ≡ true
      → length es ≡ suc i
      → tally f (take i es) ≡ tally f es
  tally-take [] i e at h n = cc
  tally-take (x ∷ []) zero e at h n = ground arith
  tally-take (x ∷ y ∷ es) zero e at h n = absurd (omega arith)
  tally-take (x ∷ es) (suc i) e at h n = omega (arith, tally-take es i e at h (omega arith))

module _ {ℓ} {A : Type ℓ} where
  pub tally_one-le : (es : List (Elem A)) → tally (λ _ _. 1) es ≤ length es
  tally_one-le [] = omega arith
  tally_one-le (e ∷ es) = ground (arith, tally_one-le es)

  pub ptrs-mark_at : (b : Bool) (es : List (Elem A)) (i : ℕ) → ptrs (mark_at b es i) ≡ ptrs es
  ptrs-mark_at b [] i = refl
  ptrs-mark_at b (e ∷ es) zero = refl
  ptrs-mark_at b (e ∷ es) (suc i) = ap (◌∷◌ e.ptr) (ptrs-mark_at b es i)

  pub ptrs-append : (es fs : List (Elem A)) → ptrs (es ++ fs) ≡ ptrs es ++ ptrs fs
  ptrs-append [] fs = refl
  ptrs-append (e ∷ es) fs = ap (◌∷◌ e.ptr) (ptrs-append es fs)

  pub length-mark_at : (b : Bool) (es : List (Elem A)) (i : ℕ) → length (mark_at b es i) ≡ length es
  length-mark_at b [] i = refl
  length-mark_at b (e ∷ es) zero = refl
  length-mark_at b (e ∷ es) (suc i) = ap suc (length-mark_at b es i)

  -- Dropping the last element drops its pointer.
  pub count-ptrs-take :
      (q : ℕ) (es : List (Elem A)) (i : ℕ) (e : Elem A)
      → get_elem? es i ≡ some e
      → length es ≡ suc i
      → count q (ptrs es) ≡ one_if (q == e.ptr) + count q (ptrs (take i es))
  count-ptrs-take q [] i e at n = cc
  count-ptrs-take q (x ∷ []) zero e at n = ground arith
  count-ptrs-take q (x ∷ y ∷ es) zero e at n = absurd (omega arith)
  count-ptrs-take q (x ∷ es) (suc i) e at n =
      omega (arith, count-ptrs-take q es i e at (omega arith))

  pub is_free_at-mark_used :
      (es : List (Elem A)) (i k : ℕ)
      → is_free_at es k ≡ false
      → is_free_at (mark_at false es i) k ≡ false
  is_free_at-mark_used [] i k h = refl
  is_free_at-mark_used (x ∷ es) zero zero h = refl
  is_free_at-mark_used (x ∷ es) zero (suc k) h = h
  is_free_at-mark_used (x ∷ es) (suc i) zero h = h
  is_free_at-mark_used (x ∷ es) (suc i) (suc k) h = is_free_at-mark_used es i k h

  -- The element at `i`, found in that state.
  pub find_free-some :
      (n k i : ℕ) (es : List (Elem A))
      → find_free n k es ≡ some i
      → (j : ℕ) × (e : Elem A) × (i ≡ k + j) × (get_elem? es j ≡ some e) × (e.free ≡ true)
  unfolding find_free
  find_free-some zero k i es h = cc
  find_free-some (suc n) k i [] h = cc
  find_free-some (suc n) k i (e ∷ es) h = elim (Bool-cases e.free) [
    | inl free ↦ (0, e, ground arith, refl, free)
    | inr used ↦
        let (j, x, at, got, free) = find_free-some n (suc k) i es (rw used at h) in
        (suc j, x, omega arith, got, free)
  ]

  pub find_free_at :
      (n i : ℕ) (es : List (Elem A))
      → find_free n 0 es ≡ some i
      → (e : Elem A) × (get_elem? es i ≡ some e) × (e.free ≡ true)
  find_free_at n i es h =
      let (j, e, at, got, free) = find_free-some n 0 i es h in
      let same : i ≡ j = omega arith in (e, rw same got, free)

  pub find_used-some :
      (ptr n k i : ℕ) (es : List (Elem A))
      → find_used ptr n k es ≡ some (some i)
      → (j : ℕ) × (e : Elem A) × (i ≡ k + j)
        × (get_elem? es j ≡ some e)
        × (e.free ≡ false)
        × (e.ptr ≡ ptr)
  unfolding find_used
  find_used-some ptr zero k i es h = cc
  find_used-some ptr (suc n) k i [] h = cc
  find_used-some ptr (suc n) k i (e ∷ es) h = elim (Bool-cases (not e.free && e.ptr == ptr)) [
    | inl here ↦ (0, e, ground arith, refl, ground arith, ground arith)
    | inr other ↦
        let (j, x, at, got, used, same) = find_used-some ptr n (suc k) i es (rw other at h) in
        (suc j, x, omega arith, got, used, same)
  ]

  pub find_used-none :
      (ptr n k : ℕ) (es : List (Elem A))
      → find_used ptr n k es ≡ some none
      → n ≡ length es
      → tally (λ q _. one_if (q == ptr)) es ≡ 0
  unfolding find_used
  find_used-none ptr zero k [] h e = refl
  find_used-none ptr zero k (x ∷ es) h e = absurd (omega arith)
  find_used-none ptr (suc n) k [] h e = cc
  find_used-none ptr (suc n) k (x ∷ es) h e = ground (arith, find_used-none ptr n (suc k) es)

  -- A walk over the length of the array stays within it.
  pub find_used_within :
      (ptr n k : ℕ) (es : List (Elem A)) → n ≤ length es → find_used ptr n k es ≢ none
  unfolding find_used
  find_used_within ptr zero k es le h = cc
  find_used_within ptr (suc n) k [] le h = omega arith
  find_used_within ptr (suc n) k (e ∷ es) le h = elim (Bool-cases (not e.free && e.ptr == ptr)) [
    | inl here ↦ absurd (let e' : some (some k) ≡ none = rw here at h in cc)
    | inr other ↦ find_used_within ptr n (suc k) es (omega arith) (rw other at h)
  ]

  pub find_used_at :
      (ptr n i : ℕ) (es : List (Elem A))
      → find_used ptr n 0 es ≡ some (some i)
      → (e : Elem A) × (get_elem? es i ≡ some e) × (e.free ≡ false) × (e.ptr ≡ ptr)
  find_used_at ptr n i es h =
      let (j, e, at, got, used, here) = find_used-some ptr n 0 i es h in
      let same : i ≡ j = omega arith in (e, rw same got, used, here)

  pub is_free_at-some :
      (es : List (Elem A)) (i : ℕ)
      → is_free_at es i ≡ true
      → (e : Elem A) × (get_elem? es i ≡ some e) × (e.free ≡ true)
  is_free_at-some [] i h = cc
  is_free_at-some (x ∷ es) zero h = (x, refl, h)
  is_free_at-some (x ∷ es) (suc i) h = is_free_at-some es i h

  pub is_free_at-mark_free :
      (es : List (Elem A)) (i k : ℕ)
      → i ≢ k
      → is_free_at es k ≡ false
      → is_free_at (mark_at true es i) k ≡ false
  is_free_at-mark_free [] i k ne h = refl
  is_free_at-mark_free (x ∷ es) zero zero ne h = absurd (ne refl)
  is_free_at-mark_free (x ∷ es) zero (suc k) ne h = h
  is_free_at-mark_free (x ∷ es) (suc i) zero ne h = h
  is_free_at-mark_free (x ∷ es) (suc i) (suc k) ne h =
      is_free_at-mark_free es i k (λ e. ne (ap suc e)) h

  pub get_elem?-mark_free :
      (es : List (Elem A)) (i : ℕ) (e : Elem A)
      → get_elem? es i ≡ some e
      → get_elem? (mark_at true es i) i ≡ some (record e { free = true })
  get_elem?-mark_free [] i e at = cc
  get_elem?-mark_free (x ∷ es) zero e at = ground arith
  get_elem?-mark_free (x ∷ es) (suc i) e at = get_elem?-mark_free es i e at
