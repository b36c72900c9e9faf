-- ===== src/Common/FragPool/Prefix.antt =====
-- A release leaves the elements where they are: the array only gets shorter. (common_functions.c)
use open_tube_engine_old.Base.{
  ℕ, zero, suc, ◌≡◌, refl, sym, ap, ◌∙◌, true, false, List, [], ◌∷◌, Option, none, some, arith, inl,
  inr, Bool-cases, Option-cases, length, get_elem?, take, take_all,
}
use open_tube_engine_old.Common.Allocator.{Allocator}
use open_tube_engine_old.Common.FragPool.{
  Elem, FragPool, is_free_at, mark_at, is_spare_last, frag_drop_last, frag_try, frag_release,
  frag_pool_free_alt,
}

module _ {A : Type 0} where
  take-take : (j k : ℕ) (es : List (Elem A)) → (m : ℕ) × (take j (take k es) ≡ take m es)
  take-take zero k es = (zero, refl)
  take-take (suc j) zero es = (zero, refl)
  take-take (suc j) (suc k) [] = (zero, refl)
  take-take (suc j) (suc k) (e ∷ es) = let (m, same) = take-take j k es in (suc m, ap (◌∷◌ e) same)

  -- The elements of the pool returned, if any, are a first part of `es`.
  abbrev pub IsPrefix : (a : Allocator) → List (Elem A) → Option (FragPool A × a.Heap) → Type 0
  IsPrefix a es none = Unit {0}
  IsPrefix a es (some (p, h)) = (k : ℕ) × (p.elems ≡ take k es)

  IsPrefix-take :
      (a : Allocator) (es : List (Elem A)) (i : ℕ) (r : Option (FragPool A × a.Heap))
      → IsPrefix a (take i es) r
      → IsPrefix a es r
  IsPrefix-take a es i none h = tt
  IsPrefix-take a es i (some (p, h')) (k, e) = let (m, same) = take-take k i es in (m, e ∙ same)

  module _ (a : Allocator) where
    whole : (p : FragPool A) → (k : ℕ) × (p.elems ≡ take k p.elems)
    whole p = (length p.elems, sym (take_all (length p.elems) p.elems (omega arith)))

    frag_try-IsPrefix :
        (i : ℕ) (p : FragPool A) (h : a.Heap) → IsPrefix a p.elems (frag_try a i p h)
    unfolding frag_try frag_drop_last
    frag_try-IsPrefix zero p h = elim (Bool-cases (is_spare_last a p zero)) [
      | inr stays ↦ rw stays (whole p)
      | inl spare ↦ elim (Option-cases (get_elem? p.elems zero)) [
        | inl missing ↦ rw (spare, missing) tt
        | inr (e, got) ↦ rw (spare, got) (zero, refl)
      ]
    ]
    frag_try-IsPrefix (suc i) p h = elim (Bool-cases (is_spare_last a p (suc i))) [
      | inr stays ↦ rw (stays, frag_try) (whole p)
      | inl spare ↦ elim (Option-cases (get_elem? p.elems (suc i))) [
        | inl missing ↦ rw (spare, missing, frag_try) tt
        | inr (e, got) ↦
            let (p', h') = frag_drop_last a p (suc i) e h in
            elim (Bool-cases (is_free_at p'.elems i)) [
              | inl again ↦
                  rw (spare, got, frag_try, again)
                    (IsPrefix-take a p.elems (suc i) (frag_try a i p' h')
                      (frag_try-IsPrefix i p' h'))
              | inr stop ↦ rw (spare, got, frag_try, stop) (suc i, refl)
            ]
      ]
    ]

    pub frag_pool_free_alt-IsPrefix :
        (p : FragPool A) (i : ℕ) (e : Elem A) (h : a.Heap)
        → get_elem? p.elems i ≡ some e
        → e.free ≡ false
        → IsPrefix a (mark_at true p.elems i) (frag_pool_free_alt a p i h)
    unfolding frag_pool_free_alt frag_release
    frag_pool_free_alt-IsPrefix p i e h got busy =
        rw (got, frag_pool_free_alt, busy) (frag_try-IsPrefix i _ h)
