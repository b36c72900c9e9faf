-- ===== src/Server/Sweep/Split.antt =====
-- Sums with one weight before a place and another from there on.
use open_tube_engine_old.Base.{
  ℕ, zero, suc, ◌+◌, ◌≤◌, ◌≡◌, refl, sym, true, false, List, [], ◌∷◌, some, arith, if◌then◌else◌,
  length, get_elem?, take,
}
use open_tube_engine_old.Common.FragPool.{Elem, mark_at}
use open_tube_engine_old.Common.FragPool.Tally.{tally}

module _ {A : Type 0} (f g : A → ℕ) where
  abbrev pub split : ℕ → List (Elem A) → ℕ
  split i [] = 0
  split zero (e ∷ es) = tally (λ _ u. g u) (e ∷ es)
  split (suc i) (e ∷ es) = (if e.free then 0 else f e.node) + split i es

  pub split_zero : (es : List (Elem A)) → split 0 es ≡ tally (λ _ u. g u) es
  split_zero [] = refl
  split_zero (e ∷ es) = refl

  pub split_end : (i : ℕ) (es : List (Elem A)) → length es ≤ i → split i es ≡ tally (λ _ u. f u) es
  split_end i [] h = refl
  split_end zero (e ∷ es) h = absurd (omega arith)
  split_end (suc i) (e ∷ es) h = omega (arith, split_end i es (omega arith))

  pub split_step :
      (i : ℕ) (es : List (Elem A)) (e : Elem A)
      → get_elem? es i ≡ some e
      → split (suc i) es + (if e.free then 0 else g e.node)
        ≡ split i es + (if e.free then 0 else f e.node)
  split_step i [] e at = cc
  split_step zero (x ∷ es) e at = ground (arith, split_zero es)
  split_step (suc i) (x ∷ es) e at = omega (arith, split_step i es e at)

  pub split-mark_free :
      (i : ℕ) (es : List (Elem A)) (e : Elem A)
      → get_elem? es i ≡ some e
      → e.free ≡ false
      → split (suc i) (mark_at true es i) + f e.node ≡ split (suc i) es
  split-mark_free i [] e at busy = cc
  split-mark_free zero (x ∷ es) e at busy = ground arith
  split-mark_free (suc i) (x ∷ es) e at busy = omega (arith, split-mark_free i es e at busy)

  -- All elements are free.
  split_free : (i : ℕ) (es : List (Elem A)) → tally (λ _ _. 1) es ≡ 0 → split i es ≡ 0
  split_free i [] h = refl
  split_free zero (e ∷ es) h = ground (arith, split_free zero es, split_zero es)
  split_free (suc i) (e ∷ es) h = ground (arith, split_free i es)

  -- Free elements at the end do not count.
  pub split-take :
      (i k : ℕ) (es : List (Elem A))
      → tally (λ _ _. 1) (take k es) ≡ tally (λ _ _. 1) es
      → split i (take k es) ≡ split i es
  split-take i zero [] h = refl
  split-take i (suc k) [] h = refl
  split-take i zero (e ∷ es) h = sym (split_free i (e ∷ es) (sym h))
  split-take zero (suc k) (e ∷ es) h =
      let rest = split-take zero k es (omega arith) in
      omega (arith, rest, split_zero (take k es), split_zero es)
  split-take (suc i) (suc k) (e ∷ es) h = omega (arith, split-take i k es (omega arith))

pub split_same :
    {A : Type 0} (f : A → ℕ) (i : ℕ) (es : List (Elem A)) → split f f i es ≡ tally (λ _ u. f u) es
split_same f i [] = refl
split_same f zero (e ∷ es) = refl
split_same f (suc i) (e ∷ es) = omega (arith, split_same f i es)
