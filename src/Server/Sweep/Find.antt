-- ===== src/Server/Sweep/Find.antt =====
-- The first used element with a property, as the loops over the pools find it. (core_server.c)
use open_tube_engine_old.Base.{
  ℕ, zero, suc, ◌+◌, ◌≤◌, ◌≡◌, refl, Bool, true, false, not, ◌&&◌, List, [], ◌∷◌, none, some, arith,
  inl, inr, Bool-cases, length, get_elem?,
}
use open_tube_engine_old.Common.Allocator.{one_if}
use open_tube_engine_old.Common.FragPool.{Elem}
use open_tube_engine_old.Common.FragPool.Tally.{tally}
use open_tube_engine_old.Server.Sweep.{find_entry}

-- The sum of `f` over the entries of a pool.
abbrev pub sum {ℓ} : {A : Type ℓ} → (A → ℕ) → List (Elem A) → ℕ
sum f es = tally (λ _ u. f u) es

pub node-le :
    {A : Type 0} (f : A → ℕ) (es : List (Elem A)) (i : ℕ) (e : Elem A)
    → get_elem? es i ≡ some e
    → e.free ≡ false
    → f e.node ≤ sum f es
node-le f [] i e at used = cc
node-le f (x ∷ es) zero e at used = ground arith
node-le f (x ∷ es) (suc i) e at used = omega (arith, node-le f es i e at used)

-- A used element for which the test holds stands at that place.
pub record IsAt {A : Type 0} (test : A → Bool) (es : List (Elem A)) (i : ℕ) : Type 0 where
  pub elem : Elem A
  pub at : get_elem? es i ≡ some elem
  pub used : elem.free ≡ false
  pub same : test elem.node ≡ true

module _ {A : Type 0} (test : A → Bool) where
  pub IsAt-suc :
      (e : Elem A) (es : List (Elem A)) (i : ℕ) → IsAt test es i → IsAt test (e ∷ es) (suc i)
  IsAt-suc e es i h = record { elem = h.elem; at = h.at; used = h.used; same = h.same }

  pub IsAt-sum : (es : List (Elem A)) (i : ℕ) → IsAt test es i → 1 ≤ sum (λ u. one_if (test u)) es
  IsAt-sum [] i h = absurd (let e : none ≡ some h.elem = h.at in cc)
  IsAt-sum (e ∷ es) zero h =
      let at : some e ≡ some h.elem = h.at in
      let e' : e ≡ h.elem = cc in rw e' (ground (arith, h.used, h.same))
  IsAt-sum (e ∷ es) (suc i) h =
      let rest : IsAt test es i = record {
        elem = h.elem;
        at = h.at;
        used = h.used;
        same = h.same;
      } in
      omega (arith, IsAt-sum es i rest)

  pub find_entry-some :
      (n k i : ℕ) (es : List (Elem A))
      → find_entry test n k es ≡ some i
      → (j : ℕ) × (i ≡ k + j) × IsAt test es j
  unfolding find_entry
  find_entry-some zero k i es h = cc
  find_entry-some (suc n) k i [] h = cc
  find_entry-some (suc n) k i (e ∷ es) h = elim (Bool-cases (not e.free && test e.node)) [
    | inl here ↦
        let at : some k ≡ some i = rw here at h in
        (0, ground arith, record { elem = e; at = refl; used = ground arith; same = ground arith })
    | inr other ↦
        let (j, at, x) = find_entry-some n (suc k) i es (rw other at h) in
        (suc j, omega arith, IsAt-suc e es j x)
  ]

  pub find_entry-none :
      (n k : ℕ) (es : List (Elem A))
      → find_entry test n k es ≡ none
      → n ≡ length es
      → sum (λ u. one_if (test u)) es ≡ 0
  unfolding find_entry
  find_entry-none zero k [] h e = refl
  find_entry-none zero k (x ∷ es) h e = absurd (omega arith)
  find_entry-none (suc n) k [] h e = refl
  find_entry-none (suc n) k (x ∷ es) h e = ground (arith, find_entry-none n (suc k) es)
