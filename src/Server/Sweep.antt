-- ===== src/Server/Sweep.antt =====
-- The loops of `event_iter` over the fragmented pools. (core_server.c)
pub mod Find
pub mod Split
pub mod Sums
use open_tube_engine_old.Base.{
  ℕ, zero, suc, Bool, true, false, not, ◌&&◌, List, [], ◌∷◌, Option, none, some, ltb, if◌then◌else◌,
  get_elem?,
}
use open_tube_engine_old.Common.Allocator.{Allocator}
use open_tube_engine_old.Common.FragPool.{Elem, FragPool, frag_pool_free_alt}

-- The index of the first used element with the property, among the next `n` from index `i` on.
unfoldable pub find_entry {ℓ} : {A : Type ℓ} → (A → Bool) → ℕ → ℕ → List (Elem A) → Option ℕ
find_entry test zero i es = none
find_entry test (suc n) i [] = none
find_entry test (suc n) i (e ∷ es) =
    let rest = find_entry test n (suc i) es in if not e.free && test e.node then some i else rest

module _ {A : Type 0} (a : Allocator) (leaves : A → Bool) where
  -- `n` rounds at most, from index `i` on. The elements that the loop gives back come with the pool.
  -- `none` is a read beyond the array.
  unfoldable pub sweep : ℕ → ℕ → FragPool A → a.Heap → Option (List A × FragPool A × a.Heap)
  sweep zero i p h = some ([], p, h)
  sweep (suc n) i p h = elim (ltb i p.real_len) [
    | false ↦ some ([], p, h)
    | true ↦ elim (get_elem? p.elems i) [
      | none ↦ none
      | some e ↦ elim (not e.free && leaves e.node) [
        | false ↦ sweep n (suc i) p h
        | true ↦ elim (frag_pool_free_alt a p i h) [
          | none ↦ none
          | some (p', h') ↦ elim (sweep n (suc i) p' h') [
            | none ↦ none
            | some (gone, q, g) ↦ some (e.node ∷ gone, q, g)
          ]
        ]
      ]
    ]
  ]
