-- ===== src/Server/Sweep/Sums.antt =====
-- What the loops over the fragmented pools leave, and what they give back. (core_server.c)
use open_tube_engine_old.Base.{
  ℕ, zero, suc, ◌+◌, ◌-◌, ◌≤◌, ◌≡◌, refl, sym, ap, ◌∙◌, subst, Bool, true, false, not, ◌&&◌, List,
  [], ◌∷◌, Option, none, some, arith, ltb, inl, inr, if◌then◌else◌, Bool-cases, length, get_elem?,
  get_elem?-lt, take, length-take,
}
use open_tube_engine_old.Common.Allocator.{Allocator}
use open_tube_engine_old.Common.FragPool.{Elem, FragPool, mark_at, frag_pool_free_alt}
use open_tube_engine_old.Common.FragPool.Tally.{tally, length-mark_at, tally-mark_free}
use open_tube_engine_old.Common.FragPool.Ownership.{IsFragPool}
use open_tube_engine_old.Common.FragPool.Tail.{FragKeeps}
use open_tube_engine_old.Common.FragPool.Release.{frag_pool_free_alt-FragKeeps}
use open_tube_engine_old.Common.FragPool.Prefix.{IsPrefix, frag_pool_free_alt-IsPrefix}
use open_tube_engine_old.Server.Sweep.{sweep}
use open_tube_engine_old.Server.Sweep.Split.{
  split, split_zero, split_end, split_step, split-mark_free, split-take,
}

abbrev pub total {ℓ} : {A : Type ℓ} → (A → ℕ) → List A → ℕ
total f [] = 0
total f (x ∷ xs) = f x + total f xs

module _ {A : Type 0} (a : Allocator) (base : ℕ → Bool) where
  -- The element at `i` has left the pool, and no other has moved.
  abbrev pub Freed : List (Elem A) → ℕ → Elem A → Option (FragPool A × a.Heap) → Type 0
  Freed es i e none = ⊥
  Freed es i e (some (p, h)) =
      IsFragPool a base p h
      × (length p.elems ≤ length es)
      × ((f g : A → ℕ) → split f g (suc i) p.elems + f e.node ≡ split f g (suc i) es)

  Freed-from :
      (p : FragPool A) (h : a.Heap) (i : ℕ) (e : Elem A) (r : Option (FragPool A × a.Heap))
      → get_elem? p.elems i ≡ some e
      → e.free ≡ false
      → FragKeeps a base (λ _ _. 1) (tally (λ _ _. 1) p.elems - 1) r
      → IsPrefix a (mark_at true p.elems i) r
      → Freed p.elems i e r
  Freed-from p h i e none got busy keeps part = absurd keeps
  Freed-from p h i e (some (p', h')) got busy (ok, ones) (k, cut) =
      let marked = mark_at true p.elems i in
      let same : tally (λ _ _. 1) (take k marked) ≡ tally (λ _ _. 1) marked = omega (
        arith,
        ones,
        ap (λ es. tally (λ _ _. 1) es) cut,
        tally-mark_free (λ _ _. 1) p.elems i e got busy,
      ) in
      (
        ok,
        omega (arith, ap length cut, length-take k marked, length-mark_at true p.elems i),
        λ f g. omega (
          arith,
          ap (split f g (suc i)) cut,
          split-take f g (suc i) k marked same,
          split-mark_free f g i p.elems e got busy,
        ),
      )

  -- A used element given back.
  pub free_alt-Freed :
      (p : FragPool A) (h : a.Heap) (i : ℕ) (e : Elem A)
      → IsFragPool a base p h
      → get_elem? p.elems i ≡ some e
      → e.free ≡ false
      → Freed p.elems i e (frag_pool_free_alt a p i h)
  free_alt-Freed p h i e ok got busy =
      Freed-from p h i e (frag_pool_free_alt a p i h) got busy
        (let keeps = frag_pool_free_alt-FragKeeps a base (λ _ _. 1) p i e h ok got in
          subst
            (λ b.
              FragKeeps a base (λ _ _. 1) (tally (λ _ _. 1) p.elems - (if b then 0 else 1))
                (frag_pool_free_alt a p i h))
            busy keeps)
        (frag_pool_free_alt-IsPrefix a p i e h got busy)

pub tally_mono :
    {A : Type 0} (f g : A → ℕ) (es : List (Elem A))
    → ((u : A) → f u ≤ g u)
    → tally (λ _ u. f u) es ≤ tally (λ _ u. g u) es
tally_mono f g [] h = omega arith
tally_mono f g (e ∷ es) h = ground (arith, tally_mono f g es h, h e.node)

pub tally_nothing : {A : Type 0} (es : List (Elem A)) → tally (λ _ _. 0) es ≡ 0
tally_nothing [] = refl
tally_nothing (e ∷ es) = ground (arith, tally_nothing es)

module _ {A : Type 0} (a : Allocator) (base : ℕ → Bool) (leaves : A → Bool) where
  abbrev pub stay : (A → ℕ) → A → ℕ
  stay f u = if leaves u then 0 else f u

  abbrev pub leave : (A → ℕ) → A → ℕ
  leave f u = if leaves u then f u else 0

  abbrev SweptFrom : ℕ → List (Elem A) → Option (List A × FragPool A × a.Heap) → Type 0
  SweptFrom i es none = ⊥
  SweptFrom i es (some (gone, p, h)) =
      IsFragPool a base p h
      × ((f : A → ℕ)
          → (tally (λ _ u. f u) p.elems ≡ split f (stay f) i es)
            × (total f gone ≡ split (λ _. 0) (leave f) i es))

  -- No more rounds.
  stopped :
      (i : ℕ) (p : FragPool A) (h : a.Heap)
      → IsFragPool a base p h
      → p.real_len ≤ i
      → SweptFrom i p.elems (some ([], p, h))
  stopped i p h ok end = (
    ok,
    λ f.
        let le : length p.elems ≤ i = omega (arith, ok.size) in
        (
          sym (split_end f (stay f) i p.elems le),
          sym (split_end (λ _. 0) (leave f) i p.elems le ∙ tally_nothing p.elems),
        ),
  )

  -- The element at `i` stays.
  passed :
      (i : ℕ) (es : List (Elem A)) (e : Elem A) (r : Option (List A × FragPool A × a.Heap))
      → get_elem? es i ≡ some e
      → (not e.free && leaves e.node) ≡ false
      → SweptFrom (suc i) es r
      → SweptFrom i es r
  passed i es e none got stays h = h
  passed i es e (some (gone, p, h')) got stays (ok, sums) = (
    ok,
    λ f. (
      ground (arith, (sums f).0, split_step f (stay f) i es e got),
      ground (arith, (sums f).1, split_step (λ _. 0) (leave f) i es e got),
    ),
  )

  -- The element at `i` leaves.
  left :
      (i : ℕ) (es es' : List (Elem A)) (e : Elem A) (r : Option (List A × FragPool A × a.Heap))
      → get_elem? es i ≡ some e
      → (not e.free && leaves e.node) ≡ true
      → ((f g : A → ℕ) → split f g (suc i) es' + f e.node ≡ split f g (suc i) es)
      → SweptFrom (suc i) es' r
      → SweptFrom i es (elim r [ none ↦ none | some (gone, q, g) ↦ some (e.node ∷ gone, q, g) ])
  left i es es' e none got goes moved h = h
  left i es es' e (some (gone, p, h')) got goes moved (ok, sums) = (
    ok,
    λ f. (
      ground (arith, (sums f).0, split_step f (stay f) i es e got, moved f (stay f)),
      ground
          (arith, (sums f).1, split_step (λ _. 0) (leave f) i es e got, moved (λ _. 0) (leave f)),
    ),
  )

  Freed-on :
      (n i : ℕ) (p : FragPool A) (h : a.Heap) (e : Elem A) (r : Option (FragPool A × a.Heap))
      → IsFragPool a base p h
      → p.real_len ≤ i + suc n
      → get_elem? p.elems i ≡ some e
      → (not e.free && leaves e.node) ≡ true
      → Freed a base p.elems i e r
      → ((q : FragPool A) (g : a.Heap)
          → IsFragPool a base q g
          → q.real_len ≤ suc i + n
          → SweptFrom (suc i) q.elems (sweep a leaves n (suc i) q g))
      → SweptFrom i p.elems (elim r [
        | none ↦ none
        | some (p', h') ↦ elim (sweep a leaves n (suc i) p' h') [
          | none ↦ none
          | some (gone, q, g) ↦ some (e.node ∷ gone, q, g)
        ]
      ])
  Freed-on n i p h e none ok fuel got goes freed rest = freed
  Freed-on n i p h e (some (p', h')) ok fuel got goes (ok', le, moved) rest =
      left i p.elems p'.elems e (sweep a leaves n (suc i) p' h') got goes moved
        (rest p' h' ok' (omega (arith, ok.size, ok'.size)))

  sweep-SweptFrom :
      (n i : ℕ) (p : FragPool A) (h : a.Heap)
      → IsFragPool a base p h
      → p.real_len ≤ i + n
      → SweptFrom i p.elems (sweep a leaves n i p h)
  unfolding sweep
  sweep-SweptFrom zero i p h ok fuel = stopped i p h ok (omega arith)
  sweep-SweptFrom (suc n) i p h ok fuel = elim (Bool-cases (ltb i p.real_len)) [
    | inr out ↦ rw (out, sweep) (stopped i p h ok (ground arith))
    | inl within ↦
        let (e, got) = get_elem?-lt p.elems i (ground (arith, ok.size)) in
        elim (Bool-cases (not e.free && leaves e.node)) [
          | inr stays ↦
              rw (within, sweep, got, stays)
                (passed i p.elems e (sweep a leaves n (suc i) p h) got stays
                  (sweep-SweptFrom n (suc i) p h ok (omega arith)))
          | inl goes ↦
              rw (within, sweep, got, goes)
                (Freed-on n i p h e (frag_pool_free_alt a p i h) ok fuel got goes
                  (free_alt-Freed a base p h i e ok got (ground arith))
                  (λ q g. sweep-SweptFrom n (suc i) q g))
        ]
  ]

  -- `event_iter` goes through the whole pool:
  abbrev pub Swept : List (Elem A) → Option (List A × FragPool A × a.Heap) → Type 0
  Swept es none = ⊥
  Swept es (some (gone, p, h)) =
      IsFragPool a base p h
      × ((f : A → ℕ)
          → (tally (λ _ u. f u) p.elems ≡ tally (λ _ u. stay f u) es)
            × (total f gone ≡ tally (λ _ u. leave f u) es))

  Swept-whole :
      (es : List (Elem A)) (r : Option (List A × FragPool A × a.Heap))
      → SweptFrom 0 es r
      → Swept es r
  Swept-whole es none h = h
  Swept-whole es (some (gone, p, h')) (ok, sums) = (
    ok,
    λ f. ((sums f).0 ∙ split_zero f (stay f) es, (sums f).1 ∙ split_zero (λ _. 0) (leave f) es),
  )

  pub sweep-Swept :
      (p : FragPool A) (h : a.Heap)
      → IsFragPool a base p h
      → Swept p.elems (sweep a leaves p.real_len 0 p h)
  sweep-Swept p h ok =
      Swept-whole p.elems (sweep a leaves p.real_len 0 p h)
        (sweep-SweptFrom p.real_len 0 p h ok (omega arith))
