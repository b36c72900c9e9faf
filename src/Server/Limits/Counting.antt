-- ===== src/Server/Limits/Counting.antt =====
-- The loop of `limit_sim_requests`, round by round. (core_server.c)
use open_tube_engine_old.Base.{
  ℕ, zero, suc, ◌+◌, ◌≤◌, ◌≡◌, refl, sym, ◌∙◌, Bool, true, false, not, ◌&&◌, List, Option, none,
  some, ltb, leb, arith, inl, inr, if◌then◌else◌, Bool-cases, length, get_elem?, get_elem?-lt,
  add32,
}
use open_tube_engine_old.Http.Chars.{Bytes}
use open_tube_engine_old.Common.Allocator.{Allocator, one_if}
use open_tube_engine_old.Common.FragPool.{Elem, FragPool, frag_pool_free_alt}
use open_tube_engine_old.Common.FragPool.Ownership.{IsFragPool}
use open_tube_engine_old.Server.Sweep.Find.{sum}
use open_tube_engine_old.Server.Sweep.Split.{split, split_end, split_step, split_same}
use open_tube_engine_old.Server.Sweep.Sums.{Freed, free_alt-Freed, tally_nothing}
use open_tube_engine_old.Server.Limits.{Config, is_stale, comes_from, count_connections}

module _ (a : Allocator) (base : ℕ → Bool) (getpeername : ℕ → Option Bytes) (config : Config)
    (addr : Bytes) (s : ℕ) where
  abbrev pub stale : ℕ → Bool
  stale t = is_stale a getpeername config s t

  -- The connections that count: those of the client that are open, without the socket itself.
  abbrev pub counts : ℕ → ℕ
  counts t =
      one_if (not (is_stale a getpeername config s t) && comes_from a getpeername config addr t)

  abbrev pub lasting : (ℕ → ℕ) → ℕ → ℕ
  lasting f t = if is_stale a getpeername config s t then 0 else f t

  abbrev pub CountedFrom : ℕ → ℕ → List (Elem ℕ) → Option (Bool × FragPool ℕ × a.Heap) → Type 0
  CountedFrom i total es none = ⊥
  CountedFrom i total es (some (refused, p, h)) =
      let more = split (λ _. 0) counts i es in
      IsFragPool a base p h
      × (length p.elems ≤ length es)
      × (refused ≡ (ltb 0 more && leb config.limit_sim_threshold (total + more)))
      × ((f : ℕ → ℕ) → refused ≡ false → sum f p.elems ≡ split f (lasting f) i es)
      × ((f : ℕ → ℕ) → sum (lasting f) p.elems ≡ sum (lasting f) es)

  finished :
      (i total : ℕ) (p : FragPool ℕ) (h : a.Heap)
      → IsFragPool a base p h
      → p.real_len ≤ i
      → CountedFrom i total p.elems (some (false, p, h))
  finished i total p h ok end =
      let le : length p.elems ≤ i = omega (arith, ok.size) in
      let nothing : split (λ _. 0) counts i p.elems ≡ 0 =
        split_end (λ _. 0) counts i p.elems le ∙ tally_nothing p.elems in
      (
        ok,
        omega arith,
        ground (arith, nothing),
        λ f e. sym (split_end f (lasting f) i p.elems le),
        λ f. refl,
      )

  -- An element that neither leaves nor counts.
  skipped :
      (i total : ℕ) (es : List (Elem ℕ)) (e : Elem ℕ) (r : Option (Bool × FragPool ℕ × a.Heap))
      → get_elem? es i ≡ some e
      → (not e.free && stale e.node) ≡ false
      → (not e.free && comes_from a getpeername config addr e.node) ≡ false
      → CountedFrom (suc i) total es r
      → CountedFrom i total es r
  skipped i total es e none got stays apart h = h
  skipped i total es e (some (refused, p, h')) got stays apart (ok, le, answer, sums, kept) =
      let same : split (λ _. 0) counts (suc i) es ≡ split (λ _. 0) counts i es =
        ground (arith, split_step (λ _. 0) counts i es e got) in
      (
        ok,
        le,
        rw (← same) answer,
        λ f no_refusal. ground (arith, sums f no_refusal, split_step f (lasting f) i es e got),
        kept,
      )

  -- A connection of the client.
  counted_one :
      (i total next : ℕ) (es : List (Elem ℕ)) (e : Elem ℕ) (r : Option (Bool × FragPool ℕ × a.Heap))
      → get_elem? es i ≡ some e
      → (not e.free && stale e.node) ≡ false
      → (not e.free && comes_from a getpeername config addr e.node) ≡ true
      → next ≡ total + 1
      → leb config.limit_sim_threshold next ≡ false
      → CountedFrom (suc i) next es r
      → CountedFrom i total es r
  counted_one i total next es e none got stays mine plus few h = h
  counted_one i total next es e (some (refused, p, h')) got stays mine plus few
        (ok, le, answer, sums, kept) =
      let one : suc (split (λ _. 0) counts (suc i) es) ≡ split (λ _. 0) counts i es =
        ground (arith, split_step (λ _. 0) counts i es e got) in
      (
        ok,
        le,
        ground (arith, answer, one, plus),
        λ f no_refusal. ground (arith, sums f no_refusal, split_step f (lasting f) i es e got),
        kept,
      )

  too_many :
      (i total next : ℕ) (p : FragPool ℕ) (e : Elem ℕ) (h : a.Heap)
      → IsFragPool a base p h
      → get_elem? p.elems i ≡ some e
      → (not e.free && stale e.node) ≡ false
      → (not e.free && comes_from a getpeername config addr e.node) ≡ true
      → next ≡ total + 1
      → leb config.limit_sim_threshold next ≡ true
      → CountedFrom i total p.elems (some (true, p, h))
  too_many i total next p e h ok got stays mine plus many =
      let one : suc (split (λ _. 0) counts (suc i) p.elems) ≡ split (λ _. 0) counts i p.elems =
        ground (arith, split_step (λ _. 0) counts i p.elems e got) in
      (
        ok,
        omega arith,
        ground (arith, one, plus),
        λ f e. absurd (let e' : true ≡ false = e in ground arith),
        λ f. refl,
      )

  -- A stale element leaves.
  stale_left :
      (i total : ℕ) (es es' : List (Elem ℕ)) (e : Elem ℕ) (r : Option (Bool × FragPool ℕ × a.Heap))
      → get_elem? es i ≡ some e
      → (not e.free && stale e.node) ≡ true
      → length es' ≤ length es
      → ((f g : ℕ → ℕ) → split f g (suc i) es' + f e.node ≡ split f g (suc i) es)
      → CountedFrom (suc i) total es' r
      → CountedFrom i total es r
  stale_left i total es es' e none got goes less moved h = h
  stale_left i total es es' e (some (refused, p, h')) got goes less moved
        (ok, le, answer, sums, kept) =
      let same : split (λ _. 0) counts (suc i) es' ≡ split (λ _. 0) counts i es =
        ground (arith, split_step (λ _. 0) counts i es e got, moved (λ _. 0) counts) in
      (
        ok,
        omega arith,
        rw (← same) answer,
        λ f no_refusal.
            ground
              (arith, sums f no_refusal, split_step f (lasting f) i es e got, moved f (lasting f)),
        λ f. ground (
          arith,
          kept f,
          moved (lasting f) (lasting f),
          split_same (lasting f) (suc i) es,
          split_same (lasting f) (suc i) es',
        ),
      )

  Freed-on :
      (n i total : ℕ) (p : FragPool ℕ) (e : Elem ℕ) (r : Option (FragPool ℕ × a.Heap))
      → get_elem? p.elems i ≡ some e
      → (not e.free && stale e.node) ≡ true
      → Freed a base p.elems i e r
      → ((q : FragPool ℕ)
          → (g : a.Heap) → IsFragPool a base q g
          → length q.elems ≤ length p.elems
          → CountedFrom
              (suc i)
              total
              q.elems
              (count_connections a getpeername config addr s n (suc i) total q g))
      → CountedFrom i total p.elems (elim r [
        | none ↦ none
        | some (p', h') ↦ count_connections a getpeername config addr s n (suc i) total p' h'
      ])
  Freed-on n i total p e none got goes freed rest = absurd freed
  Freed-on n i total p e (some (p', h')) got goes (ok, le, moved) rest =
      stale_left i total p.elems p'.elems e _ got goes le moved (rest p' h' ok le)

  -- The loop, from index `i` on.
  pub count-CountedFrom :
      (n i total : ℕ) (p : FragPool ℕ) (h : a.Heap)
      → IsFragPool a base p h
      → p.real_len ≤ i + n
      → total ≤ i
      → CountedFrom i total p.elems (count_connections a getpeername config addr s n i total p h)
  unfolding count_connections
  count-CountedFrom zero i total p h ok fuel few = finished i total p h ok (omega arith)
  count-CountedFrom (suc n) i total p h ok fuel few = elim (Bool-cases (ltb i p.real_len)) [
    | inr out ↦ rw (out, count_connections) (finished i total p h ok (ground arith))
    | inl within ↦
        let (e, got) = get_elem?-lt p.elems i (ground (arith, ok.size)) in
        elim (Bool-cases (not e.free && stale e.node)) [
          | inl goes ↦
              rw (within, count_connections, got, goes)
                (Freed-on n i total p e (frag_pool_free_alt a p i h) got goes
                  (free_alt-Freed a base p h i e ok got (ground arith))
                  (λ q g ok' le.
                    count-CountedFrom n (suc i) total q g ok' (omega (arith, ok.size, ok'.size))
                      (omega arith)))
          | inr stays ↦
              elim (Bool-cases (not e.free && comes_from a getpeername config addr e.node)) [
                | inr apart ↦
                    rw (within, count_connections, got, stays, apart)
                      (skipped i total p.elems e _ got stays apart
                        (count-CountedFrom n (suc i) total p h ok (omega arith) (omega arith)))
                | inl mine ↦
                    let plus : add32 total 1 ≡ total + 1 = ground (arith, ok.bounded) in
                    elim (Bool-cases (leb config.limit_sim_threshold (add32 total 1))) [
                      | inl many ↦
                          rw (within, count_connections, got, stays, mine, many)
                            (too_many i total (add32 total 1) p e h ok got stays mine plus many)
                      | inr below ↦
                          rw (within, count_connections, got, stays, mine, below)
                            (counted_one i total (add32 total 1) p.elems e _ got stays mine plus
                              below
                              (count-CountedFrom n (suc i) (add32 total 1) p h ok (omega arith)
                                (omega (arith, plus))))
                    ]
              ]
        ]
  ]
