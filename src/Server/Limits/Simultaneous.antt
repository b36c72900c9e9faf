-- ===== src/Server/Limits/Simultaneous.antt =====
-- `limit_sim_requests` counts the connections of a client. (core_server.c)
use open_tube_engine_old.Base.{
  ℕ, ◌+◌, ◌<◌, ◌≡◌, refl, sym, ap, ◌∙◌, subst, inl, inr, not, ◌==◌, if◌then◌else◌, Option-cases,
  Bool, true, false, ◌&&◌, List, Option, none, some, ltb, leb, arith, length, u32_mod,
}
use open_tube_engine_old.Http.Chars.{Bytes}
use open_tube_engine_old.Http.Headers.{equal_bytes}
use open_tube_engine_old.Common.Allocator.{Allocator, one_if}
use open_tube_engine_old.Common.FragPool.{Elem, FragPool, frag_pool_alloc, write_node}
use open_tube_engine_old.Common.FragPool.Ownership.{
  IsFragPool, FragTakes, frag_pool_alloc-FragTakes,
}
use open_tube_engine_old.Common.FragPool.Writes.{write_new}
use open_tube_engine_old.Server.Sweep.Find.{sum}
use open_tube_engine_old.Server.Sweep.Split.{split_zero}
use open_tube_engine_old.Server.Limits.{Config, count_connections, add_entry, limit_sim_requests}
use open_tube_engine_old.Server.Limits.Counting.{counts, lasting, CountedFrom, count-CountedFrom}

module _ (a : Allocator) (base : ℕ → Bool) (getpeername : ℕ → Option Bytes) (config : Config)
    (addr : Bytes) (s : ℕ) where
  -- What `counted` and `lasts` say of the entries: the call refuses by the number of those that
  -- count. Where it lets the request through, the entries are those that last and the new one;
  -- where it refuses, those that last are still there.
  abbrev refuses : (ℕ → ℕ) → List (Elem ℕ) → Bool
  refuses counted es = ltb 0 (sum counted es) && leb config.limit_sim_threshold (sum counted es)

  abbrev AdmittedBy :
      (ℕ → ℕ) → ((ℕ → ℕ) → ℕ → ℕ) → List (Elem ℕ) → Option (Bool × FragPool ℕ × a.Heap) → Type 0
  AdmittedBy counted lasts es none = ⊥
  AdmittedBy counted lasts es (some (refused, p, h)) =
      IsFragPool a base p h
      × (refused ≡ refuses counted es)
      × ((f : ℕ → ℕ) → refused ≡ false → sum f p.elems ≡ f s + sum (lasts f) es)
      × ((f : ℕ → ℕ) → refused ≡ true → sum (lasts f) p.elems ≡ sum (lasts f) es)

  -- The socket is not the request's own, and its connection is open.
  abbrev is_open : ℕ → Bool
  is_open t = not (t == s) && elim (getpeername t) [ none ↦ false | some b ↦ true ]

  -- It is open to the client.
  abbrev is_clients : ℕ → Bool
  is_clients t = not (t == s) && elim (getpeername t) [ none ↦ false | some b ↦ equal_bytes addr b ]

  abbrev pub Admitted : List (Elem ℕ) → Option (Bool × FragPool ℕ × a.Heap) → Type 0
  Admitted = AdmittedBy (λ t. one_if (is_clients t)) (λ f t. if is_open t then f t else 0)

  abbrev AdmittedByCode : List (Elem ℕ) → Option (Bool × FragPool ℕ × a.Heap) → Type 0
  AdmittedByCode =
      AdmittedBy (counts a base getpeername config addr s)
        (lasting a base getpeername config addr s)

  counts-is_clients : (t : ℕ) → counts a base getpeername config addr s t ≡ one_if (is_clients t)
  counts-is_clients t = elim (Option-cases (getpeername t)) [
    | inl closed ↦ rw closed (ground arith)
    | inr (b, peer) ↦ rw peer (ground arith)
  ]

  lasting-is_open :
      (f : ℕ → ℕ) (t : ℕ)
      → lasting a base getpeername config addr s f t ≡ (if is_open t then f t else 0)
  lasting-is_open f t = elim (Option-cases (getpeername t)) [
    | inl closed ↦ rw closed (ground arith)
    | inr (b, peer) ↦ rw peer (ground arith)
  ]

  Code-Admitted :
      (es : List (Elem ℕ)) (r : Option (Bool × FragPool ℕ × a.Heap))
      → AdmittedByCode es r
      → Admitted es r
  Code-Admitted es r =
      subst (λ (g : (ℕ → ℕ) × ((ℕ → ℕ) → ℕ → ℕ)). AdmittedBy g.0 g.1 es r)
        (λ i. (λ t. counts-is_clients t i, λ f t. lasting-is_open f t i))

  entered :
      (undefined : ℕ) (es : List (Elem ℕ)) (p : FragPool ℕ) (r : Option (ℕ × FragPool ℕ × a.Heap))
      → refuses (counts a base getpeername config addr s) es ≡ false
      → ((f : ℕ → ℕ) → sum f p.elems ≡ sum (lasting a base getpeername config addr s f) es)
      → FragTakes a base p.elems r
      → AdmittedByCode es (elim r [
        | none ↦ none
        | some (x, p', h') ↦ some (false, record p' { elems = write_node x s p'.elems }, h')
      ])
  entered undefined es p none answer sums takes = takes
  entered undefined es p (some (x, p', h')) answer sums takes = (
    (write_new a base p.elems x p' h' s (λ _. 0) takes).0,
    sym answer,
    λ f e. (write_new a base p.elems x p' h' s f takes).1 ∙ ap (◌+◌ (f s)) (sums f),
    λ f e. absurd (let e' : false ≡ true = e in ground arith),
  )

  Counted-Admitted :
      (undefined : ℕ) (es : List (Elem ℕ)) (r : Option (Bool × FragPool ℕ × a.Heap))
      → length es + 1 < u32_mod
      → CountedFrom a base getpeername config addr s 0 0 es r
      → AdmittedByCode es (elim r [
        | none ↦ none
        | some (true, p', h') ↦ some (true, p', h')
        | some (false, p', h') ↦ add_entry a undefined s p' h'
      ])
  unfolding add_entry
  Counted-Admitted undefined es none lt h = h
  Counted-Admitted undefined es (some (true, p, h')) lt (ok, le, answer, sums, kept) = (
    ok,
    ground (arith, answer, split_zero (λ _. 0) (counts a base getpeername config addr s) es),
    λ f e. absurd (let e' : true ≡ false = e in ground arith),
    λ f e. kept f,
  )
  Counted-Admitted undefined es (some (false, p, h')) lt (ok, le, answer, sums, kept) =
      entered undefined es p (frag_pool_alloc a undefined p h')
        (ground (arith, answer, split_zero (λ _. 0) (counts a base getpeername config addr s) es))
        (λ f. sums f refl ∙ split_zero f (lasting a base getpeername config addr s f) es)
        (frag_pool_alloc-FragTakes a base undefined p h' ok (omega (arith, ok.size)))

  -- On a valid pool with room for one more element, `limit_sim_requests` refuses a request exactly
  -- where the open connections of its client, without its own socket, are as many as the threshold
  -- and at least one. A request that is let through is entered once, and the entries of closed
  -- sockets leave; a refusal leaves the entries of open sockets as they were.
  pub limit_sim_requests-Admitted :
      (undefined : ℕ) (p : FragPool ℕ) (h : a.Heap)
      → IsFragPool a base p h
      → p.real_len + 1 < u32_mod
      → Admitted p.elems (limit_sim_requests a getpeername config undefined addr s p h)
  unfolding limit_sim_requests
  limit_sim_requests-Admitted undefined p h ok lt = Code-Admitted p.elems _ (
      Counted-Admitted undefined p.elems
        (count_connections a getpeername config addr s p.real_len 0 0 p h) (omega (arith, ok.size))
        (count-CountedFrom a base getpeername config addr s p.real_len 0 0 p h ok (omega arith)
          (omega arith)))
