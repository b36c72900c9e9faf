-- ===== src/Server/Limits/Rate.antt =====
-- `limit_requests` changes the entry of its client, and no other. (core_server.c)
use open_tube_engine_old.Base.{
  ℕ, ◌+◌, ◌-◌, ◌≤◌, ◌<◌, ◌≡◌, refl, sym, ap, subst, Bool, true, false, List, Option, none, some,
  ltb, leb, arith, inl, inr, if◌then◌else◌, Bool-cases, Option-cases, u32_mod, add32,
}
use open_tube_engine_old.Http.Chars.{Bytes}
use open_tube_engine_old.Http.Headers.{equal_bytes}
use open_tube_engine_old.Http.Headers.Scans.{equal_bytes-eq}
use open_tube_engine_old.Common.Allocator.{Allocator, one_if}
use open_tube_engine_old.Common.FragPool.{
  Elem, FragPool, frag_pool_alloc, frag_pool_free_alt, write_node, set_node,
}
use open_tube_engine_old.Common.FragPool.Ownership.{
  IsFragPool, FragTakes, frag_pool_alloc-FragTakes,
}
use open_tube_engine_old.Common.FragPool.Tail.{FragKeeps}
use open_tube_engine_old.Common.FragPool.Release.{frag_pool_free_alt-FragKeeps}
use open_tube_engine_old.Common.FragPool.Writes.{tally-set_node, set_node-IsFragPool, write_new}
use open_tube_engine_old.Server.Sweep.{find_entry}
use open_tube_engine_old.Server.Sweep.Find.{sum, node-le, IsAt, find_entry-some, find_entry-none}
use open_tube_engine_old.Server.Limits.{
  LimitReq, Config, is_client, judge, first_request, enforce, add_entry, limit_requests, is_served,
  event_iter_limits,
}
use open_tube_engine_old.Server.Sweep.Sums.{Swept, sweep-Swept}
use open_tube_engine_old.Server.Limits.Views.{
  weight, ruled, request, client_of, same_view, of_client, view-sum, view-IsAt, view-none,
  IsLimitTable, Belongs, other_weight, own_weight, weight_one-le,
}

-- The call answers `ok` and changes the client's entry to `new`, and no other.
abbrev pub Changed :
    (a : Allocator)
    → (ℕ → Bool)
    → Bytes
    → List (Elem LimitReq)
    → Bool × Option LimitReq
    → Option (Bool × FragPool LimitReq × a.Heap)
    → Type 0
Changed a base addr es ruling none = ⊥
Changed a base addr es ruling (some (refused, p', h')) =
    IsLimitTable a base p' h'
    × (refused ≡ ruling.0)
    × (client_of addr p'.elems ≡ ruling.1)
    × ((other : Bytes)
        → equal_bytes addr other ≡ false
        → client_of other p'.elems ≡ client_of other es)

module _ (a : Allocator) (base : ℕ → Bool) where
  -- The sums over the entries tell what has become of each client's.
  Changed-sums :
      (addr : Bytes) (es : List (Elem LimitReq)) (refused : Bool) (old new : Option LimitReq)
      (p : FragPool LimitReq) (h : a.Heap)
      → ((addr' : Bytes) → sum (λ k. one_if (is_client addr' k)) es ≤ 1)
      → client_of addr es ≡ old
      → Belongs addr old
      → Belongs addr new
      → IsFragPool a base p h
      → ((f : LimitReq → ℕ) → sum f p.elems + weight f old ≡ weight f new + sum f es)
      → Changed a base addr es (refused, new) (some (refused, p, h))
  Changed-sums addr es refused old new p h once was own own' ok sums = (
    record { pool = ok; once = once' },
    refl,
    same_view (client_of addr p.elems) new λ f. omega (
      arith,
      view-sum addr f p.elems (once' addr),
      view-sum addr f es (once addr),
      sums (of_client addr f),
      own_weight addr f old own,
      own_weight addr f new own',
      ap (weight f) was,
    ),
    λ other no_match. same_view (client_of other p.elems) (client_of other es) λ f. omega (
      arith,
      view-sum other f p.elems (once' other),
      view-sum other f es (once other),
      sums (of_client other f),
      other_weight addr other f old own no_match,
      other_weight addr other f new own' no_match,
    ),
  )
    where
      one : LimitReq → ℕ
      one _ = 1

      once' : (addr' : Bytes) → sum (λ k. one_if (is_client addr' k)) p.elems ≤ 1
      once' addr' = elim (Bool-cases (equal_bytes addr addr')) [
        | inl same ↦
            let e : addr ≡ addr' = equal_bytes-eq addr addr' same in
            rw (← e) (
              omega (
                arith,
                sums (of_client addr one),
                view-sum addr one es (once addr),
                ap (weight one) was,
                own_weight addr one old own,
                own_weight addr one new own',
                weight_one-le one new (λ k. omega arith),
              ))
        | inr differs ↦ omega (
          arith,
          sums (of_client addr' one),
          once addr',
          other_weight addr addr' one old own differs,
          other_weight addr addr' one new own' differs,
        )
      ]

  -- A change of the client's entry where it stands.
  Changed-at :
      (addr : Bytes) (refused : Bool) (i : ℕ) (k : LimitReq) (p : FragPool LimitReq) (h : a.Heap)
      → IsLimitTable a base p h
      → IsAt (is_client addr) p.elems i
      → k.addr ≡ addr
      → Changed a base addr p.elems
          (refused, some k)
          (some (refused, record p { elems = set_node p.elems i k }, h))
  Changed-at addr refused i k p h v at own =
      Changed-sums addr p.elems refused (some at.elem.node) (some k)
        (record p { elems = set_node p.elems i k }) h v.once
        (view-IsAt addr p.elems i (v.once addr) at) (equal_bytes-eq at.elem.node.addr addr at.same)
        own (set_node-IsFragPool a base p h i k v.pool)
        (λ f. tally-set_node (λ _ u. f u) p.elems i at.elem k at.at at.used)

  forgotten :
      (addr : Bytes) (i : ℕ) (p : FragPool LimitReq) (h : a.Heap)
      (r : Option (FragPool LimitReq × a.Heap)) (at : IsAt (is_client addr) p.elems i)
      → IsLimitTable a base p h
      → ((f : LimitReq → ℕ)
          → FragKeeps a base
              (λ _ u. f u)
              (sum f p.elems - (if at.elem.free then 0 else f at.elem.node))
              r)
      → Changed a base addr p.elems
          (false, none)
          (elim r [ none ↦ none | some (p', h') ↦ some (false, p', h') ])
  forgotten addr i p h none at v keeps = keeps (λ _. 0)
  forgotten addr i p h (some (p', h')) at v keeps =
      Changed-sums addr p.elems false (some at.elem.node) none p' h' v.once
        (view-IsAt addr p.elems i (v.once addr) at) (equal_bytes-eq at.elem.node.addr addr at.same)
        tt (keeps (λ _. 0)).0
        (λ f. ground (arith, (keeps f).1, at.used, node-le f p.elems i at.elem at.at at.used))

  new_entry :
      (addr : Bytes) (k : LimitReq) (p : FragPool LimitReq)
      (r : Option (ℕ × FragPool LimitReq × a.Heap))
      → ((addr' : Bytes) → sum (λ u. one_if (is_client addr' u)) p.elems ≤ 1)
      → sum (λ u. one_if (is_client addr u)) p.elems ≡ 0
      → k.addr ≡ addr
      → FragTakes a base p.elems r
      → Changed a base addr p.elems
          (false, some k)
          (elim r [
            | none ↦ none
            | some (x, p', h') ↦ some (false, record p' { elems = write_node x k p'.elems }, h')
          ])
  new_entry addr k p none once fresh own takes = takes
  new_entry addr k p (some (x, p', h')) once fresh own takes =
      Changed-sums addr p.elems false none (some k) (record p' { elems = write_node x k p'.elems })
        h' once (view-none addr p.elems fresh) tt own
        (write_new a base p.elems x p' h' k (λ _. 0) takes).0
        (λ f. omega (arith, (write_new a base p.elems x p' h' k f takes).1))

  -- The verdict keeps the address.
  enforce-Changed :
      (config : Config) (addr : Bytes) (curtime i : ℕ) (p : FragPool LimitReq) (h : a.Heap)
      (at : IsAt (is_client addr) p.elems i)
      → IsLimitTable a base p h
      → Changed a base addr p.elems
          (ruled (judge config curtime at.elem.node))
          (enforce a p i (judge config curtime at.elem.node) h)
  unfolding judge enforce
  enforce-Changed config addr curtime i p h at v =
      let k = at.elem.node in
      let own : k.addr ≡ addr = equal_bytes-eq k.addr addr at.same in
      let more = add32 k.req 1 in
      elim (Bool-cases (ltb config.limit_rate k.req)) [
        | inl over ↦ rw over (Changed-at addr true i k p h v at own)
        | inr under ↦ elim (Bool-cases (leb curtime (k.time + 1))) [
          | inr late ↦
              rw (under, late)
                (forgotten addr i p h (frag_pool_free_alt a p i h) at v (λ f.
                  frag_pool_free_alt-FragKeeps a base (λ _ u. f u) p i at.elem h v.pool at.at))
          | inl soon ↦ elim (Bool-cases (ltb config.limit_rate more)) [
            | inl last ↦
                rw (under, soon, last)
                  (Changed-at addr true i
                    (record k { req = more; dtime = curtime + config.limit_delay }) p h v at own)
            | inr room ↦
                rw (under, soon, room)
                  (Changed-at addr false i (record k { req = more }) p h v at own)
          ]
        ]
      ]

  -- The call does the verdict to the client's entry.
  pub limit_requests-Changed :
      (config : Config) (undefined : LimitReq) (addr : Bytes) (curtime : ℕ) (p : FragPool LimitReq)
      (h : a.Heap)
      → IsLimitTable a base p h
      → (client_of addr p.elems ≡ none → p.real_len + 1 < u32_mod)
      → Changed a base addr p.elems
          (request config addr curtime (client_of addr p.elems))
          (limit_requests a config undefined addr curtime p h)
  unfolding limit_requests add_entry
  limit_requests-Changed config undefined addr curtime p h v lt =
      elim (Option-cases (find_entry (is_client addr) p.real_len 0 p.elems)) [
        | inl missing ↦
            let fresh : sum (λ u. one_if (is_client addr u)) p.elems ≡ 0 =
              find_entry-none (is_client addr) p.real_len 0 p.elems missing (sym v.pool.size) in
            rw (missing, limit_requests, view-none addr p.elems fresh)
              (new_entry addr (first_request addr curtime) p (frag_pool_alloc a undefined p h)
                v.once fresh refl
                (frag_pool_alloc-FragTakes a base undefined p h v.pool
                  (lt (view-none addr p.elems fresh))))
        | inr (i, here) ↦
            let (j, same, at) = find_entry-some (is_client addr) p.real_len 0 i p.elems here in
            let e : j ≡ i = omega arith in
            let at' : IsAt (is_client addr) p.elems i =
              subst (IsAt (is_client addr) p.elems) e at in
            rw (here, limit_requests, at'.at, view-IsAt addr p.elems i (v.once addr) at')
              (enforce-Changed config addr curtime i p h at' v)
      ]

  -- The pass of `event_iter` over a valid pool gives back the entries of clients whose time of
  -- refusal is over, these and no others; the entries that stay are as they were.
  pub event_iter_limits-Swept :
      (curtime : ℕ) (p : FragPool LimitReq) (h : a.Heap)
      → IsFragPool a base p h
      → Swept a base (is_served a curtime) p.elems (event_iter_limits a curtime p h)
  unfolding event_iter_limits
  event_iter_limits-Swept curtime p h ok = sweep-Swept a base (is_served a curtime) p h ok
