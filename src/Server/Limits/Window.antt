-- ===== src/Server/Limits/Window.antt =====
-- How many requests of a client `limit_requests` lets through in a second. (core_server.c)
use open_tube_engine_old.Base.{
  ℕ, suc, ◌+◌, ◌-◌, ◌≤◌, ◌<◌, ◌≡◌, refl, sym, ap, ◌∙◌, subst, min, Bool, true, false, List, [], ◌∷◌,
  Option, none, some, ltb, leb, arith, inl, inr, if◌then◌else◌, Bool-cases, length, u32_mod, add32,
}
use open_tube_engine_old.Http.Chars.{Bytes}
use open_tube_engine_old.Common.Allocator.{Allocator}
use open_tube_engine_old.Common.FragPool.{FragPool}
use open_tube_engine_old.Server.Limits.{LimitReq, Config, judge, first_request, limit_requests}
use open_tube_engine_old.Server.Limits.Views.{ruled, request, client_of, IsLimitTable}
use open_tube_engine_old.Server.Limits.Rate.{Changed, limit_requests-Changed}

-- All times are a second after `t` at most.
abbrev pub AreWithin : ℕ → List ℕ → Type 0
AreWithin t [] = Unit {0}
AreWithin t (u ∷ ts) = (u ≤ t + 1) × AreWithin t ts

abbrev pub one_more : Bool → Option ℕ → Option ℕ
one_more refused none = none
one_more refused (some n) = some (if refused then n else suc n)

module _ (a : Allocator) (config : Config) (undefined : LimitReq) (addr : Bytes) where
  -- Requests of one client at the given times: how many are let through.
  abbrev pub count_passed : List ℕ → FragPool LimitReq → a.Heap → Option ℕ
  count_passed [] p h = some 0
  count_passed (t ∷ ts) p h = elim (limit_requests a config undefined addr t p h) [
    | none ↦ none
    | some (refused, p', h') ↦ one_more refused (count_passed ts p' h')
  ]

  -- What the verdict on a client's entry is within the second.
  abbrev next_req : LimitReq → ℕ
  next_req k = if ltb config.limit_rate k.req then k.req else k.req + 1

  IsNext : LimitReq → Bool × Option LimitReq → Type 0
  IsNext k (refused, none) = ⊥
  IsNext k (refused, some k') =
      (refused ≡ ltb config.limit_rate (next_req k)) × (k'.time ≡ k.time) × (k'.req ≡ next_req k)

  judge-IsNext :
      (t : ℕ) (k : LimitReq)
      → config.limit_rate + 1 < u32_mod
      → t ≤ k.time + 1
      → IsNext k (ruled (judge config t k))
  unfolding judge IsNext
  judge-IsNext t k room le =
      let soon : leb t (k.time + 1) ≡ true = ground arith in
      elim (Bool-cases (ltb config.limit_rate k.req)) [
        | inl over ↦ rw over (ground arith, refl, ground arith)
        | inr under ↦
            let plus : add32 k.req 1 ≡ k.req + 1 = ground arith in
            elim (Bool-cases (ltb config.limit_rate (k.req + 1))) [
              | inl last ↦ rw (under, soon, plus, last) (ground arith, refl, ground arith)
              | inr more ↦ rw (under, soon, plus, more) (ground arith, refl, ground arith)
            ]
      ]

  module _ (base : ℕ → Bool) where
    -- A request, and those that follow.
    counted_on :
        (ts : List ℕ) (p : FragPool LimitReq) (k : LimitReq) (ruling : Bool × Option LimitReq)
        (r : Option (Bool × FragPool LimitReq × a.Heap))
        → IsNext k ruling
        → Changed a base addr p.elems ruling r
        → ((p' : FragPool LimitReq)
            → (h' : a.Heap) → (k' : LimitReq) → IsLimitTable a base p' h'
            → client_of addr p'.elems ≡ some k'
            → k'.time ≡ k.time
            → count_passed ts p' h' ≡ some (min (length ts) (config.limit_rate - k'.req)))
        → elim r [ none ↦ none | some (refused, p', h') ↦ one_more refused (count_passed ts p' h') ]
          ≡ some (min (suc (length ts)) (config.limit_rate - k.req))
    unfolding IsNext
    counted_on ts p k ruling none next changed rest = absurd changed
    counted_on ts p k (no_entry, none) (some (refused, p', h')) next changed rest = absurd next
    counted_on ts p k (ok, some k') (some (refused, p', h')) (same_ok, time, req)
          (table, same, view, others) rest =
        let few = min (length ts) (config.limit_rate - k'.req) in
        let count : (if refused then few else suc few)
            ≡ min (suc (length ts)) (config.limit_rate - k.req) =
          ground (arith, same, same_ok, req) in
        ap (one_more refused) (rest p' h' k' table view time) ∙ ap some count

    Changed-for :
        (old : Option LimitReq) (t : ℕ) (p : FragPool LimitReq) (h : a.Heap)
        → IsLimitTable a base p h
        → client_of addr p.elems ≡ old
        → (client_of addr p.elems ≡ none → p.real_len + 1 < u32_mod)
        → Changed a base addr p.elems
            (request config addr t old)
            (limit_requests a config undefined addr t p h)
    Changed-for old t p h v view room =
        subst
          (λ o.
            Changed a base addr p.elems (request config addr t o)
              (limit_requests a config undefined addr t p h))
          view (limit_requests-Changed a base config undefined addr t p h v room)

    passed_within :
        (ts : List ℕ) (t : ℕ) (p : FragPool LimitReq) (h : a.Heap) (k : LimitReq)
        → config.limit_rate + 1 < u32_mod
        → IsLimitTable a base p h
        → client_of addr p.elems ≡ some k
        → k.time ≡ t
        → AreWithin t ts
        → count_passed ts p h ≡ some (min (length ts) (config.limit_rate - k.req))
    passed_within [] t p h k room v view same within = ap some (omega arith)
    passed_within (u ∷ ts) t p h k room v view same (soon, within) =
        let change =
          Changed-for (some k) u p h v view
            (λ none_there. absurd (let e : none ≡ some k = sym none_there ∙ view in cc)) in
        counted_on ts p k (ruled (judge config u k)) (limit_requests a config undefined addr u p h)
          (judge-IsNext u k room (omega (arith, same))) change
          (λ p' h' k' v' view' same'.
            passed_within ts t p' h' k' room v' view' (same' ∙ same) within)

    first_counted :
        (ts : List ℕ) (t : ℕ) (es : FragPool LimitReq)
        (r : Option (Bool × FragPool LimitReq × a.Heap))
        → config.limit_rate + 1 < u32_mod
        → AreWithin t ts
        → Changed a base addr es.elems (false, some (first_request addr t)) r
        → elim r [ none ↦ none | some (refused, p', h') ↦ one_more refused (count_passed ts p' h') ]
          ≡ some (suc (min (length ts) (config.limit_rate - 1)))
    first_counted ts t es none room within changed = absurd changed
    first_counted ts t es (some (refused, p', h')) room within (table, same, view, others) =
        rw same (
          ap (one_more false)
            (passed_within ts t p' h' (first_request addr t) room table view refl within))

    -- A client without an entry sends a first request and then more, each a second later than the
    -- first at most. With a rate below 2^32 - 1, on a table with one entry for each client at most and
    -- room for one more, `limit_requests` lets through the first, and of the others as many as there
    -- are up to one less than the rate: the rate is never exceeded, but that of 0 lets one through.
    pub count_passed-within :
        (t : ℕ) (ts : List ℕ) (p : FragPool LimitReq) (h : a.Heap)
        → config.limit_rate + 1 < u32_mod
        → p.real_len + 1 < u32_mod
        → IsLimitTable a base p h
        → client_of addr p.elems ≡ none
        → AreWithin t ts
        → count_passed (t ∷ ts) p h ≡ some (suc (min (length ts) (config.limit_rate - 1)))
    count_passed-within t ts p h room lt v view within =
        first_counted ts t p (limit_requests a config undefined addr t p h) room within
          (Changed-for none t p h v view (λ _. lt))
