-- ===== src/Server/Limits/Ruling.antt =====
-- What `limit_requests` is to do with the entry of a client. (core_server.c)
use open_tube_engine_old.Base.{
  ℕ, ◌+◌, ◌%◌, ◌≤◌, ◌<◌, ◌≡◌, Bool, true, false, List, Option, none, some, ltb, leb, arith, inl,
  inr, Bool-cases, u32_mod, add32,
}
use open_tube_engine_old.Http.Chars.{Bytes}
use open_tube_engine_old.Http.Headers.{equal_bytes}
use open_tube_engine_old.Common.Allocator.{Allocator}
use open_tube_engine_old.Common.FragPool.{Elem, FragPool}
use open_tube_engine_old.Server.Limits.{LimitReq, Config, judge, limit_requests}
use open_tube_engine_old.Server.Limits.Views.{request, client_of, IsLimitTable}
use open_tube_engine_old.Server.Limits.Rate.{Changed, limit_requests-Changed}

-- The reference: the entry of the client before, whether the request is refused, and the entry
-- after. The number of requests is of 32 bits.
pub data Ruling (config : Config) (addr : Bytes) (t : ℕ)
    : Option LimitReq → Bool → Option LimitReq → Type 0 where
  -- A client without an entry gets one.
  first :
      Ruling config addr t none false (some (record { addr = addr; time = t; dtime = 0; req = 1 }))
  -- More requests than the rate already: refused, and nothing changes.
  blocked : {k : LimitReq} → config.limit_rate < k.req → Ruling config addr t (some k) true (some k)
  -- Within the second, and the rate is not exceeded: counted.
  counted :
      {k : LimitReq}
      → k.req ≤ config.limit_rate
      → t ≤ k.time + 1
      → (k.req + 1) % u32_mod ≤ config.limit_rate
      → Ruling config addr t (some k) false (some (record k { req = (k.req + 1) % u32_mod }))
  -- Within the second, and the rate is exceeded: refused, until the delay is over.
  exceeded :
      {k : LimitReq}
      → k.req ≤ config.limit_rate
      → t ≤ k.time + 1
      → config.limit_rate < (k.req + 1) % u32_mod
      → Ruling config addr t
          (some k)
          true
          (some (record k { req = (k.req + 1) % u32_mod; dtime = t + config.limit_delay }))
  -- After the second: the entry goes.
  passed :
      {k : LimitReq}
      → k.req ≤ config.limit_rate
      → k.time + 1 < t
      → Ruling config addr t (some k) false none

request-Ruling :
    (config : Config) (addr : Bytes) (t : ℕ) (o : Option LimitReq)
    → let (refused, o') = request config addr t o in Ruling config addr t o refused o'
unfolding judge
request-Ruling config addr t none = first
request-Ruling config addr t (some k) = elim (Bool-cases (ltb config.limit_rate k.req)) [
  | inl over ↦ rw over (blocked (ground arith))
  | inr under ↦ elim (Bool-cases (leb t (k.time + 1))) [
    | inr late ↦ rw (under, late) (passed (ground arith) (ground arith))
    | inl soon ↦ elim (Bool-cases (ltb config.limit_rate (add32 k.req 1))) [
      | inl last ↦
          rw (under, soon, last) (exceeded (ground arith) (ground arith) (ground (arith, last)))
      | inr room ↦
          rw (under, soon, room) (counted (ground arith) (ground arith) (ground (arith, room)))
    ]
  ]
]

module _ (a : Allocator) (base : ℕ → Bool) (config : Config) (addr : Bytes) (t : ℕ) where
  -- The answer and the client's entry are by the reference, and no other entry changes.
  abbrev pub Ruled : List (Elem LimitReq) → Option (Bool × FragPool LimitReq × a.Heap) → Type 0
  Ruled es none = ⊥
  Ruled es (some (refused, p', h')) =
      IsLimitTable a base p' h'
      × Ruling config addr t (client_of addr es) refused (client_of addr p'.elems)
      × ((other : Bytes)
          → equal_bytes addr other ≡ false
          → client_of other p'.elems ≡ client_of other es)

  Changed-Ruled :
      (es : List (Elem LimitReq)) (r : Option (Bool × FragPool LimitReq × a.Heap))
      → Changed a base addr es (request config addr t (client_of addr es)) r
      → Ruled es r
  Changed-Ruled es none changed = changed
  Changed-Ruled es (some (refused, p', h')) (ok, answer, entry, others) =
      (ok, rw (answer, entry) (request-Ruling config addr t (client_of addr es)), others)

  -- On a table with one entry for each client at most, and with room for one more element where the
  -- client has none, `limit_requests` succeeds. A client without an entry is let through and gets
  -- one; one with more requests than the rate is refused, with its entry as it was; within a second
  -- of the first request the request is counted, and refused with the end of the delay noted where
  -- that makes more than the rate; after the second the request is let through and the entry goes.
  -- Every other client's entry is as it was, and each client has one entry at most.
  pub limit_requests-Ruled :
      (undefined : LimitReq) (p : FragPool LimitReq) (h : a.Heap)
      → IsLimitTable a base p h
      → (client_of addr p.elems ≡ none → p.real_len + 1 < u32_mod)
      → Ruled p.elems (limit_requests a config undefined addr t p h)
  limit_requests-Ruled undefined p h v lt =
      Changed-Ruled p.elems (limit_requests a config undefined addr t p h)
        (limit_requests-Changed a base config undefined addr t p h v lt)
