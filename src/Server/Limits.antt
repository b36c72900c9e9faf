-- ===== src/Server/Limits.antt =====
-- The limits on requests of one client: in a second, and at a time. (core_server.c)
pub mod Views
pub mod Rate
pub mod Ruling
pub mod Window
pub mod Counting
pub mod Simultaneous
use open_tube_engine_old.Base.{
  ℕ, zero, suc, ◌+◌, ◌-◌, Bool, true, false, not, ◌&&◌, ◌||◌, List, [], ◌∷◌, Option, none, some,
  ltb, leb, ◌==◌, if◌then◌else◌, get_elem?, add32,
}
use open_tube_engine_old.Http.Chars.{Bytes}
use open_tube_engine_old.Http.Headers.{equal_bytes}
use open_tube_engine_old.Common.Allocator.{Allocator}
use open_tube_engine_old.Common.FragPool.{
  Elem, FragPool, frag_pool_alloc, frag_pool_free_alt, write_node, set_node,
}
use open_tube_engine_old.Server.Sweep.{find_entry, sweep}

-- `limit_req_t`, with the bytes of the address that are compared.
pub record LimitReq : Type 0 where
  pub addr : Bytes
  pub time : ℕ
  pub dtime : ℕ
  pub req : ℕ

-- The fields of the configuration.
pub record Config : Type 0 where
  pub limit_rate : ℕ
  pub limit_delay : ℕ
  pub limit_sim_threshold : ℕ

abbrev pub is_client : Bytes → LimitReq → Bool
is_client addr k = equal_bytes k.addr addr

-- What becomes of the entry of a client: the request is refused or let through with the entry
-- changed, or let through with the entry given back.
pub data Verdict : Type 0 where
  refuse allow : LimitReq → Verdict
  forget : Verdict

unfoldable pub judge : Config → ℕ → LimitReq → Verdict
judge config curtime k =
    let k' = record k { req = add32 k.req 1 } in
    if ltb config.limit_rate k.req
    then refuse k
    else if leb curtime (k.time + 1)
    then (if ltb config.limit_rate k'.req
        then refuse (record k' { dtime = curtime + config.limit_delay })
        else allow k')
    else forget

abbrev pub first_request : Bytes → ℕ → LimitReq
first_request addr curtime = record { addr = addr; time = curtime; dtime = 0; req = 1 }

module _ (a : Allocator) where
  unfoldable pub enforce :
      FragPool LimitReq → ℕ → Verdict → a.Heap → Option (Bool × FragPool LimitReq × a.Heap)
  enforce p i (refuse k) h = some (true, record p { elems = set_node p.elems i k }, h)
  enforce p i (allow k) h = some (false, record p { elems = set_node p.elems i k }, h)
  enforce p i forget h = elim (frag_pool_free_alt a p i h) [
    | none ↦ none
    | some (p', h') ↦ some (false, p', h')
  ]

  -- A new element, written through the pointer that the pool returns.
  unfoldable pub add_entry :
      {A : Type 0} → A → A → FragPool A → a.Heap → Option (Bool × FragPool A × a.Heap)
  add_entry undefined k p h = elim (frag_pool_alloc a undefined p h) [
    | none ↦ none
    | some (x, p', h') ↦ some (false, record p' { elems = write_node x k p'.elems }, h')
  ]

  module _ (config : Config) where
    -- True is a refusal.
    unfoldable pub limit_requests :
        LimitReq
        → Bytes
        → ℕ
        → FragPool LimitReq
        → a.Heap
        → Option (Bool × FragPool LimitReq × a.Heap)
    limit_requests undefined addr curtime p h =
        elim (find_entry (is_client addr) p.real_len 0 p.elems) [
          | none ↦ add_entry undefined (first_request addr curtime) p h
          | some i ↦ elim (get_elem? p.elems i) [
            | none ↦ none
            | some e ↦ enforce p i (judge config curtime e.node) h
          ]
        ]

  -- `dtime != 0 && curtime > dtime`
  abbrev pub is_served : ℕ → LimitReq → Bool
  is_served curtime k = not (k.dtime == 0) && ltb k.dtime curtime

  -- The part of `event_iter` that looks after the clients.
  unfoldable pub event_iter_limits :
      ℕ → FragPool LimitReq → a.Heap → Option (List LimitReq × FragPool LimitReq × a.Heap)
  event_iter_limits curtime p h = sweep a (is_served curtime) p.real_len 0 p h

  -- The entries of `limit_sim_req_clients` are sockets.
  module _ (getpeername : ℕ → Option Bytes) (config : Config) where
    abbrev pub is_stale : ℕ → ℕ → Bool
    is_stale s t = t == s || elim (getpeername t) [ none ↦ true | some b ↦ false ]

    abbrev pub comes_from : Bytes → ℕ → Bool
    comes_from addr t = elim (getpeername t) [ none ↦ false | some b ↦ equal_bytes addr b ]

    -- At most `n` rounds of the loop, from index `i` on. True is a refusal.
    unfoldable pub count_connections :
        Bytes → ℕ → ℕ → ℕ → ℕ → FragPool ℕ → a.Heap → Option (Bool × FragPool ℕ × a.Heap)
    count_connections addr s zero i total p h = some (false, p, h)
    count_connections addr s (suc n) i total p h = elim (ltb i p.real_len) [
      | false ↦ some (false, p, h)
      | true ↦ elim (get_elem? p.elems i) [
        | none ↦ none
        | some e ↦ elim (not e.free && is_stale s e.node) [
          | true ↦ elim (frag_pool_free_alt a p i h) [
            | none ↦ none
            | some (p', h') ↦ count_connections addr s n (suc i) total p' h'
          ]
          | false ↦ elim (not e.free && comes_from addr e.node) [
            | false ↦ count_connections addr s n (suc i) total p h
            | true ↦ elim (leb config.limit_sim_threshold (add32 total 1)) [
              | true ↦ some (true, p, h)
              | false ↦ count_connections addr s n (suc i) (add32 total 1) p h
            ]
          ]
        ]
      ]
    ]

    unfoldable pub limit_sim_requests :
        ℕ → Bytes → ℕ → FragPool ℕ → a.Heap → Option (Bool × FragPool ℕ × a.Heap)
    limit_sim_requests undefined addr s p h = elim (count_connections addr s p.real_len 0 0 p h) [
      | none ↦ none
      | some (true, p', h') ↦ some (true, p', h')
      | some (false, p', h') ↦ add_entry undefined s p' h'
    ]
