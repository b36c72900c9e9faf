-- ===== src/Server/Keepalive.antt =====
-- `keepalive_sockets`: the table of the connections that are kept open. (core_server.c)
pub mod Sums
pub mod Table
pub mod Closing
use open_tube_engine_old.Base.{
  ℕ, zero, suc, ◌+◌, ◌-◌, Bool, true, false, not, ◌&&◌, ◌||◌, List, [], ◌∷◌, Option, none, some,
  ltb, leb, ◌==◌, if◌then◌else◌, get_elem?, add32,
}
use open_tube_engine_old.Http.Chars.{Bytes}
use open_tube_engine_old.Http.Headers.{equal_bytes}
use open_tube_engine_old.Common.Allocator.{Allocator}
use open_tube_engine_old.Server.Sweep.{find_entry, sweep}
use open_tube_engine_old.Common.FragPool.{
  Elem, FragPool, frag_pool_alloc, frag_pool_free_alt, write_node, set_node,
}

-- `keepalive_sock_t`
pub record KeepaliveSock : Type 0 where
  pub sock : ℕ
  pub time : ℕ

-- The limits of the configuration. `keepalive_max_conn` is the variable of core_server.c.
pub record Limits : Type 0 where
  pub keepalive_max_conn_per_client : ℕ
  pub keepalive_max_conn : ℕ
  pub keepalive_timeout_val : ℕ

-- What the loop over the table ends with: the index of the socket, or the two counts.
pub data Scan : Type 0 where
  found : ℕ → Scan
  counted : ℕ → ℕ → Scan

-- `getpeername` gives the bytes of the address that are compared (4, or 16 for IPv6), or fails.
module _ (getpeername : ℕ → Option Bytes) where
  abbrev pub has_peer : ℕ → Bool
  has_peer s = elim (getpeername s) [ none ↦ false | some b ↦ true ]

  abbrev pub is_peer : Bytes → ℕ → Bool
  is_peer addr s = elim (getpeername s) [ none ↦ false | some b ↦ equal_bytes addr b ]

  -- The next `n` elements, from index `i` on.
  unfoldable pub scan : ℕ → Bytes → ℕ → ℕ → ℕ → ℕ → List (Elem KeepaliveSock) → Scan
  scan s addr zero i percli total es = counted percli total
  scan s addr (suc n) i percli total [] = counted percli total
  scan s addr (suc n) i percli total (e ∷ es) =
      let percli' = if not e.free && is_peer addr e.node.sock then add32 percli 1 else percli in
      let total' = if not e.free && has_peer e.node.sock then add32 total 1 else total in
      let rest = scan s addr n (suc i) percli' total' es in
      if not e.free && e.node.sock == s then found i else rest

  module _ (a : Allocator) (undefined : KeepaliveSock) (config : Limits) where
    -- A new element is written through the pointer that the pool returns.
    unfoldable pub add_keepalive :
        ℕ → ℕ → FragPool KeepaliveSock → a.Heap → Option (Bool × FragPool KeepaliveSock × a.Heap)
    add_keepalive s curtime p h = elim (frag_pool_alloc a undefined p h) [
      | none ↦ none
      | some (x, p', h') ↦ some (
        true,
        record p' { elems = write_node x (record { sock = s; time = curtime }) p'.elems },
        h',
      )
    ]

    unfoldable pub after_scan :
        Scan
        → ℕ
        → ℕ
        → FragPool KeepaliveSock
        → a.Heap
        → Option (Bool × FragPool KeepaliveSock × a.Heap)
    after_scan (found i) s curtime p h =
        some
          (true, record p { elems = set_node p.elems i (record { sock = s; time = curtime }) }, h)
    after_scan (counted percli total) s curtime p h =
        if leb config.keepalive_max_conn_per_client percli
        then some (false, p, h)
        else if leb config.keepalive_max_conn total
        then some (false, p, h)
        else add_keepalive s curtime p h

    unfoldable pub new_keepalive_socket :
        ℕ → ℕ → FragPool KeepaliveSock → a.Heap → Option (Bool × FragPool KeepaliveSock × a.Heap)
    new_keepalive_socket s curtime p h = elim (getpeername s) [
      | none ↦ some (false, p, h)
      | some addr ↦ after_scan (scan s addr p.real_len 0 0 0 p.elems) s curtime p h
    ]

abbrev pub is_sock : ℕ → KeepaliveSock → Bool
is_sock s k = k.sock == s

module _ (a : Allocator) where
  unfoldable pub remove_keepalive_socket :
      ℕ → FragPool KeepaliveSock → a.Heap → Option (FragPool KeepaliveSock × a.Heap)
  remove_keepalive_socket s p h = elim (find_entry (is_sock s) p.real_len 0 p.elems) [
    | none ↦ some (p, h)
    | some i ↦ frag_pool_free_alt a p i h
  ]

-- A request of `requests_vector`, whose sockets are `serving`, serves the socket.
abbrev pub is_serving : List ℕ → ℕ → Bool
is_serving [] s = false
is_serving (t ∷ ts) s = t == s || is_serving ts s

-- `dlt > config.keepalive_timeout_val || dlt < 0`, and no request serves the socket.
abbrev pub expires : Limits → List ℕ → ℕ → KeepaliveSock → Bool
expires config serving curtime k =
    (ltb (k.time + config.keepalive_timeout_val) curtime || ltb curtime k.time)
    && not (is_serving serving k.sock)

-- The part of `event_iter` that looks after the table. The sockets of the entries that come with
-- the table are closed.
unfoldable pub event_iter_keepalive :
    (a : Allocator)
    → Limits
    → List ℕ
    → ℕ
    → FragPool KeepaliveSock
    → a.Heap
    → Option (List KeepaliveSock × FragPool KeepaliveSock × a.Heap)
event_iter_keepalive a config serving curtime p h =
    sweep a (expires config serving curtime) p.real_len 0 p h
