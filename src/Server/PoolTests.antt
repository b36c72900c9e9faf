-- ===== src/Server/PoolTests.antt =====
-- The tables of connections and clients at concrete inputs. (core_server.c)
use open_tube_engine_old.Base.{
  ℕ, ◌+◌, ◌≤◌, ◌≡◌, refl, Bool, true, false, List, [], ◌∷◌, Option, none, some, arith, ltb,
  if◌then◌else◌,
}
use open_tube_engine_old.Http.Chars.{Bytes}
use open_tube_engine_old.Common.Allocator.{one_if}
use open_tube_engine_old.Common.Allocator.Sample.{sample}
use open_tube_engine_old.Common.FragPool.{Elem, FragPool}
use open_tube_engine_old.Common.FragPool.Ownership.{IsFragPool}
use open_tube_engine_old.Server.Keepalive.{
  KeepaliveSock, Limits, new_keepalive_socket, remove_keepalive_socket, event_iter_keepalive,
}
use open_tube_engine_old.Server.Keepalive.Table.{
  IsTable, accepts, Decided, new_keepalive_socket-Decided,
}
use open_tube_engine_old.Server.Keepalive.Closing.{
  Removed, remove_keepalive_socket-Removed, Expired, is_over, event_iter_keepalive-Expired,
}
use open_tube_engine_old.Server.Limits.{
  LimitReq, Config, is_client, limit_requests, limit_sim_requests,
}
use open_tube_engine_old.Server.Limits.Views.{IsLimitTable}
use open_tube_engine_old.Server.Limits.Ruling.{Ruled, limit_requests-Ruled}
use open_tube_engine_old.Server.Limits.Window.{count_passed, count_passed-within}
use open_tube_engine_old.Server.Limits.Simultaneous.{Admitted, limit_sim_requests-Admitted}

abbrev nobody : ℕ → Bool
nobody q = false

abbrev entry {ℓ} : {A : Type ℓ} → ℕ → Bool → A → Elem A
entry q b v = record { ptr = q; free = b; node = v }

abbrev pool {ℓ} : {A : Type ℓ} → ℕ → A → A → A → FragPool A
pool used u v w = record {
  cur_len = used;
  reserved_len = 1;
  real_len = 3;
  node_size = 16;
  self = 1;
  array = 2;
  elems = entry 3 false u ∷ entry 4 true v ∷ entry 5 false w ∷ [];
}

abbrev blocks : List ℕ
blocks = 1 ∷ 2 ∷ 3 ∷ 4 ∷ 5 ∷ []

pool-IsFragPool : {A : Type 0} (u v w : A) → IsFragPool sample nobody (pool 2 u v w) blocks
pool-IsFragPool u v w = record {
  size = refl;
  bounded = omega arith;
  reserve = omega arith;
  used = refl;
  tight = λ _. refl;
  owns = λ q. ground arith;
  there = λ e. absurd (omega arith);
}

-- Sockets up to 9 have a peer: those up to 6 one address, the others another.
abbrev peer : ℕ → Option Bytes
peer s =
    if ltb s 7
    then some (10 ∷ 0 ∷ 0 ∷ 1 ∷ [])
    else if ltb s 10
    then some (10 ∷ 0 ∷ 0 ∷ 2 ∷ [])
    else none

abbrev limits : Limits
limits = record {
  keepalive_max_conn_per_client = 2;
  keepalive_max_conn = 3;
  keepalive_timeout_val = 60;
}

abbrev kept : ℕ → ℕ → KeepaliveSock
kept s t = record { sock = s; time = t }

abbrev table : FragPool KeepaliveSock
table = pool 2 (kept 5 100) (kept 0 0) (kept 8 200)

table-IsTable : IsTable peer limits sample nobody table blocks
table-IsTable = record {
  pool = pool-IsFragPool (kept 5 100) (kept 0 0) (kept 8 200);
  once = λ s. ground arith;
  all = ground arith;
  clients = λ addr. ground arith;
}

new_keepalive_socket-Decided_example :
    Decided peer limits sample nobody 6 250 table.elems
      (accepts peer limits 6 table.elems)
      (new_keepalive_socket peer sample (kept 0 0) limits 6 250 table blocks)
new_keepalive_socket-Decided_example =
    new_keepalive_socket-Decided peer limits sample nobody (kept 0 0) 6 250 table blocks
      table-IsTable (omega arith)

remove_keepalive_socket-Removed_example :
    Removed peer limits sample nobody 8 table.elems (remove_keepalive_socket sample 8 table blocks)
remove_keepalive_socket-Removed_example =
    remove_keepalive_socket-Removed peer limits sample nobody 8 table blocks table-IsTable

-- At 250 socket 5 has expired, but for a request that serves it.
event_iter_keepalive-Expired_example :
    Expired peer limits sample nobody
      (is_over peer limits sample nobody (8 ∷ []) 250)
      table.elems
      (event_iter_keepalive sample limits (8 ∷ []) 250 table blocks)
event_iter_keepalive-Expired_example =
    event_iter_keepalive-Expired peer limits sample nobody (8 ∷ []) 250 table blocks table-IsTable

abbrev config : Config
config = record { limit_rate = 3; limit_delay = 30; limit_sim_threshold = 2 }

abbrev client : ℕ → ℕ → ℕ → ℕ → LimitReq
client n t d r = record { addr = 10 ∷ 0 ∷ 0 ∷ n ∷ []; time = t; dtime = d; req = r }

abbrev clients : FragPool LimitReq
clients = pool 2 (client 1 100 0 3) (client 0 0 0 0) (client 2 90 125 4)

other_clients :
    (addr : Bytes)
    → one_if (is_client addr (client 1 100 0 3))
        + (0 + (one_if (is_client addr (client 2 90 125 4)) + 0))
      ≤ 1
other_clients [] = ground arith
other_clients (a ∷ []) = ground arith
other_clients (a ∷ b ∷ []) = ground arith
other_clients (a ∷ b ∷ c ∷ []) = ground arith
other_clients (a ∷ b ∷ c ∷ d ∷ addr) = ground arith

clients-IsLimitTable : IsLimitTable sample nobody clients blocks
clients-IsLimitTable = record {
  pool = pool-IsFragPool (client 1 100 0 3) (client 0 0 0 0) (client 2 90 125 4);
  once = λ addr. other_clients addr;
}

-- The fourth request of client 1 in its second.
limit_requests-Ruled_example :
    Ruled sample nobody config
      (10 ∷ 0 ∷ 0 ∷ 1 ∷ [])
      101
      clients.elems
      (limit_requests sample config (client 0 0 0 0) (10 ∷ 0 ∷ 0 ∷ 1 ∷ []) 101 clients blocks)
limit_requests-Ruled_example =
    limit_requests-Ruled sample nobody config (10 ∷ 0 ∷ 0 ∷ 1 ∷ []) 101 (client 0 0 0 0) clients
      blocks clients-IsLimitTable (λ _. omega arith)

-- Five requests of a client that has no entry: three of them are let through.
count_passed-within_example :
    count_passed sample config
      (client 0 0 0 0)
      (10 ∷ 0 ∷ 0 ∷ 7 ∷ [])
      (130 ∷ 130 ∷ 130 ∷ 131 ∷ 131 ∷ [])
      clients
      blocks
    ≡ some 3
count_passed-within_example =
    count_passed-within sample config (client 0 0 0 0) (10 ∷ 0 ∷ 0 ∷ 7 ∷ []) nobody 130
      (130 ∷ 130 ∷ 131 ∷ 131 ∷ []) clients blocks (omega arith) (omega arith) clients-IsLimitTable
      refl (omega arith, (omega arith, (omega arith, (omega arith, tt))))

-- Socket 11 is closed; socket 4 of the same client as 3 is the second.
limit_sim_requests-Admitted_example :
    Admitted sample nobody peer config
      (10 ∷ 0 ∷ 0 ∷ 1 ∷ [])
      3
      (pool 2 11 0 4).elems
      (limit_sim_requests sample peer config 0 (10 ∷ 0 ∷ 0 ∷ 1 ∷ []) 3 (pool 2 11 0 4) blocks)
limit_sim_requests-Admitted_example =
    limit_sim_requests-Admitted sample nobody peer config (10 ∷ 0 ∷ 0 ∷ 1 ∷ []) 3 0 (pool 2 11 0 4)
      blocks (pool-IsFragPool 11 0 4) (omega arith)
