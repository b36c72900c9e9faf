-- ===== src/Server/Select.antt =====
-- The sockets of the event loop that is built on select(). (event_wrapper_select.c)
mod Tests
pub mod Sockets
pub mod Polling
pub mod Steps
pub mod Reach
use open_tube_engine_old.Base.{
  ℕ, zero, suc, ◌+◌, ◌-◌, Bool, true, false, not, ◌&&◌, List, [], ◌∷◌, ◌++◌, Option, none, some,
  leb, ◌==◌, if◌then◌else◌, length, get_elem?, set, take,
}

-- A cell of `socklist` and the one of `sockmask` at the same index.
pub record Sock : Type 0 where
  pub fd : ℕ
  pub mask : ℕ

-- The first `socklist_len` cells of the arrays: what is behind them is never read.
pub record Select : Type 0 where
  pub socks : List Sock
  pub maxfd_plus_one : ℕ

abbrev pub select_read : ℕ
select_read = 1

abbrev pub select_write : ℕ
select_write = 2

unfoldable pub raise : ℕ → List Sock → ℕ
raise m [] = m
raise m (x ∷ l) = raise (if leb m x.fd then x.fd + 1 else m) l

-- The last cell is moved to the index, and the list is one shorter.
unfoldable pub drop_sock : ℕ → List Sock → List Sock
drop_sock i l = elim (get_elem? l (length l - 1)) [
  | none ↦ l
  | some x ↦ take (length l - 1) (set l i x)
]

unfoldable pub find_fd : ℕ → ℕ → List Sock → Option ℕ
find_fd fd i [] = none
find_fd fd i (x ∷ l) = let rest = find_fd fd (suc i) l in if x.fd == fd then some i else rest

abbrev pub with_mask : ℕ → ℕ → List Sock → List Sock
with_mask fd mask [] = []
with_mask fd mask (x ∷ l) =
    let rest = with_mask fd mask l in if x.fd == fd then record x { mask = mask } ∷ l else x ∷ rest

-- The sets that `select` is called with.
pub record FdSets : Type 0 where
  pub rfds : List ℕ
  pub wfds : List ℕ
  pub exfds : List ℕ

-- `sockfd` is the listening socket, `room` is SELECT_MAX_CONNECTIONS.
module _ (sockfd room : ℕ) where
  unfoldable pub recalc_maxfd_plus_one : Select → Select
  recalc_maxfd_plus_one s = record s { maxfd_plus_one = raise (sockfd + 1) s.socks }

  unfoldable pub _add : ℕ → Select → Select
  _add fd s =
      if leb room (length s.socks)
      then s
      else recalc_maxfd_plus_one
          (record s { socks = s.socks ++ record { fd = fd; mask = select_read } ∷ [] })

  unfoldable pub _select_socket_del_from_event_list : ℕ → Select → Select
  _select_socket_del_from_event_list fd s = elim (find_fd fd 0 s.socks) [
    | none ↦ recalc_maxfd_plus_one s
    | some i ↦ recalc_maxfd_plus_one (record s { socks = drop_sock i s.socks })
  ]

  unfoldable pub set_select_event_mask : ℕ → ℕ → Select → Select
  set_select_event_mask fd mask s = record s { socks = with_mask fd mask s.socks }

  unfoldable pub set_read_mask : ℕ → Select → Select
  set_read_mask fd s = set_select_event_mask fd select_read s

  unfoldable pub set_write_mask : ℕ → Select → Select
  set_write_mask fd s = set_select_event_mask fd select_write s

  unfoldable pub disable_events_for_socket : ℕ → Select → Select
  disable_events_for_socket fd s = set_select_event_mask fd 0 s

  abbrev pub watch : Sock → FdSets → FdSets
  watch x sets = record {
    rfds = if x.mask == select_read then x.fd ∷ sets.rfds else sets.rfds;
    wfds = if x.mask == select_write then x.fd ∷ sets.wfds else sets.wfds;
    exfds = x.fd ∷ sets.exfds;
  }

  -- The loop of `event_routine` that fills the sets, from index `i` on: each round passes a socket
  -- or drops it, so there are `n` rounds where there are `n` sockets left. `is_open` is what fcntl
  -- tells of a socket. `none` is a read behind the list.
  unfoldable pub fill_sets : (ℕ → Bool) → ℕ → ℕ → Select → FdSets → Option (Select × FdSets)
  fill_sets is_open zero i s sets = some (s, sets)
  fill_sets is_open (suc n) i s sets = elim (get_elem? s.socks i) [
    | none ↦ none
    | some x ↦ elim (is_open x.fd) [
      | true ↦ fill_sets is_open n (suc i) s (watch x sets)
      | false ↦
          fill_sets is_open n i (recalc_maxfd_plus_one (record s { socks = drop_sock i s.socks }))
            sets
    ]
  ]

  unfoldable pub prepare_sets : (ℕ → Bool) → Select → Option (Select × FdSets)
  prepare_sets is_open s =
      fill_sets is_open (length s.socks) 0 s (record { rfds = sockfd ∷ []; wfds = []; exfds = [] })
