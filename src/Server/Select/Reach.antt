-- ===== src/Server/Select/Reach.antt =====
-- Any sequence of operations on the sockets of the select() loop. (event_wrapper_select.c)
use open_tube_engine_old.Base.{ℕ, ◌+◌, ◌≡◌, refl, subst, List, [], Option, none, some, arith}
use open_tube_engine_old.Server.Select.{Sock, Select, FdSets}
use open_tube_engine_old.Server.Select.Sockets.{IsSelect}
use open_tube_engine_old.Server.Select.Steps.{Op, step, IsAllowed, Stepped, step-Stepped}

abbrev pub no_sets : FdSets
no_sets = record { rfds = []; wfds = []; exfds = [] }

module _ (sockfd room : ℕ) where
  -- What `event_routine` begins with, and what operations make of it.
  pub data Reachable : Select → FdSets → Type 0 where
    start : Reachable (record { socks = []; maxfd_plus_one = sockfd + 1 }) no_sets
    after :
        {s : Select} {sets : FdSets} (op : Op) (s' : Select) (sets' : FdSets)
        → Reachable s sets
        → IsAllowed sockfd room op s.socks
        → step sockfd room op (s, sets) ≡ some (s', sets')
        → Reachable s' sets'

  Stepped-IsSelect :
      (op : Op) (l : List Sock) (old new : FdSets) (s : Select) (r : Option (Select × FdSets))
      → r ≡ some (s, new)
      → Stepped sockfd room op l old r
      → IsSelect sockfd room s
  Stepped-IsSelect op l old new s none e h = absurd h
  Stepped-IsSelect op l old new s (some (s', new')) e (v, sums, fds) =
      let same : s' ≡ s = cc in subst (IsSelect sockfd room) same v

  Reachable-IsSelect : (s : Select) (sets : FdSets) → Reachable s sets → IsSelect sockfd room s
  Reachable-IsSelect s sets start = record {
    once = λ fd. omega arith;
    bounded = omega arith;
    listens = omega arith;
    below = refl;
  }
  Reachable-IsSelect s sets (after {s = s0} {sets = sets0} op s' sets' before ok e) =
      Stepped-IsSelect op s0.socks sets0 sets' s' (step sockfd room op (s0, sets0)) e
        (step-Stepped sockfd room op s0 sets0 (Reachable-IsSelect s0 sets0 before) ok)

  -- After any operations from the empty list on, where each socket that was added was new, the next
  -- operation does not fail and leaves a list of distinct sockets within the arrays, all of them
  -- below the number that select() gets. On the entries it is the operation on a set with masks: a
  -- socket is added for reading where there is room, the one that is removed leaves, the mask of one
  -- is set, or those that are closed leave; all others stay as they are. The sets for select() get
  -- the open sockets by their masks, with the listening socket, and nothing else.
  pub Reachable-Stepped :
      (op : Op) (s : Select) (sets : FdSets)
      → Reachable s sets
      → IsAllowed sockfd room op s.socks
      → Stepped sockfd room op s.socks sets (step sockfd room op (s, sets))
  Reachable-Stepped op s sets before ok =
      step-Stepped sockfd room op s sets (Reachable-IsSelect s sets before) ok
