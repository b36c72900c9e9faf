-- ===== src/Server/Select/Steps.antt =====
-- The operations on the sockets of the select() loop, as steps of a set with masks.
-- (event_wrapper_select.c)
use open_tube_engine_old.Base.{
  ℕ, zero, suc, ◌+◌, ◌≤◌, ◌≡◌, refl, ap, ◌∙◌, Bool, false, List, [], ◌∷◌, ◌++◌, Option, none, some,
  ◌==◌, leb, arith, inl, inr, if◌then◌else◌, Bool-cases, length, length-append, get_elem?,
}
use open_tube_engine_old.Common.Allocator.{one_if, count}
use open_tube_engine_old.Server.Sweep.Sums.{total}
use open_tube_engine_old.Server.Select.{
  Sock, Select, select_read, select_write, drop_sock, with_mask, find_fd, FdSets,
  recalc_maxfd_plus_one, _add, _select_socket_del_from_event_list, set_select_event_mask,
  prepare_sets,
}
use open_tube_engine_old.Server.Select.Sockets.{
  has_fd, total-append, drop_sock-total, find_fd-cases, IsSelect, recalc-IsSelect,
}
use open_tube_engine_old.Server.Select.Polling.{open_with, open_fd, Filled, prepare_sets-Filled}

pub data Op : Type 0 where
  adds removes : ℕ → Op
  masks : ℕ → ℕ → Op
  polls : (ℕ → Bool) → Op

module _ (sockfd room : ℕ) where
  -- One operation. `polls` fills the sets, and the others leave them.
  unfoldable pub step : Op → Select × FdSets → Option (Select × FdSets)
  step (adds fd) (s, sets) = some (_add sockfd room fd s, sets)
  step (removes fd) (s, sets) = some (_select_socket_del_from_event_list sockfd room fd s, sets)
  step (masks fd m) (s, sets) = some (set_select_event_mask sockfd room fd m s, sets)
  step (polls is_open) (s, sets) = prepare_sets sockfd room is_open s

  -- What the operation makes of an entry, and the entry that it makes.
  abbrev pub kept : Op → (Sock → ℕ) → Sock → ℕ
  kept (adds fd) f x = f x
  kept (removes fd) f x = if x.fd == fd then 0 else f x
  kept (masks fd m) f x = if x.fd == fd then f (record { fd = fd; mask = m }) else f x
  kept (polls is_open) f x = if is_open x.fd then f x else 0

  abbrev pub born : Op → (Sock → ℕ) → List Sock → ℕ
  born (adds fd) f l = if leb room (length l) then 0 else f (record { fd = fd; mask = select_read })
  born (removes fd) f l = 0
  born (masks fd m) f l = 0
  born (polls is_open) f l = 0

  -- A socket that is added is not in the list.
  abbrev pub IsAllowed : Op → List Sock → Type 0
  IsAllowed (adds fd) l = total (has_fd fd) l ≡ 0
  IsAllowed (removes fd) l = Unit {0}
  IsAllowed (masks fd m) l = Unit {0}
  IsAllowed (polls is_open) l = Unit {0}

  -- The sets hold the open sockets, each by its mask, and the listening one.
  abbrev pub AreSets : Op → List Sock → FdSets → FdSets → Type 0
  AreSets (adds fd) l old new = new ≡ old
  AreSets (removes fd) l old new = new ≡ old
  AreSets (masks fd m) l old new = new ≡ old
  AreSets (polls is_open) l old new =
      (q : ℕ)
      → (count q new.rfds
          ≡ one_if (q == sockfd) + total (open_with sockfd room is_open select_read q) l)
        × (count q new.wfds ≡ total (open_with sockfd room is_open select_write q) l)
        × (count q new.exfds ≡ total (open_fd sockfd room is_open q) l)

  abbrev pub Stepped : Op → List Sock → FdSets → Option (Select × FdSets) → Type 0
  Stepped op l old none = ⊥
  Stepped op l old (some (s, new)) =
      IsSelect sockfd room s
      × ((f : Sock → ℕ) → total f s.socks ≡ born op f l + total (kept op f) l)
      × AreSets op l old new

  without_fd :
      (fd : ℕ) (f : Sock → ℕ) (l : List Sock)
      → total (has_fd fd) l ≡ 0
      → total (kept (removes fd) f) l ≡ total f l
  without_fd fd f [] h = refl
  without_fd fd f (x ∷ l) h = ground (arith, without_fd fd f l)

  has_fd_at :
      (fd : ℕ) (l : List Sock) (i : ℕ) (x : Sock)
      → get_elem? l i ≡ some x
      → x.fd ≡ fd
      → 1 ≤ total (has_fd fd) l
  has_fd_at fd [] i x at same = cc
  has_fd_at fd (y ∷ l) zero x at same =
      let here : some y ≡ some x = at in
      let e : y ≡ x = cc in let same' : y.fd ≡ fd = rw e same in ground (arith, same')
  has_fd_at fd (y ∷ l) (suc i) x at same = omega (arith, has_fd_at fd l i x at same)

  with_one :
      (fd : ℕ) (f : Sock → ℕ) (l : List Sock) (i : ℕ) (x : Sock)
      → total (has_fd fd) l ≤ 1
      → get_elem? l i ≡ some x
      → x.fd ≡ fd
      → total (kept (removes fd) f) l + f x ≡ total f l
  with_one fd f [] i x once at same = cc
  with_one fd f (y ∷ l) zero x once at same =
      let here : some y ≡ some x = at in
      let e : y ≡ x = cc in
      let same' : y.fd ≡ fd = rw e same in
      let f_same : f y ≡ f x = ap f e in ground (arith, without_fd fd f l, f_same, same')
  with_one fd f (y ∷ l) (suc i) x once at same =
      let there = has_fd_at fd l i x at same in
      let other : (y.fd == fd) ≡ false = ground (arith, there) in
      let rest = with_one fd f l i x (ground (arith, once)) at same in
      rw other (omega (arith, rest))

  without_mask :
      (fd m : ℕ) (f : Sock → ℕ) (l : List Sock)
      → total (has_fd fd) l ≡ 0
      → total (kept (masks fd m) f) l ≡ total f l
  without_mask fd m f [] h = refl
  without_mask fd m f (x ∷ l) h =
      let other : (x.fd == fd) ≡ false = ground arith in
      rw other (omega (arith, without_mask fd m f l (ground arith)))

  total-with_mask :
      (fd m : ℕ) (f : Sock → ℕ) (l : List Sock)
      → total (has_fd fd) l ≤ 1
      → total f (with_mask fd m l) ≡ total (kept (masks fd m) f) l
  total-with_mask fd m f [] once = refl
  total-with_mask fd m f (x ∷ l) once = elim (Bool-cases (x.fd == fd)) [
    | inl here ↦
        let same : x.fd ≡ fd = ground arith in
        let f_same : f (record { fd = x.fd; mask = m }) ≡ f (record { fd = fd; mask = m }) =
          ap (λ q. f (record { fd = q; mask = m })) same in
        let rest = without_mask fd m f l (ground arith) in rw here (omega (arith, f_same, rest))
    | inr other ↦
        let rest = total-with_mask fd m f l (ground arith) in rw other (omega (arith, rest))
  ]

  -- A mask does not matter for what only reads the socket.
  unmasked :
      (fd m : ℕ) (f : ℕ → ℕ) (l : List Sock)
      → total (λ x. f x.fd) (with_mask fd m l) ≡ total (λ x. f x.fd) l
  unmasked fd m f [] = refl
  unmasked fd m f (x ∷ l) = elim (Bool-cases (x.fd == fd)) [
    | inl here ↦ rw here refl
    | inr other ↦ let rest = unmasked fd m f l in rw other (omega (arith, rest))
  ]

  length-with_mask : (fd m : ℕ) (l : List Sock) → length (with_mask fd m l) ≡ length l
  length-with_mask fd m [] = refl
  length-with_mask fd m (x ∷ l) = elim (Bool-cases (x.fd == fd)) [
    | inl here ↦ rw here refl
    | inr other ↦ rw other (ap suc (length-with_mask fd m l))
  ]

  adds-Stepped :
      (fd : ℕ) (s : Select) (sets : FdSets)
      → IsSelect sockfd room s
      → total (has_fd fd) s.socks ≡ 0
      → Stepped (adds fd) s.socks sets (some (_add sockfd room fd s, sets))
  unfolding _add recalc_maxfd_plus_one
  adds-Stepped fd s sets v fresh = elim (Bool-cases (leb room (length s.socks))) [
    | inl full ↦ rw (full, _add) (v, (λ f. omega arith), refl)
    | inr free ↦
        let new : Sock = record { fd = fd; mask = select_read } in
        rw (free, _add)
          (
            recalc-IsSelect sockfd room (s.socks ++ new ∷ []) s.maxfd_plus_one
                (λ fd'.
                  ground (arith, total-append (has_fd fd') s.socks (new ∷ []), v.once fd', fresh))
                (ground (arith, length-append s.socks (new ∷ []))),
            (λ f. omega (arith, total-append f s.socks (new ∷ []))),
            refl,
          )
  ]

  removes-Stepped :
      (fd : ℕ) (s : Select) (sets : FdSets)
      → IsSelect sockfd room s
      → Stepped
          (removes fd)
          s.socks
          sets
          (some (_select_socket_del_from_event_list sockfd room fd s, sets))
  unfolding _select_socket_del_from_event_list recalc_maxfd_plus_one
  removes-Stepped fd s sets v = elim (find_fd-cases fd 0 s.socks) [
    | inl (missing, absent) ↦
        rw (missing, _select_socket_del_from_event_list)
          (
            recalc-IsSelect sockfd room s.socks s.maxfd_plus_one v.once v.bounded,
            (λ f. omega (arith, without_fd fd f s.socks absent)),
            refl,
          )
    | inr (i, x, found, at, same) ↦
        let (sums, less) = drop_sock-total s.socks i x at in
        let found' : find_fd fd 0 s.socks ≡ some i = found ∙ ap some (omega arith) in
        rw (found', _select_socket_del_from_event_list)
          (
            recalc-IsSelect sockfd room (drop_sock i s.socks) s.maxfd_plus_one
                (λ fd'. omega (arith, sums (has_fd fd'), v.once fd')) (omega (arith, v.bounded)),
            (λ f. omega (arith, sums f, with_one fd f s.socks i x (v.once fd) at same)),
            refl,
          )
  ]

  masks-Stepped :
      (fd m : ℕ) (s : Select) (sets : FdSets)
      → IsSelect sockfd room s
      → Stepped (masks fd m) s.socks sets (some (set_select_event_mask sockfd room fd m s, sets))
  unfolding set_select_event_mask
  masks-Stepped fd m s sets v = (
    record {
      once = λ fd'. omega (arith, unmasked fd m (λ q. one_if (q == fd')) s.socks, v.once fd');
      bounded = omega (arith, length-with_mask fd m s.socks, v.bounded);
      listens = v.listens;
      below = omega (arith, unmasked fd m (λ q. one_if (leb s.maxfd_plus_one q)) s.socks, v.below);
    },
    λ f. omega (arith, total-with_mask fd m f s.socks (v.once fd)),
    refl,
  )

  polls-Stepped :
      (is_open : ℕ → Bool) (l : List Sock) (old : FdSets) (r : Option (Select × FdSets))
      → Filled sockfd room is_open l r
      → Stepped (polls is_open) l old r
  polls-Stepped is_open l old none h = h
  polls-Stepped is_open l old (some (s, sets)) (v, sums, fds) = (v, λ f. omega (arith, sums f), fds)

  -- One operation on such a list.
  pub step-Stepped :
      (op : Op) (s : Select) (sets : FdSets)
      → IsSelect sockfd room s
      → IsAllowed op s.socks
      → Stepped op s.socks sets (step op (s, sets))
  unfolding step
  step-Stepped (adds fd) s sets v fresh = adds-Stepped fd s sets v fresh
  step-Stepped (removes fd) s sets v ok = removes-Stepped fd s sets v
  step-Stepped (masks fd m) s sets v ok = masks-Stepped fd m s sets v
  step-Stepped (polls is_open) s sets v ok =
      polls-Stepped is_open s.socks sets (prepare_sets sockfd room is_open s)
        (prepare_sets-Filled sockfd room is_open s v)
