-- ===== src/Server/Select/Polling.antt =====
-- The sets that the select() loop waits on, and the sockets that it finds closed.
-- (event_wrapper_select.c)
use open_tube_engine_old.Base.{
  ℕ, zero, suc, ◌+◌, ◌-◌, ◌≤◌, ◌<◌, ◌≡◌, refl, sym, ◌∙◌, Bool, true, false, ◌&&◌, List, [], ◌∷◌,
  Option, none, some, ◌==◌, arith, inl, inr, if◌then◌else◌, Bool-cases, length, length-set,
  get_elem?, get_elem?-lt, lt-get_elem?, set, take,
}
use open_tube_engine_old.Common.Allocator.{one_if, count}
use open_tube_engine_old.Server.Sweep.Sums.{total}
use open_tube_engine_old.Server.Select.{
  Sock, Select, select_read, select_write, drop_sock, FdSets, recalc_maxfd_plus_one, watch,
  fill_sets, prepare_sets,
}
use open_tube_engine_old.Server.Select.Sockets.{
  has_fd, drop_sock-total, get_elem?-set_last, IsSelect, recalc-IsSelect,
}

-- `f` over the first `i` elements, `g` over the others.
abbrev pub parted {ℓ} : {A : Type ℓ} → (A → ℕ) → (A → ℕ) → ℕ → List A → ℕ
parted f g i [] = 0
parted f g zero (x ∷ l) = g x + parted f g zero l
parted f g (suc i) (x ∷ l) = f x + parted f g i l

module _ {A : Type 0} (f g : A → ℕ) where
  parted_zero : (l : List A) → parted f g 0 l ≡ total g l
  parted_zero [] = refl
  parted_zero (x ∷ l) = omega (arith, parted_zero l)

  parted_end : (i : ℕ) (l : List A) → length l ≤ i → parted f g i l ≡ total f l
  parted_end i [] h = refl
  parted_end zero (x ∷ l) h = absurd (omega arith)
  parted_end (suc i) (x ∷ l) h = omega (arith, parted_end i l (omega arith))

  parted_step :
      (i : ℕ) (l : List A) (x : A)
      → get_elem? l i ≡ some x
      → parted f g (suc i) l + g x ≡ parted f g i l + f x
  parted_step i [] x at = cc
  parted_step zero (y ∷ l) x at =
      let here : some y ≡ some x = at in let same : y ≡ x = cc in rw same (omega arith)
  parted_step (suc i) (y ∷ l) x at = omega (arith, parted_step i l x at)

  parted-set :
      (i : ℕ) (l : List A) (x y : A)
      → get_elem? l i ≡ some x
      → parted f g i (set l i y) + g x ≡ parted f g i l + g y
  parted-set i [] x y at = cc
  parted-set zero (z ∷ l) x y at =
      let here : some z ≡ some x = at in let same : z ≡ x = cc in rw same (omega arith)
  parted-set (suc i) (z ∷ l) x y at = omega (arith, parted-set i l x y at)

  parted-take :
      (i n : ℕ) (l : List A) (x : A)
      → i ≤ n
      → length l ≡ suc n
      → get_elem? l n ≡ some x
      → parted f g i (take n l) + g x ≡ parted f g i l
  parted-take i n [] x le e at = cc
  parted-take zero zero (z ∷ []) x le e at =
      let here : some z ≡ some x = at in let same : z ≡ x = cc in rw same (omega arith)
  parted-take zero zero (z ∷ y ∷ l) x le e at = absurd (omega arith)
  parted-take zero (suc n) (z ∷ l) x le e at =
      omega (arith, parted-take zero n l x (omega arith) (omega arith) at)
  parted-take (suc i) zero (z ∷ l) x le e at = absurd (omega arith)
  parted-take (suc i) (suc n) (z ∷ l) x le e at =
      omega (arith, parted-take i n l x (omega arith) (omega arith) at)

parted-drop_sock :
    (f g : Sock → ℕ) (i : ℕ) (l : List Sock) (x : Sock)
    → get_elem? l i ≡ some x
    → parted f g i (drop_sock i l) + g x ≡ parted f g i l
unfolding drop_sock
parted-drop_sock f g i l x at =
    let lt : i < length l = lt-get_elem? l i at in
    let (y, last) = get_elem?-lt l (length l - 1) (omega arith) in
    let moved = get_elem?-set_last l i (length l - 1) y lt last in
    let len : length (set l i y) ≡ suc (length l - 1) = omega (arith, length-set l i y) in
    rw (last, drop_sock)
      (omega (
        arith,
        parted-take f g i (length l - 1) (set l i y) y (omega arith) len moved,
        parted-set f g i l x y at,
      ))

module _ (sockfd room : ℕ) (is_open : ℕ → Bool) where
  -- The sockets with a mask that are open.
  abbrev pub open_with : ℕ → ℕ → Sock → ℕ
  open_with mask fd x = one_if (is_open x.fd && x.mask == mask && fd == x.fd)

  abbrev pub open_fd : ℕ → Sock → ℕ
  open_fd fd x = one_if (is_open x.fd && fd == x.fd)

  abbrev pub if_open : (Sock → ℕ) → Sock → ℕ
  if_open f x = if is_open x.fd then f x else 0

  nothing : Sock → ℕ
  nothing x = 0

  FilledFrom : ℕ → List Sock → FdSets → Option (Select × FdSets) → Type 0
  FilledFrom i l sets none = ⊥
  FilledFrom i l sets (some (s, r)) =
      IsSelect sockfd room s
      × ((f : Sock → ℕ) → total f s.socks ≡ parted f (if_open f) i l)
      × ((q : ℕ)
          → (count q r.rfds ≡ count q sets.rfds + parted nothing (open_with select_read q) i l)
            × (count q r.wfds ≡ count q sets.wfds + parted nothing (open_with select_write q) i l)
            × (count q r.exfds ≡ count q sets.exfds + parted nothing (open_fd q) i l))

  total_nothing : (l : List Sock) → total nothing l ≡ 0
  unfolding nothing
  total_nothing [] = refl
  total_nothing (x ∷ l) = omega (arith, total_nothing l)

  finished :
      (i : ℕ) (s : Select) (sets : FdSets)
      → IsSelect sockfd room s
      → length s.socks ≤ i
      → FilledFrom i s.socks sets (some (s, sets))
  unfolding FilledFrom
  finished i s sets v end =
      let none_left : (g : Sock → ℕ) → parted nothing g i s.socks ≡ 0 =
        λ g. parted_end nothing g i s.socks end ∙ total_nothing s.socks in
      (
        v,
        λ f. sym (parted_end f (if_open f) i s.socks end),
        λ q. (
          omega (arith, none_left (open_with select_read q)),
          omega (arith, none_left (open_with select_write q)),
          omega (arith, none_left (open_fd q)),
        ),
      )

  watched :
      (i : ℕ) (l : List Sock) (x : Sock) (sets : FdSets) (r : Option (Select × FdSets))
      → get_elem? l i ≡ some x
      → is_open x.fd ≡ true
      → FilledFrom (suc i) l (watch sockfd room x sets) r
      → FilledFrom i l sets r
  unfolding FilledFrom nothing
  watched i l x sets none at open_now h = h
  watched i l x sets (some (s, r)) at open_now (v, sums, fds) = (
    v,
    λ f. ground (arith, sums f, parted_step f (if_open f) i l x at),
    λ q. (
      ground (arith, (fds q).0, parted_step nothing (open_with select_read q) i l x at),
      ground (arith, (fds q).1, parted_step nothing (open_with select_write q) i l x at),
      ground (arith, (fds q).2, parted_step nothing (open_fd q) i l x at),
    ),
  )

  dropped :
      (i : ℕ) (l : List Sock) (x : Sock) (sets : FdSets) (r : Option (Select × FdSets))
      → get_elem? l i ≡ some x
      → is_open x.fd ≡ false
      → FilledFrom i (drop_sock i l) sets r
      → FilledFrom i l sets r
  unfolding FilledFrom nothing
  dropped i l x sets none at shut h = h
  dropped i l x sets (some (s, r)) at shut (v, sums, fds) = (
    v,
    λ f. ground (arith, sums f, parted-drop_sock f (if_open f) i l x at),
    λ q. (
      ground (arith, (fds q).0, parted-drop_sock nothing (open_with select_read q) i l x at),
      ground (arith, (fds q).1, parted-drop_sock nothing (open_with select_write q) i l x at),
      ground (arith, (fds q).2, parted-drop_sock nothing (open_fd q) i l x at),
    ),
  )

  drop-IsSelect :
      (s : Select) (i : ℕ) (x : Sock)
      → IsSelect sockfd room s
      → get_elem? s.socks i ≡ some x
      → IsSelect sockfd room
          (recalc_maxfd_plus_one sockfd room (record s { socks = drop_sock i s.socks }))
  drop-IsSelect s i x v at =
      let (sums, less) = drop_sock-total s.socks i x at in
      recalc-IsSelect sockfd room (drop_sock i s.socks) s.maxfd_plus_one
        (λ fd. omega (arith, sums (has_fd fd), v.once fd)) (omega (arith, v.bounded))

  fill-FilledFrom :
      (n i : ℕ) (s : Select) (sets : FdSets)
      → IsSelect sockfd room s
      → length s.socks ≡ i + n
      → FilledFrom i s.socks sets (fill_sets sockfd room is_open n i s sets)
  unfolding fill_sets recalc_maxfd_plus_one
  fill-FilledFrom zero i s sets v fuel = finished i s sets v (omega arith)
  fill-FilledFrom (suc n) i s sets v fuel =
      let (x, at) = get_elem?-lt s.socks i (omega arith) in
      elim (Bool-cases (is_open x.fd)) [
        | inl open_now ↦
            rw (at, fill_sets, open_now)
              (watched i s.socks x sets _ at open_now
                (fill-FilledFrom n (suc i) s (watch sockfd room x sets) v (omega arith)))
        | inr shut ↦
            rw (at, fill_sets, shut)
              (dropped i s.socks x sets _ at shut (
                fill-FilledFrom n i
                  (recalc_maxfd_plus_one sockfd room (record s { socks = drop_sock i s.socks }))
                  sets (drop-IsSelect s i x v at)
                  (omega (arith, (drop_sock-total s.socks i x at).1))))
      ]

  -- What the loop makes of the list `l`: the open sockets, and the sets.
  abbrev pub Filled : List Sock → Option (Select × FdSets) → Type 0
  Filled l none = ⊥
  Filled l (some (s, r)) =
      IsSelect sockfd room s
      × ((f : Sock → ℕ) → total f s.socks ≡ total (if_open f) l)
      × ((q : ℕ)
          → (count q r.rfds ≡ one_if (q == sockfd) + total (open_with select_read q) l)
            × (count q r.wfds ≡ total (open_with select_write q) l)
            × (count q r.exfds ≡ total (open_fd q) l))

  Filled-whole :
      (l : List Sock) (r : Option (Select × FdSets))
      → FilledFrom 0 l (record { rfds = sockfd ∷ []; wfds = []; exfds = [] }) r
      → Filled l r
  unfolding FilledFrom
  Filled-whole l none h = h
  Filled-whole l (some (s, r)) (v, sums, fds) = (
    v,
    λ f. sums f ∙ parted_zero f (if_open f) l,
    λ q. (
      omega (arith, (fds q).0, parted_zero nothing (open_with select_read q) l),
      omega (arith, (fds q).1, parted_zero nothing (open_with select_write q) l),
      omega (arith, (fds q).2, parted_zero nothing (open_fd q) l),
    ),
  )

  pub prepare_sets-Filled :
      (s : Select) → IsSelect sockfd room s → Filled s.socks (prepare_sets sockfd room is_open s)
  unfolding prepare_sets
  prepare_sets-Filled s v = Filled-whole s.socks _ (
      fill-FilledFrom (length s.socks) 0 s (record { rfds = sockfd ∷ []; wfds = []; exfds = [] }) v
        (omega arith))
