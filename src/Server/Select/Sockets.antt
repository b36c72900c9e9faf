-- ===== src/Server/Select/Sockets.antt =====
-- The sockets of the select() loop as a set with masks. (event_wrapper_select.c)
use open_tube_engine_old.Base.{
  ℕ, zero, suc, ◌+◌, ◌-◌, ◌≤◌, ◌<◌, ◌≡◌, ◌≢◌, ◌⊎◌, refl, ap, ◌∙◌, List, [], ◌∷◌, ◌++◌, none, some,
  ◌==◌, leb, arith, inl, inr, if◌then◌else◌, Bool-cases, length, length-set, length-take, get_elem?,
  get_elem?-lt, lt-get_elem?, get_elem?-set_self, get_elem?-set_ne, set, take,
}
use open_tube_engine_old.Common.Allocator.{one_if}
use open_tube_engine_old.Server.Sweep.Sums.{total}
use open_tube_engine_old.Server.Select.{
  Sock, Select, raise, drop_sock, find_fd, recalc_maxfd_plus_one,
}

abbrev pub has_fd : ℕ → Sock → ℕ
has_fd fd x = one_if (x.fd == fd)

-- `x` is not below `m`.
abbrev pub beyond : ℕ → Sock → ℕ
beyond m x = one_if (leb m x.fd)

raise-le : (m : ℕ) (l : List Sock) → m ≤ raise m l
unfolding raise
raise-le m [] = omega arith
raise-le m (x ∷ l) = ground (arith, raise-le (if leb m x.fd then x.fd + 1 else m) l)

below_all : (m k : ℕ) (l : List Sock) → m ≤ k → total (beyond m) l ≡ 0 → total (beyond k) l ≡ 0
below_all m k [] le h = refl
below_all m k (x ∷ l) le h = ground (arith, below_all m k l le)

raise-beyond : (m : ℕ) (l : List Sock) → total (beyond (raise m l)) l ≡ 0
unfolding raise
raise-beyond m [] = refl
raise-beyond m (x ∷ l) =
    let m' = if leb m x.fd then x.fd + 1 else m in ground (arith, raise-le m' l, raise-beyond m' l)

pub total-append :
    {A : Type 0} (f : A → ℕ) (xs ys : List A) → total f (xs ++ ys) ≡ total f xs + total f ys
total-append f [] ys = omega arith
total-append f (x ∷ xs) ys = omega (arith, total-append f xs ys)

total-set :
    {A : Type 0} (f : A → ℕ) (l : List A) (i : ℕ) (x y : A)
    → get_elem? l i ≡ some x
    → total f (set l i y) + f x ≡ total f l + f y
total-set f [] i x y at = cc
total-set f (z ∷ l) zero x y at =
    let e : some z ≡ some x = at in let same : z ≡ x = cc in rw same (omega arith)
total-set f (z ∷ l) (suc i) x y at = omega (arith, total-set f l i x y at)

total-take :
    {A : Type 0} (f : A → ℕ) (l : List A) (n : ℕ) (x : A)
    → length l ≡ suc n
    → get_elem? l n ≡ some x
    → total f (take n l) + f x ≡ total f l
total-take f [] n x e at = cc
total-take f (z ∷ []) zero x e at =
    let here : some z ≡ some x = at in let same : z ≡ x = cc in rw same (omega arith)
total-take f (z ∷ y ∷ l) zero x e at = absurd (omega arith)
total-take f (z ∷ l) (suc n) x e at = omega (arith, total-take f l n x (omega arith) at)

pub get_elem?-set_last :
    {A : Type 0} (l : List A) (i k : ℕ) (y : A)
    → i < length l
    → get_elem? l k ≡ some y
    → get_elem? (set l i y) k ≡ some y
get_elem?-set_last l i k y lt at = elim (Bool-cases (i == k)) [
  | inl same ↦ let e : i ≡ k = ground arith in rw (← e) (get_elem?-set_self l i y lt)
  | inr differs ↦ let ne : i ≢ k = ground arith in get_elem?-set_ne l y ne ∙ at
]

-- The cell at the index leaves, and every other stays.
pub drop_sock-total :
    (l : List Sock) (i : ℕ) (x : Sock)
    → get_elem? l i ≡ some x
    → ((f : Sock → ℕ) → total f (drop_sock i l) + f x ≡ total f l)
      × (suc (length (drop_sock i l)) ≡ length l)
unfolding drop_sock
drop_sock-total l i x at =
    let lt : i < length l = lt-get_elem? l i at in
    let (y, last) = get_elem?-lt l (length l - 1) (omega arith) in
    let moved = get_elem?-set_last l i (length l - 1) y lt last in
    let len : length (set l i y) ≡ suc (length l - 1) = omega (arith, length-set l i y) in
    rw (last, drop_sock)
      (
        λ f.
            omega
              (arith, total-take f (set l i y) (length l - 1) y len moved, total-set f l i x y at),
        omega (arith, length-take (length l - 1) (set l i y), len),
      )

pub find_fd-cases :
    (fd k : ℕ) (l : List Sock)
    → ((find_fd fd k l ≡ none) × (total (has_fd fd) l ≡ 0))
      ⊎ ((i : ℕ) × (x : Sock) × (find_fd fd k l ≡ some (k + i))
          × (get_elem? l i ≡ some x)
          × (x.fd ≡ fd))
unfolding find_fd
find_fd-cases fd k [] = inl (refl, refl)
find_fd-cases fd k (x ∷ l) = elim (Bool-cases (x.fd == fd)) [
  | inl here ↦ inr (0, x, rw here (ap some (omega arith)), refl, ground arith)
  | inr other ↦ elim (find_fd-cases fd (suc k) l) [
    | inl (missing, absent) ↦ inl (rw other missing, ground arith)
    | inr (i, y, found, at, same) ↦
        inr (suc i, y, rw other (found ∙ ap some (omega arith)), at, same)
  ]
]

module _ (sockfd room : ℕ) where
  -- No socket is in the list twice, the list is within the arrays, and all sockets are below
  -- `maxfd_plus_one`, as is the listening one.
  pub record IsSelect (s : Select) : Type 0 where
    pub once : (fd : ℕ) → total (has_fd fd) s.socks ≤ 1
    pub bounded : length s.socks ≤ room
    pub listens : sockfd < s.maxfd_plus_one
    pub below : total (beyond s.maxfd_plus_one) s.socks ≡ 0

  pub recalc-IsSelect :
      (l : List Sock) (m : ℕ)
      → ((fd : ℕ) → total (has_fd fd) l ≤ 1)
      → length l ≤ room
      → IsSelect (recalc_maxfd_plus_one sockfd room (record { socks = l; maxfd_plus_one = m }))
  unfolding recalc_maxfd_plus_one
  recalc-IsSelect l m once bounded = record {
    once = once;
    bounded = bounded;
    listens = omega (arith, raise-le (sockfd + 1) l);
    below = raise-beyond (sockfd + 1) l;
  }
