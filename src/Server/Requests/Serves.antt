-- ===== src/Server/Requests/Serves.antt =====
-- Which structure serves which socket. (core_server.c)
use open_tube_engine_old.Base.{
  Bool, ℕ, zero, suc, ◌+◌, ◌≤◌, ◌<◌, ◌≡◌, refl, ap, ◌∙◌, true, false, List, [], ◌∷◌, ◌++◌, Option,
  none, some, arith, ◌==◌, ==_iff, if◌then◌else◌, length, get_elem?, inl, inr, Bool-cases,
  Option-cases, map,
}
use open_tube_engine_old.Server.Requests.{
  Slot, serves, is_idle, shift, find_serving, take_idle, event_find_request, last_place,
}

module _ {R : Type 0} where
  -- The structure has the socket; it has none.
  abbrev has_socket : ℕ → Slot R → Bool
  has_socket s x = elim x.sock [ none ↦ false | some t ↦ t == s ]

  abbrev has_no_socket : Slot R → Bool
  has_no_socket x = elim x.sock [ none ↦ true | some t ↦ false ]

  -- How many structures serve `s`, and how many are idle.
  abbrev pub serving : ℕ → List (Slot R) → ℕ
  serving s [] = 0
  serving s (x ∷ l) = (if has_socket s x then 1 else 0) + serving s l

  abbrev pub idle : List (Slot R) → ℕ
  idle [] = 0
  idle (x ∷ l) = (if has_no_socket x then 1 else 0) + idle l

  abbrev pub bodies : List (Slot R) → List R
  bodies l = map (λ x. x.body) l

  -- No two structures serve one socket.
  abbrev pub IsVector : List (Slot R) → Type 0
  IsVector l = (s : ℕ) → serving s l ≤ 1

  -- The structure at `i` of `l'` serves `s`, and for all other sockets `l'` is as `l`.
  pub record Serves (s : ℕ) (l : List (Slot R)) (i : ℕ) (l' : List (Slot R)) : Type 0 where
    pub body : R
    pub here : get_elem? l' i ≡ some (record { sock = some s; body = body })
    pub once : serving s l' ≡ 1
    pub others : (t : ℕ) → serving t l' ≡ (if t == s then 1 else serving t l)

  pub serving-append :
      (t : ℕ) (l m : List (Slot R)) → serving t (l ++ m) ≡ serving t l + serving t m
  serving-append t [] m = omega arith
  serving-append t (x ∷ l) m = omega (arith, serving-append t l m)

  pub bodies-append : (l m : List (Slot R)) → bodies (l ++ m) ≡ bodies l ++ bodies m
  bodies-append [] m = refl
  bodies-append (x ∷ l) m = ap (◌∷◌ x.body) (bodies-append l m)

  pub get_elem?-length :
      (l : List (Slot R)) (x : Slot R) → get_elem? (l ++ x ∷ []) (length l) ≡ some x
  get_elem?-length [] x = refl
  get_elem?-length (y ∷ l) x = get_elem?-length l x

  sock-serves : (s : ℕ) (x : Slot R) → serves s x ≡ true → x.sock ≡ some s
  sock-serves s x h = elim (Option-cases x.sock) [
    | inl e ↦ absurd (let h' : false ≡ true = rw e at h in ground arith)
    | inr (t, e) ↦ (let h' : (t == s) ≡ true = rw e at h in e ∙ ap some ((==_iff t s).0 h'))
  ]

  serves-eta : (s : ℕ) (x : Slot R) → x.sock ≡ some s → x ≡ record { sock = some s; body = x.body }
  serves-eta s x e = ap (λ o. record x { sock = o }) e

  pub serves-some : (t s : ℕ) (b : R) → serves t (record { sock = some s; body = b }) ≡ (t == s)
  serves-some t s b = ground arith

  -- What the first loop finds.
  abbrev pub Found : ℕ → List (Slot R) → Option ℕ → Type 0
  Found s l none = serving s l ≡ 0
  Found s l (some i) =
      (b : R) × (get_elem? l i ≡ some (record { sock = some s; body = b })) × (1 ≤ serving s l)

  shift-Found :
      (s : ℕ) (x : Slot R) (l : List (Slot R)) (o : Option ℕ)
      → serves s x ≡ false
      → Found s l o
      → Found s (x ∷ l) (shift o)
  shift-Found s x l none h f = rw h (omega (arith, f))
  shift-Found s x l (some i) h f = (f.0, f.1, rw h (omega (arith, f.2)))

  pub find_serving-Found : (s : ℕ) (l : List (Slot R)) → Found s l (find_serving s l)
  unfolding find_serving
  find_serving-Found s [] = refl
  find_serving-Found s (x ∷ l) = elim (Bool-cases (serves s x)) [
    | inl h ↦
        rw (h, find_serving)
          (x.body, ap some (serves-eta s x (sock-serves s x h)), rw h (omega arith))
    | inr h ↦ rw (h, find_serving) (shift-Found s x l (find_serving s l) h (find_serving-Found s l))
  ]

  -- What the second loop leaves.
  abbrev pub Taken : ℕ → List (Slot R) → Option (ℕ × List (Slot R)) → Type 0
  Taken s l none = idle l ≡ 0
  Taken s l (some (i, l')) =
      (b : R) × (get_elem? l' i ≡ some (record { sock = some s; body = b }))
      × ((t : ℕ) → serving t l' ≡ (if t == s then 1 else 0) + serving t l)
      × (bodies l' ≡ bodies l)

  pub serves-idle : (t : ℕ) (x : Slot R) → is_idle x ≡ true → serves t x ≡ false
  serves-idle t x h = elim (Option-cases x.sock) [
    | inl e ↦ rw e refl
    | inr (u, e) ↦ absurd (let h' : false ≡ true = rw e at h in ground arith)
  ]

  push-Taken :
      (s : ℕ) (x : Slot R) (l : List (Slot R)) (o : Option (ℕ × List (Slot R)))
      → is_idle x ≡ false
      → Taken s l o
      → Taken s (x ∷ l) (elim o [ none ↦ none | some p ↦ some (suc p.0, x ∷ p.1) ])
  push-Taken s x l none h k = rw h (omega (arith, k))
  push-Taken s x l (some (i, l')) h k = (k.0, k.1, λ t. omega (arith, k.2 t), ap (◌∷◌ x.body) k.3)

  pub take_idle-Taken : (s : ℕ) (l : List (Slot R)) → Taken s l (take_idle s l)
  unfolding take_idle
  take_idle-Taken s [] = refl
  take_idle-Taken s (x ∷ l) = elim (Bool-cases (is_idle x)) [
    | inl h ↦
        rw (h, take_idle)
          (x.body, refl, λ t. rw (serves-some t s x.body, serves-idle t x h) (omega arith), refl)
    | inr h ↦ rw (h, take_idle) (push-Taken s x l (take_idle s l) h (take_idle-Taken s l))
  ]

  pub last_place_lem : (l : List (Slot R)) → 0 < length l → last_place l ≡ some (length l)
  last_place_lem [] lt = absurd (omega arith)
  last_place_lem (x ∷ []) lt = refl
  last_place_lem (x ∷ y ∷ l) lt = ap shift (last_place_lem (y ∷ l) (omega arith))

  serves-at_zero :
      (s : ℕ) (x : Slot R) (b : R)
      → some x ≡ some (record { sock = some s; body = b })
      → serves s x ≡ true
  serves-at_zero s x b e =
      let same : x ≡ record { sock = some s; body = b } = cc in
      ap (serves s) same ∙ (==_iff s s).1 refl

  serving-here :
      (s : ℕ) (l : List (Slot R)) (i : ℕ) (b : R)
      → get_elem? l i ≡ some (record { sock = some s; body = b })
      → 1 ≤ serving s l
  serving-here s [] i b e = cc
  serving-here s (x ∷ l) zero b e = rw (serves-at_zero s x b e) (omega arith)
  serving-here s (x ∷ l) (suc i) b e = omega (arith, serving-here s l i b e)

  pub find_serving_unique :
      (s : ℕ) (l : List (Slot R)) (i : ℕ) (b : R)
      → get_elem? l i ≡ some (record { sock = some s; body = b })
      → serving s l ≡ 1
      → find_serving s l ≡ some i
  unfolding find_serving
  find_serving_unique s [] i b e one = cc
  find_serving_unique s (x ∷ l) zero b e one = rw (serves-at_zero s x b e, find_serving) refl
  find_serving_unique s (x ∷ l) (suc i) b e one = elim (Bool-cases (serves s x)) [
    | inl h ↦
        let one' : 1 + serving s l ≡ 1 = rw h at one in
        absurd (omega (arith, serving-here s l i b e, one'))
    | inr h ↦
        let one' : 0 + serving s l ≡ 1 = rw h at one in
        rw (h, find_serving) (ap shift (find_serving_unique s l i b e (omega (arith, one'))))
  ]

  pub find_serving-Serves :
      (s : ℕ) (l : List (Slot R)) (i : ℕ) → IsVector l → Found s l (some i) → Serves s l i l
  find_serving-Serves s l i v f =
      let one : serving s l ≡ 1 = omega (arith, v s, f.2) in
      record {
        body = f.0;
        here = f.1;
        once = one;
        others = λ t. elim (Bool-cases (t == s)) [
          | inl e ↦ rw e (ap (λ u. serving u l) ((==_iff t s).0 e) ∙ one)
          | inr e ↦ rw e refl
        ];
      }

  pub joined-Serves :
      (s : ℕ) (l : List (Slot R)) (i : ℕ) (l' : List (Slot R)) (b : R)
      → serving s l ≡ 0
      → get_elem? l' i ≡ some (record { sock = some s; body = b })
      → ((t : ℕ) → serving t l' ≡ (if t == s then 1 else 0) + serving t l)
      → Serves s l i l'
  joined-Serves s l i l' b free got f =
      let same : (s == s) ≡ true = (==_iff s s).1 refl in
      let now : serving s l' ≡ 1 + serving s l = rw same at (f s) in
      record {
        body = b;
        here = got;
        once = omega (arith, now, free);
        others = λ t. elim (Bool-cases (t == s)) [
          | inl e ↦
              let none' : serving t l ≡ 0 = ap (λ u. serving u l) ((==_iff t s).0 e) ∙ free in
              let now' : serving t l' ≡ 1 + serving t l = rw e at (f t) in
              rw e (omega (arith, now', none'))
          | inr e ↦
              (let now' : serving t l' ≡ 0 + serving t l = rw e at (f t) in
                rw e (omega (arith, now')))
        ];
      }

  -- `NULL` is returned only where no structure serves the socket and none is idle.
  abbrev pub Finds : ℕ → List (Slot R) → Option ℕ × List (Slot R) → Type 0
  Finds s l (none, l') = (l' ≡ l) × (serving s l ≡ 0) × (idle l ≡ 0)
  Finds s l (some i, l') = Serves s l i l' × (bodies l' ≡ bodies l)

  take_idle-Finds :
      (s : ℕ) (l : List (Slot R)) (o : Option (ℕ × List (Slot R)))
      → serving s l ≡ 0
      → Taken s l o
      → Finds s l (elim o [ some p ↦ (some p.0, p.1) | none ↦ (none, l) ])
  take_idle-Finds s l none free k = (refl, free, k)
  take_idle-Finds s l (some (i, l')) free k = (joined-Serves s l i l' k.0 free k.1 k.2, k.3)

  -- Where no two structures serve one socket, `event_find_request` returns the place of a structure
  -- that serves the socket from then on, the only one; no other socket gains or loses a structure,
  -- and the rest of every structure is left as it was. It returns NULL only where no structure
  -- serves the socket and none is idle, and then changes nothing.
  pub event_find_request-Finds :
      (s : ℕ) (l : List (Slot R)) → IsVector l → Finds s l (event_find_request s l)
  unfolding event_find_request
  event_find_request-Finds s l v = elim (Option-cases (find_serving s l)) [
    | inr (i, e) ↦
        let f : Found s l (some i) = rw e at (find_serving-Found s l) in
        rw (e, event_find_request) (find_serving-Serves s l i v f, refl)
    | inl e ↦
        let f : Found s l none = rw e at (find_serving-Found s l) in
        rw (e, event_find_request) (take_idle-Finds s l (take_idle s l) f (take_idle-Taken s l))
  ]
