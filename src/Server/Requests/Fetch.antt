-- ===== src/Server/Requests/Fetch.antt =====
-- `event_fetch_request`, which makes a new structure where all are busy, and the part of
-- `event_iter` that gives idle ones back. (core_server.c)
use open_tube_engine_old.Base.{
  ℕ, ◌<◌, ◌<◌, ◌≡◌, refl, ap, ◌∙◌, List, [], ◌∷◌, ◌++◌, Option, none, some, arith, ◌==◌, ==_iff,
  length, drop, take, inl, inr, Bool-cases, Option-cases,
}
use open_tube_engine_old.Server.Requests.{
  Slot, find_serving, take_idle, last_place, event_fetch_request,
}
use open_tube_engine_old.Server.Requests.Serves.{
  serving, idle, bodies, IsVector, Serves, Found, Taken, find_serving-Found, find_serving_unique,
  find_serving-Serves, joined-Serves, take_idle-Taken, last_place_lem, get_elem?-length,
  serving-append, bodies-append, serves-some,
}

module _ {R : Type 0} (prepared : R) where
  -- A structure was found or made: it is the one at `i`, the same at the next call, and no structure
  -- is lost.
  abbrev pub Fetched : ℕ → List (Slot R) → Option (ℕ × List (Slot R)) → Type 0
  Fetched s l none = ⊥
  Fetched s l (some (i, l')) =
      Serves s l i l'
      × IsVector l'
      × (event_fetch_request prepared s l' ≡ some (i, l'))
      × (take (length l) (bodies l') ≡ bodies l)

  Serves-IsVector :
      (s : ℕ) (l : List (Slot R)) (i : ℕ) (l' : List (Slot R))
      → IsVector l
      → Serves s l i l'
      → IsVector l'
  Serves-IsVector s l i l' v k t = elim (Bool-cases (t == s)) [
    | inl e ↦
        let one : serving t l' ≡ 1 = ap (λ u. serving u l') ((==_iff t s).0 e) ∙ k.once in
        omega (arith, one)
    | inr e ↦
        (let same : serving t l' ≡ serving t l = rw e at (k.others t) in omega (arith, same, v t))
  ]

  Serves-again :
      (s : ℕ) (l : List (Slot R)) (i : ℕ) (l' : List (Slot R))
      → Serves s l i l'
      → event_fetch_request prepared s l' ≡ some (i, l')
  unfolding event_fetch_request
  Serves-again s l i l' k =
      rw (find_serving_unique s l' i k.body k.here k.once, event_fetch_request) refl

  Serves-Fetched :
      (s : ℕ) (l : List (Slot R)) (i : ℕ) (l' : List (Slot R))
      → IsVector l
      → Serves s l i l'
      → take (length l) (bodies l') ≡ bodies l
      → Fetched s l (some (i, l'))
  Serves-Fetched s l i l' v k b = (k, Serves-IsVector s l i l' v k, Serves-again s l i l' k, b)

  take-bodies : (l m : List (Slot R)) → take (length l) (bodies l ++ bodies m) ≡ bodies l
  take-bodies [] m = refl
  take-bodies (x ∷ l) m = ap (◌∷◌ x.body) (take-bodies l m)

  take-bodies_all : (l : List (Slot R)) → take (length l) (bodies l) ≡ bodies l
  take-bodies_all [] = refl
  take-bodies_all (x ∷ l) = ap (◌∷◌ x.body) (take-bodies_all l)

  appended-Fetched :
      (s : ℕ) (l : List (Slot R))
      → IsVector l
      → serving s l ≡ 0
      → Fetched s l (some (length l, l ++ record { sock = some s; body = prepared } ∷ []))
  appended-Fetched s l v free =
      let x : Slot R = record { sock = some s; body = prepared } in
      Serves-Fetched s l (length l) (l ++ x ∷ []) v
        (joined-Serves s l (length l) (l ++ x ∷ []) prepared free (get_elem?-length l x)
          (λ t. serving-append t l (x ∷ []) ∙ rw (serves-some t s prepared) (omega arith)))
        (rw (bodies-append l (x ∷ [])) (take-bodies l (x ∷ [])))

  take_idle-Fetched :
      (s : ℕ) (l : List (Slot R)) (o : Option (ℕ × List (Slot R)))
      → 0 < length l
      → IsVector l
      → serving s l ≡ 0
      → Taken s l o
      → Fetched s l (elim o [
        | some p ↦ some p
        | none ↦ elim (last_place l) [
          | none ↦ none
          | some n ↦ some (n, l ++ record { sock = some s; body = prepared } ∷ [])
        ]
      ])
  take_idle-Fetched s l none lt v free k = rw (last_place_lem l lt) (appended-Fetched s l v free)
  take_idle-Fetched s l (some (i, l')) lt v free k =
      Serves-Fetched s l i l' v (joined-Serves s l i l' k.0 free k.1 k.2)
        (ap (take (length l)) k.3 ∙ take-bodies_all l)

  -- Where the list has a structure, and no two structures serve one socket, `event_fetch_request`
  -- returns the place of a structure that serves the socket from then on, the only one; no other
  -- socket gains or loses a structure, still no two serve one socket, the rest of every structure
  -- is left as it was, and a second call returns the same structure and changes nothing.
  pub event_fetch_request-Fetched :
      (s : ℕ) (l : List (Slot R))
      → 0 < length l
      → IsVector l
      → Fetched s l (event_fetch_request prepared s l)
  unfolding event_fetch_request
  event_fetch_request-Fetched s l lt v = elim (Option-cases (find_serving s l)) [
    | inr (i, e) ↦
        let f : Found s l (some i) = rw e at (find_serving-Found s l) in
        rw (e, event_fetch_request)
          (Serves-Fetched s l i l v (find_serving-Serves s l i v f) (take-bodies_all l))
    | inl e ↦
        let f : Found s l none = rw e at (find_serving-Found s l) in
        rw (e, event_fetch_request)
          (take_idle-Fetched s l (take_idle s l) lt v f (take_idle-Taken s l))
  ]

module _ {R : Type 0} where
  -- The first `n` structures are left, no socket loses its structure, and no idle one is left
  -- behind the first `n`.
  abbrev pub Trimmed : ℕ → List (Slot R) → Option (List (Slot R)) → Type 0
  Trimmed n l none = ⊥
  Trimmed n l (some l') =
      (take n l' ≡ take n l) × (idle (drop n l') ≡ 0) × ((t : ℕ) → serving t l' ≡ serving t l)
