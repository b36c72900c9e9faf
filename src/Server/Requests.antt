-- ===== src/Server/Requests.antt =====
-- `requests_vector`: the list of request structures, each of which serves a socket or is idle.
-- (core_server.c)
pub mod Serves
pub mod Fetch
use open_tube_engine_old.Base.{
  ℕ, zero, suc, Bool, true, false, List, [], ◌∷◌, ◌++◌, Option, none, some, ◌==◌, if◌then◌else◌,
}

-- `request_vec_t`. A socket of -1 is `none`; `body` is the rest of the request structure.
pub record Slot {ℓ} (R : Type ℓ) : Type ℓ where
  pub sock : Option ℕ
  pub body : R

abbrev pub serves {ℓ} : {R : Type ℓ} → ℕ → Slot R → Bool
serves s x = elim x.sock [ none ↦ false | some t ↦ t == s ]

abbrev pub is_idle {ℓ} : {R : Type ℓ} → Slot R → Bool
is_idle x = elim x.sock [ none ↦ true | some t ↦ false ]

abbrev pub shift : Option ℕ → Option ℕ
shift none = none
shift (some i) = some (suc i)

-- The place of the structure that serves `s`: the first loop.
unfoldable pub find_serving {ℓ} : {R : Type ℓ} → ℕ → List (Slot R) → Option ℕ
find_serving s [] = none
find_serving s (x ∷ l) = let rest = find_serving s l in if serves s x then some 0 else shift rest

-- The second loop: the first idle structure takes the socket.
unfoldable pub take_idle {ℓ} : {R : Type ℓ} → ℕ → List (Slot R) → Option (ℕ × List (Slot R))
take_idle s [] = none
take_idle s (x ∷ l) =
    let rest = take_idle s l in
    if is_idle x
    then some (0, record x { sock = some s } ∷ l)
    else elim rest [ none ↦ none | some p ↦ some (suc p.0, x ∷ p.1) ]

-- The place of the structure returned, or NULL, and the list.
unfoldable pub event_find_request {ℓ} : {R : Type ℓ} → ℕ → List (Slot R) → Option ℕ × List (Slot R)
event_find_request s l = elim (find_serving s l) [
  | some i ↦ (some i, l)
  | none ↦ elim (take_idle s l) [ some p ↦ (some p.0, p.1) | none ↦ (none, l) ]
]

-- The place behind the last structure, which is found by a walk along the list. The walk reads
-- the first structure: `none` where there is none.
abbrev pub last_place {ℓ} : {R : Type ℓ} → List (Slot R) → Option ℕ
last_place [] = none
last_place (x ∷ []) = some 1
last_place (x ∷ y ∷ l) = shift (last_place (y ∷ l))

-- `prepared` is what `http_prepare` makes of a new structure.
unfoldable pub event_fetch_request {ℓ} :
    {R : Type ℓ} (prepared : R) → ℕ → List (Slot R) → Option (ℕ × List (Slot R))
event_fetch_request prepared s l = elim (find_serving s l) [
  | some i ↦ some (i, l)
  | none ↦ elim (take_idle s l) [
    | some p ↦ some p
    | none ↦ elim (last_place l) [
      | none ↦ none
      | some n ↦ some (n, l ++ record { sock = some s; body = prepared } ∷ [])
    ]
  ]
]

-- The loop of `event_iter` that gives idle structures back, from `it` on.
abbrev pub drop_idle {ℓ} : {R : Type ℓ} → List (Slot R) → List (Slot R)
drop_idle [] = []
drop_idle (x ∷ l) = let rest = drop_idle l in if is_idle x then rest else x ∷ rest

-- The first `n` structures are skipped, and `prev` is the last of them; `none` is a walk behind the
-- end.
abbrev pub skip_first {ℓ} : {R : Type ℓ} → ℕ → List (Slot R) → Option (List (Slot R))
skip_first zero l = some (drop_idle l)
skip_first (suc n) [] = none
skip_first (suc n) (x ∷ l) = elim (skip_first n l) [ none ↦ none | some l' ↦ some (x ∷ l') ]

-- With `prealloc_request_structures` of 0 both `prev` and `it` are the head: an idle one is freed,
-- and the loop reads it again, which is `none` too.
unfoldable pub free_idle {ℓ} : {R : Type ℓ} → ℕ → List (Slot R) → Option (List (Slot R))
free_idle zero [] = some []
free_idle zero (x ∷ l) = if is_idle x then none else some (x ∷ drop_idle l)
free_idle (suc n) l = skip_first (suc n) l
