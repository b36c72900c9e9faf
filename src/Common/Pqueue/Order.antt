-- ===== src/Common/Pqueue/Order.antt =====
-- `pqueue_t` is a stack while it stays within its reserve, and reads beyond its array once it has
-- grown past it. (common_functions.c)
use open_tube_engine_old.Base.{
  ℕ, zero, suc, ◌+◌, ◌≤◌, ◌<◌, ◌≡◌, refl, sym, ap, ◌∙◌, inl, inr, false, List, [], ◌∷◌, ◌++◌, none,
  some, arith, ltb, Bool-cases, u32_mod, add32, sub32, length, get_elem?, get_elem?-lt, set, take,
  length-set, length-replicate, length-resize, get_elem?-set_self, take-set, take-get_elem?,
  take-resize, append_one-injective, length-take, length-append, max,
}
use open_tube_engine_old.Common.Pqueue.{
  Pqueue, pqueue_create, pqueue_fit, pqueue_push, pqueue_fetch,
}

-- The entries, oldest first.
abbrev pub entries {ℓ} : {A : Type ℓ} → Pqueue A → List A
entries p = take p.cur_len p.cells

-- The array has room for the reserve and for the entries.
pub record IsPqueue {ℓ} {A : Type ℓ} (p : Pqueue A) : Type 0 where
  pub room : max p.cur_len p.reserved_len ≤ length p.cells
  pub bounded : length p.cells < u32_mod

module _ {ℓ} {A : Type ℓ} (undefined : A) where
  get_elem?-past : (xs : List A) (i : ℕ) → length xs ≤ i → get_elem? xs i ≡ none
  get_elem?-past [] i h = refl
  get_elem?-past (x ∷ xs) zero h = absurd (omega arith)
  get_elem?-past (x ∷ xs) (suc i) h = get_elem?-past xs i (omega arith)

  pub pqueue_create-IsPqueue :
      (len : ℕ)
      → len < u32_mod
      → IsPqueue (pqueue_create undefined len) × (entries (pqueue_create undefined len) ≡ [])
  unfolding pqueue_create
  pqueue_create-IsPqueue len lt = (
    record {
      room = omega (arith, length-replicate len undefined);
      bounded = omega (arith, length-replicate len undefined);
    },
    refl,
  )

  -- Making room keeps the first `n` cells.
  pqueue_fit_lem :
      (p : Pqueue A) (n : ℕ)
      → n ≤ p.cur_len
      → n ≤ length p.cells
      → p.reserved_len ≤ length p.cells
      → length p.cells < u32_mod
      → p.cur_len < u32_mod
      → let q = pqueue_fit undefined p in
        IsPqueue q
        × (take n q.cells ≡ take n p.cells)
        × (q.cur_len ≡ p.cur_len)
        × (q.reserved_len ≡ p.reserved_len)
        × (p.reserved_len < p.cur_len → length q.cells ≡ p.cur_len)
  unfolding pqueue_fit
  pqueue_fit_lem p n le in_cells res lt lt' = elim (Bool-cases (ltb p.reserved_len p.cur_len)) [
    | inl over ↦ rw over (
      record {
        room = ground (arith, length-resize p.cur_len undefined p.cells);
        bounded = omega (arith, length-resize p.cur_len undefined p.cells);
      },
      take-resize n p.cur_len undefined p.cells le in_cells,
      refl,
      refl,
      λ _. length-resize p.cur_len undefined p.cells,
    )
    | inr within ↦
        rw within
          (record { room = ground arith; bounded = lt }, refl, refl, refl, λ over. ground arith)
  ]

  write_last :
      (q : Pqueue A) (n m : ℕ) (x : A)
      → q.cur_len ≡ suc n
      → m ≡ n
      → IsPqueue q
      → let r = record q { cells = set q.cells m x } in
        IsPqueue r × (entries r ≡ take n q.cells ++ x ∷ [])
  write_last q n m x e same v =
      rw (same, e)
        (
          record {
            room = omega (arith, length-set q.cells n x, v.room);
            bounded = omega (arith, length-set q.cells n x, v.bounded);
          },
          take-get_elem? (set q.cells n x) n
                (get_elem?-set_self q.cells n x (omega (arith, v.room)))
              ∙ ap (λ t. t ++ x ∷ []) (take-set q.cells n x),
        )

  -- On a valid queue with fewer than 2^32 - 1 entries `pqueue_push` leaves a valid queue, whose
  -- entries are those from before with the pushed one at the end.
  pub entries-pqueue_push :
      (p : Pqueue A) (x : A)
      → IsPqueue p
      → p.cur_len + 1 < u32_mod
      → IsPqueue (pqueue_push undefined p x)
        × (entries (pqueue_push undefined p x) ≡ entries p ++ x ∷ [])
  unfolding pqueue_push
  entries-pqueue_push p x v lt =
      let p' : Pqueue A = record p { cur_len = add32 p.cur_len 1 } in
      let (v', kept, cur, res, size) =
        pqueue_fit_lem p' p.cur_len (omega arith) (omega (arith, v.room)) (omega (arith, v.room))
          v.bounded (omega arith) in
      let q = pqueue_fit undefined p' in
      let r =
        write_last q p.cur_len (sub32 q.cur_len 1) x (omega (arith, cur)) (omega (arith, cur)) v' in
      (r.0, r.1 ∙ ap (λ t. t ++ x ∷ []) kept)

  -- From a valid queue with at most `reserved_len + 1` entries, one at least, `pqueue_fetch`
  -- returns the newest entry and leaves a valid queue of the others in their order.
  pub pqueue_fetch_newest :
      (p : Pqueue A) (xs : List A) (x : A)
      → IsPqueue p
      → entries p ≡ xs ++ x ∷ []
      → p.cur_len ≤ p.reserved_len + 1
      → let (r, q) = pqueue_fetch undefined p in (r ≡ some x) × IsPqueue q × (entries q ≡ xs)
  unfolding pqueue_fetch pqueue_fit
  pqueue_fetch_newest p xs x v e le =
      let n = length xs in
      let last : p.cur_len ≡ suc n =
        omega
          (arith, ap length e, length-append xs (x ∷ []), length-take p.cur_len p.cells, v.room) in
      let cur : sub32 p.cur_len 1 ≡ n = omega (arith, v.room, v.bounded) in
      let within : ltb p.reserved_len (sub32 p.cur_len 1) ≡ false = ground (arith, v.bounded) in
      let (y, got) = get_elem?-lt p.cells n (omega (arith, v.room)) in
      let parts =
        append_one-injective (take n p.cells) xs y x
          (sym (take-get_elem? p.cells n got) ∙ ap (λ k. take k p.cells) (sym last) ∙ e) in
      rw within (
        ap (get_elem? p.cells) cur ∙ got ∙ ap some parts.1,
        record { room = omega (arith, v.room); bounded = v.bounded },
        ap (λ k. take k p.cells) cur ∙ parts.0,
      )

  -- On a valid queue with more than `reserved_len + 1` entries `pqueue_fetch` cuts the array to
  -- the new length first, and then reads the entry from beyond its end.
  pub pqueue_fetch_beyond :
      (p : Pqueue A)
      → IsPqueue p
      → p.reserved_len + 1 < p.cur_len
      → (pqueue_fetch undefined p).0 ≡ none
  unfolding pqueue_fetch
  pqueue_fetch_beyond p v lt =
      let p' : Pqueue A = record p { cur_len = sub32 p.cur_len 1 } in
      let (v', kept, cur, res, size) =
        pqueue_fit_lem p' (sub32 p.cur_len 1) (omega arith) (omega (arith, v.room, v.bounded))
          (omega (arith, v.room)) v.bounded (omega arith) in
      get_elem?-past (pqueue_fit undefined p').cells (pqueue_fit undefined p').cur_len
        (omega (arith, size (omega (arith, v.room, v.bounded)), cur))
