-- ===== src/Common/FragPool/Writes.antt =====
-- Sums over the used elements of a `frag_pool_t` after the contents of a node are written.
use open_tube_engine_old.Base.{
  ℕ, zero, suc, ◌+◌, ◌-◌, ◌≤◌, ◌≡◌, refl, ap, ◌∙◌, Bool, false, List, [], ◌∷◌, some, arith, ◌==◌,
  if◌then◌else◌, length, get_elem?,
}
use open_tube_engine_old.Common.Allocator.{Allocator, count, one_if, count-block}
use open_tube_engine_old.Common.FragPool.{Elem, FragPool, is_free_at, write_node, set_node}
use open_tube_engine_old.Common.FragPool.Tally.{tally, ptrs}
use open_tube_engine_old.Common.FragPool.Ownership.{IsFragPool, FragTakes}

module _ {A : Type 0} where
  pub ptrs-write_node : (x : ℕ) (v : A) (es : List (Elem A)) → ptrs (write_node x v es) ≡ ptrs es
  ptrs-write_node x v [] = refl
  ptrs-write_node x v (e ∷ es) =
      let same : (if e.ptr == x then record e { node = v } else e).ptr ≡ e.ptr = ground arith in
      rw same (ap (◌∷◌ e.ptr) (ptrs-write_node x v es))

  pub ptrs-set_node : (es : List (Elem A)) (i : ℕ) (v : A) → ptrs (set_node es i v) ≡ ptrs es
  ptrs-set_node [] i v = refl
  ptrs-set_node (e ∷ es) zero v = refl
  ptrs-set_node (e ∷ es) (suc i) v = ap (◌∷◌ e.ptr) (ptrs-set_node es i v)

  length-write_node : (x : ℕ) (v : A) (es : List (Elem A)) → length (write_node x v es) ≡ length es
  length-write_node x v [] = refl
  length-write_node x v (e ∷ es) = ap suc (length-write_node x v es)

  length-set_node : (es : List (Elem A)) (i : ℕ) (v : A) → length (set_node es i v) ≡ length es
  length-set_node [] i v = refl
  length-set_node (e ∷ es) zero v = refl
  length-set_node (e ∷ es) (suc i) v = ap suc (length-set_node es i v)

  is_free_at-write_node :
      (x : ℕ) (v : A) (es : List (Elem A)) (k : ℕ)
      → is_free_at (write_node x v es) k ≡ is_free_at es k
  is_free_at-write_node x v [] k = refl
  is_free_at-write_node x v (e ∷ es) zero = ground arith
  is_free_at-write_node x v (e ∷ es) (suc k) = is_free_at-write_node x v es k

  is_free_at-set_node :
      (es : List (Elem A)) (i : ℕ) (v : A) (k : ℕ)
      → is_free_at (set_node es i v) k ≡ is_free_at es k
  is_free_at-set_node [] i v k = refl
  is_free_at-set_node (e ∷ es) zero v zero = refl
  is_free_at-set_node (e ∷ es) zero v (suc k) = refl
  is_free_at-set_node (e ∷ es) (suc i) v zero = refl
  is_free_at-set_node (e ∷ es) (suc i) v (suc k) = is_free_at-set_node es i v k

  -- What the written node counts for.
  abbrev pub rewritten : (ℕ → A → ℕ) → ℕ → A → ℕ → A → ℕ
  rewritten f x v q u = if q == x then f q v else f q u

  tally-write_node :
      (f : ℕ → A → ℕ) (x : ℕ) (v : A) (es : List (Elem A))
      → tally f (write_node x v es) ≡ tally (rewritten f x v) es
  tally-write_node f x v [] = refl
  tally-write_node f x v (e ∷ es) = ground (arith, tally-write_node f x v es)

  -- A pointer that no used element has.
  tally-rewritten :
      (f : ℕ → A → ℕ) (x : ℕ) (v : A) (es : List (Elem A))
      → tally (λ q _. one_if (q == x)) es ≡ 0
      → tally (rewritten f x v) es ≡ tally f es
  tally-rewritten f x v [] h = refl
  tally-rewritten f x v (e ∷ es) h = ground (arith, tally-rewritten f x v es (ground arith))

  -- The used elements hold a pointer at most as often as all of them.
  tally-ptrs-le :
      (x : ℕ) (es : List (Elem A)) → tally (λ q _. one_if (q == x)) es ≤ count x (ptrs es)
  tally-ptrs-le x [] = omega arith
  tally-ptrs-le x (e ∷ es) = ground (arith, tally-ptrs-le x es)

  pub tally-set_node :
      (f : ℕ → A → ℕ) (es : List (Elem A)) (i : ℕ) (e : Elem A) (v : A)
      → get_elem? es i ≡ some e
      → e.free ≡ false
      → tally f (set_node es i v) + f e.ptr e.node ≡ f e.ptr v + tally f es
  tally-set_node f [] i e v at h = cc
  tally-set_node f (x ∷ es) zero e v at h = ground arith
  tally-set_node f (x ∷ es) (suc i) e v at h = omega (arith, tally-set_node f es i e v at h)

  tally_one-set_node :
      (es : List (Elem A)) (i : ℕ) (v : A)
      → tally (λ _ _. 1) (set_node es i v) ≡ tally (λ _ _. 1) es
  tally_one-set_node [] i v = refl
  tally_one-set_node (e ∷ es) zero v = refl
  tally_one-set_node (e ∷ es) (suc i) v = omega (arith, tally_one-set_node es i v)

  tally_one-write_node :
      (x : ℕ) (v : A) (es : List (Elem A))
      → tally (λ _ _. 1) (write_node x v es) ≡ tally (λ _ _. 1) es
  tally_one-write_node x v [] = refl
  tally_one-write_node x v (e ∷ es) = ground (arith, tally_one-write_node x v es)

  module _ (a : Allocator) (base : ℕ → Bool) where
    pub set_node-IsFragPool :
        (p : FragPool A) (h : a.Heap) (i : ℕ) (v : A)
        → IsFragPool a base p h
        → IsFragPool a base (record p { elems = set_node p.elems i v }) h
    set_node-IsFragPool p h i v ok = record {
      size = length-set_node p.elems i v ∙ ok.size;
      bounded = ok.bounded;
      reserve = ok.reserve;
      used = omega (arith, ok.used, tally_one-set_node p.elems i v);
      tight = λ less. is_free_at-set_node p.elems i v (p.real_len - 1) ∙ ok.tight less;
      owns = rw (ptrs-set_node p.elems i v) ok.owns;
      there = ok.there;
    }

    write_node-IsFragPool :
        (p : FragPool A) (h : a.Heap) (x : ℕ) (v : A)
        → IsFragPool a base p h
        → IsFragPool a base (record p { elems = write_node x v p.elems }) h
    write_node-IsFragPool p h x v ok = record {
      size = length-write_node x v p.elems ∙ ok.size;
      bounded = ok.bounded;
      reserve = ok.reserve;
      used = omega (arith, ok.used, tally_one-write_node x v p.elems);
      tight = λ less. is_free_at-write_node x v p.elems (p.real_len - 1) ∙ ok.tight less;
      owns = rw (ptrs-write_node x v p.elems) ok.owns;
      there = ok.there;
    }

    -- A node that was just handed out, written: it joins the others with what was written.
    pub write_new :
        (old : List (Elem A)) (x : ℕ) (p : FragPool A) (h : a.Heap) (v : A) (f : A → ℕ)
        → FragTakes a base old (some (x, p, h))
        → IsFragPool a base (record p { elems = write_node x v p.elems }) h
          × (tally (λ _ u. f u) (write_node x v p.elems) ≡ f v + tally (λ _ u. f u) old)
    write_new old x p h v f (ok, (w, sums)) =
        let is_x : ℕ → A → ℕ = λ q _. one_if (q == x) in
        let once : count x (ptrs p.elems) ≤ 1 =
          ground (arith, ok.owns x, count-block x p.array (p.self ∷ ptrs p.elems)) in
        let none_old : tally is_x old ≡ 0 =
          ground (arith, sums is_x, once, tally-ptrs-le x p.elems) in
        let g : ℕ → A → ℕ = λ _ u. f u in
        (
          write_node-IsFragPool p h x v ok,
          ground (
            arith,
            tally-write_node g x v p.elems,
            sums (rewritten g x v),
            tally-rewritten g x v old none_old,
          ),
        )
