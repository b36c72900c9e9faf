-- ===== src/Base/Slices.antt =====
-- Prefixes and slices of arrays.
use Prim.Native.Nat.{ℕ, zero, suc, ◌+◌, ◌-◌, ◌≤◌, ◌<◌}
use mathlib.Core.Path.{◌≡◌, refl, ap, ◌∙◌}
use mathlib.Core.List.{List, [], ◌∷◌, ◌++◌}
use mathlib.Core.Option.{some}
use native.Mathlib.Omega.{arith}
use open_tube_engine_old.Base.Lists.{
  length, get_elem?, set, take, drop, replicate, length-append, length-take, length-replicate,
}

module _ {ℓ} {A : Type ℓ} where
  -- `realloc` of an array: the entries that fit are kept, new cells hold `fill`.
  abbrev pub resize : ℕ → A → List A → List A
  resize n fill xs = take n xs ++ replicate (n - length xs) fill

  pub get_elem?-lt : (xs : List A) (i : ℕ) → i < length xs → (x : A) × (get_elem? xs i ≡ some x)
  get_elem?-lt [] i h = elim h [ ]
  get_elem?-lt (x ∷ xs) zero h = (x, refl)
  get_elem?-lt (x ∷ xs) (suc i) h = get_elem?-lt xs i (omega arith)

  pub lt-get_elem? : (xs : List A) (i : ℕ) {x : A} → get_elem? xs i ≡ some x → i < length xs
  lt-get_elem? [] i e = cc
  lt-get_elem? (y ∷ xs) zero e = omega arith
  lt-get_elem? (y ∷ xs) (suc i) e = omega (arith, lt-get_elem? xs i e)

  pub drop-get_elem? :
      (xs : List A) (i : ℕ) {x : A} → get_elem? xs i ≡ some x → drop i xs ≡ x ∷ drop (suc i) xs
  drop-get_elem? [] i e = cc
  drop-get_elem? (y ∷ xs) zero e = cc
  drop-get_elem? (y ∷ xs) (suc i) e = drop-get_elem? xs i e

  pub take-get_elem? :
      (xs : List A) (i : ℕ) {x : A}
      → get_elem? xs i ≡ some x
      → take (suc i) xs ≡ take i xs ++ x ∷ []
  take-get_elem? [] i e = cc
  take-get_elem? (y ∷ xs) zero e = cc
  take-get_elem? (y ∷ xs) (suc i) e = ap (◌∷◌ y) (take-get_elem? xs i e)

  pub take-add : (n m : ℕ) (xs : List A) → take (n + m) xs ≡ take n xs ++ take m (drop n xs)
  take-add zero m xs = ap (λ k. take k xs) (omega arith)
  take-add (suc n) zero [] = let e : suc n + zero ≡ suc n = omega arith in rw e
  take-add (suc n) (suc m) [] = let e : suc n + suc m ≡ suc (n + suc m) = omega arith in rw e
  take-add (suc n) m (x ∷ xs) =
      let e : suc n + m ≡ suc (n + m) = omega arith in rw e (ap (◌∷◌ x) (take-add n m xs))

  pub take_all : (n : ℕ) (xs : List A) → length xs ≤ n → take n xs ≡ xs
  take_all zero [] h = refl
  take_all zero (x ∷ xs) h = absurd (omega arith)
  take_all (suc n) [] h = refl
  take_all (suc n) (x ∷ xs) h = ap (◌∷◌ x) (take_all n xs (omega arith))

  pub take-set : (xs : List A) (i : ℕ) (v : A) → take i (set xs i v) ≡ take i xs
  take-set [] i v = refl
  take-set (x ∷ xs) zero v = refl
  take-set (x ∷ xs) (suc i) v = ap (◌∷◌ x) (take-set xs i v)

  pub take-append : (n : ℕ) (xs ys : List A) → n ≤ length xs → take n (xs ++ ys) ≡ take n xs
  take-append zero xs ys h = refl
  take-append (suc n) [] ys h = absurd (omega arith)
  take-append (suc n) (x ∷ xs) ys h = ap (◌∷◌ x) (take-append n xs ys (omega arith))

  pub take-take : (n m : ℕ) (xs : List A) → n ≤ m → take n (take m xs) ≡ take n xs
  take-take zero m xs h = refl
  take-take (suc n) zero xs h = absurd (omega arith)
  take-take (suc n) (suc m) [] h = refl
  take-take (suc n) (suc m) (x ∷ xs) h = ap (◌∷◌ x) (take-take n m xs (omega arith))

  pub length-resize : (n : ℕ) (fill : A) (xs : List A) → length (resize n fill xs) ≡ n
  length-resize n fill xs = omega (
    arith,
    length-append (take n xs) (replicate (n - length xs) fill),
    length-take n xs,
    length-replicate (n - length xs) fill,
  )

  pub take-resize :
      (i n : ℕ) (fill : A) (xs : List A)
      → i ≤ n
      → i ≤ length xs
      → take i (resize n fill xs) ≡ take i xs
  take-resize i n fill xs h k =
      take-append i (take n xs) _ (omega (arith, length-take n xs)) ∙ take-take i n xs h

  pub append_one-injective :
      (xs ys : List A) (x y : A) → xs ++ x ∷ [] ≡ ys ++ y ∷ [] → (xs ≡ ys) × (x ≡ y)
  append_one-injective [] [] x y e = (refl, cc)
  append_one-injective [] (b ∷ ys) x y e =
      absurd (omega (arith, length-append ys (y ∷ []), ap length e))
  append_one-injective (a ∷ xs) [] x y e =
      absurd (omega (arith, length-append xs (x ∷ []), ap length e))
  append_one-injective (a ∷ xs) (b ∷ ys) x y e =
      let h : xs ++ x ∷ [] ≡ ys ++ y ∷ [] = cc in
      let r = append_one-injective xs ys x y h in (cc (r.0), r.1)
