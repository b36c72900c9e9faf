-- ===== src/Config/Parser/Parts.antt =====
-- How much of the text the parts of the parser leave. (config_parser.c)
use open_tube_engine_old.Base.{
  ℕ, suc, ◌-◌, ◌≤◌, ◌<◌, ◌≡◌, Bool, true, false, ◌||◌, [], ◌∷◌, Option, none, some, ◌==◌,
  if◌then◌else◌, length, drop, arith, inl, inr, Bool-cases, Option-cases, length-drop,
}
use open_tube_engine_old.Http.Chars.{Bytes, within}
use open_tube_engine_old.Config.Cursor.{
  Cursor, begins, config_jump_to_nonspace, skip_semicolon, span_name, Quoted, closed, unclosed,
  scan_string, after_word,
}
use open_tube_engine_old.Config.Setting.{
  setting, Settings, Value, bool, config_find_child_by_name, Parse, parsed, fails, out_of_fuel,
  too_deep, ◌>>=◌, invalid_character,
}
use open_tube_engine_old.Config.Parser.{
  Libc, advance_to, at_rest, named, config_parse_setting_name, quoted, config_parse_string,
  end_of_setting, name_closed, word_false, word_true, config_parse_int, fail_at, parse_value,
  parse_named,
}
use open_tube_engine_old.Config.Cursor.Sizes.{
  length-to_nonspace, length-drop_semicolon, length-span_name, Closes, scan_string-Closes, Shorter,
  after_word-Shorter,
}

-- No lack of fuel, and at most `n` bytes are left.
abbrev pub Leaves {ℓ} : {A : Type ℓ} → ℕ → Parse (A × Cursor) → Type 0
Leaves n (parsed (a, p)) = length p.rest ≤ n
Leaves n (fails e) = Unit {0}
Leaves n out_of_fuel = ⊥
Leaves n too_deep = Unit {0}

pub Leaves-bind {ℓ κ} :
    {A : Type ℓ} {B : Type κ} (n m : ℕ) (r : Parse (A × Cursor))
    (f : A × Cursor → Parse (B × Cursor))
    → Leaves n r
    → ((a : A) (p : Cursor) → length p.rest ≤ n → Leaves m (f (a, p)))
    → Leaves m (r >>= f)
Leaves-bind n m (parsed (a, p)) f h k = k a p h
Leaves-bind n m (fails e) f h k = tt
Leaves-bind n m out_of_fuel f h k = h
Leaves-bind n m too_deep f h k = tt

pub Leaves-weaken {ℓ} :
    {A : Type ℓ} (m n : ℕ) (r : Parse (A × Cursor)) → m ≤ n → Leaves m r → Leaves n r
Leaves-weaken m n (parsed (a, p)) le h = omega (arith, le, h)
Leaves-weaken m n (fails e) le h = tt
Leaves-weaken m n out_of_fuel le h = h
Leaves-weaken m n too_deep le h = tt

pub length-end_of_setting : (p : Cursor) → length (end_of_setting p).rest ≤ length p.rest
length-end_of_setting p =
    omega (arith, length-to_nonspace p, length-drop_semicolon (config_jump_to_nonspace p).rest)

pub quoted-Leaves : (file : Bytes) (n : ℕ) (q : Quoted) → Closes n q → Leaves n (quoted file q)
quoted-Leaves file n (closed s p) h = omega (arith, h)
quoted-Leaves file n (unclosed l) h = tt

pub parse_string-Leaves :
    (file : Bytes) (p : Cursor) → Leaves (length p.rest) (config_parse_string file p)
unfolding config_parse_string
parse_string-Leaves file p =
    quoted-Leaves file (length p.rest) (scan_string p.line p.rest)
      (scan_string-Closes p.line p.rest)

pub named-Leaves :
    (file : Bytes) (siblings : Settings) (p : Cursor) (n : ℕ) (s : Bytes × Bytes)
    → length s.1 ≤ n
    → Leaves n (named file siblings p s)
named-Leaves file siblings p n ([], s) h = tt
named-Leaves file siblings p n (c ∷ name, s) h =
    elim (Option-cases (config_find_child_by_name siblings (c ∷ name))) [
      | inl e ↦ rw (e, named) h
      | inr (x, e) ↦ rw (e, named) tt
    ]

pub setting_name-Leaves :
    (file : Bytes) (siblings : Settings) (p : Cursor)
    → Leaves (length p.rest) (config_parse_setting_name file siblings p)
unfolding config_parse_setting_name
setting_name-Leaves file siblings p =
    named-Leaves file siblings p (length p.rest) (span_name p.rest) (length-span_name p.rest)

-- Children are parsed with fuel to spare where fewer than `n` bytes are left.
abbrev pub ChildsLeave : ℕ → (Cursor → Parse (Settings × Cursor)) → Type 0
ChildsLeave n f = (q : Cursor) → length q.rest < n → Leaves (length q.rest) (f q)

module _ (c : Libc) (file : Bytes) (childs_at : Cursor → Parse (Settings × Cursor)) (n : ℕ)
    (enough : ChildsLeave n childs_at) where
  pub length-parse_int :
      (p : Cursor) → length (skip_semicolon (config_parse_int c p).1).rest ≤ length p.rest
  unfolding config_parse_int
  length-parse_int p =
      let dot = config_jump_to_nonspace (advance_to p (c.strtod p.rest).1) in
      let plain = config_jump_to_nonspace (advance_to p (c.strtoll p.rest).1) in
      elim (Bool-cases (begins b'.' (drop (c.strtoll p.rest).1 p.rest))) [
        | inl e ↦
            rw (e, config_parse_int)
              (omega (
                arith,
                length-drop_semicolon dot.rest,
                length-to_nonspace (advance_to p (c.strtod p.rest).1),
                length-drop (c.strtod p.rest).1 p.rest,
              ))
        | inr e ↦
            rw (e, config_parse_int)
              (omega (
                arith,
                length-drop_semicolon plain.rest,
                length-to_nonspace (advance_to p (c.strtoll p.rest).1),
                length-drop (c.strtoll p.rest).1 p.rest,
              ))
      ]

  -- A word, and what stands behind it.
  pub word_value-Leaves :
      (p : Cursor) (b : Bool) (o : Option Bytes) (other : Parse (Value × Cursor))
      → Shorter (length p.rest) o
      → Leaves (length p.rest) other
      → Leaves
          (length p.rest)
          (elim o [ some t ↦ parsed (bool b, end_of_setting (at_rest p t)) | none ↦ other ])
  unfolding Shorter
  word_value-Leaves p b none other h k = k
  word_value-Leaves p b (some t) other h k = omega (arith, h, length-end_of_setting (at_rest p t))

  pub parse_value-Leaves :
      (l : ℕ) (s : Bytes)
      → length s ≤ n
      → Leaves (length s) (parse_value c file childs_at (record { line = l; rest = s }))
  unfolding parse_value
  parse_value-Leaves l [] h = tt
  parse_value-Leaves l (d ∷ s) h =
      let p : Cursor = record { line = l; rest = d ∷ s } in
      elim (Bool-cases (d == b'{')) [
        | inl e ↦ rw e (
            Leaves-bind (length s) (suc (length s)) (childs_at (at_rest p s)) _
              (enough (at_rest p s) (omega arith))
              (λ t q k. omega (arith, length-end_of_setting q)))
        | inr e ↦ rw e (elim (Bool-cases (d == b'"')) [
          | inl e1 ↦ rw e1 (
              Leaves-bind (length s) (suc (length s)) (config_parse_string file (at_rest p s)) _
                (parse_string-Leaves file (at_rest p s))
                (λ t q k. omega (arith, length-end_of_setting q)))
          | inr e1 ↦ rw e1 (elim (Bool-cases (within b'0' b'9' d)) [
            | inl e2 ↦ rw e2 (length-parse_int p)
            | inr e2 ↦ rw e2 (
                word_value-Leaves p false (after_word word_false (d ∷ s)) _
                  (after_word-Shorter word_false (d ∷ s))
                  (word_value-Leaves p true (after_word word_true (d ∷ s)) _
                    (after_word-Shorter word_true (d ∷ s)) tt))
          ])
        ])
      ]

  pub length-name_closed : (s : Bytes) (p : Cursor) → length (name_closed s p).rest ≤ length p.rest
  length-name_closed s p = ground arith

  -- A colon or an equals sign is read at least.
  pub begins-lt :
      (s : Bytes) → (begins b':' s || begins b'=' s) ≡ true → length (drop 1 s) < length s
  begins-lt [] h = ground (arith, h)
  begins-lt (d ∷ s) h = omega arith

  pub after_name-Leaves :
      (name : Bytes) (line m : ℕ) (q : Cursor)
      → length q.rest ≤ m
      → m ≤ n
      → let r = config_jump_to_nonspace q in
        Leaves (m - 1) (
          if begins b':' r.rest || begins b'=' r.rest
          then (parse_value c file childs_at
                (config_jump_to_nonspace (at_rest (name_closed q.rest r) (drop 1 r.rest)))
              >>= λ v. parsed (setting name line v.0, v.1))
          else fail_at file r invalid_character)
  after_name-Leaves name line m q le le' =
      let r = config_jump_to_nonspace q in
      let t = config_jump_to_nonspace (at_rest (name_closed q.rest r) (drop 1 r.rest)) in
      elim (Bool-cases (begins b':' r.rest || begins b'=' r.rest)) [
        | inr e ↦ rw e tt
        | inl e ↦
            let less : length t.rest < length r.rest = omega (
              arith,
              begins-lt r.rest e,
              length-to_nonspace (at_rest (name_closed q.rest r) (drop 1 r.rest)),
            ) in
            rw e (
              Leaves-bind (length t.rest) (m - 1) (parse_value c file childs_at t) _
                (parse_value-Leaves t.line t.rest (omega (arith, less, length-to_nonspace q)))
                (λ v p k. omega (arith, less, length-to_nonspace q, k)))
      ]

  pub parse_named-Leaves :
      (siblings : Settings) (p : Cursor)
      → length p.rest ≤ n
      → Leaves (length p.rest - 1) (parse_named c file childs_at siblings p)
  unfolding parse_named
  parse_named-Leaves siblings p h =
      Leaves-bind (length p.rest) (length p.rest - 1) (config_parse_setting_name file siblings p) _
        (setting_name-Leaves file siblings p)
        (λ name q k. after_name-Leaves name p.line (length p.rest) q k h)
