-- ===== src/Config/Parser/Termination.antt =====
-- The parser comes to an end on every text. (config_parser.c)
use open_tube_engine_old.Base.{
  ℕ, zero, suc, ◌-◌, ◌≤◌, ◌<◌, ◌≡◌, ◌≢◌, ◌⊎◌, refl, ap, Bool, true, false, ◌&&◌, not, List, [], ◌∷◌,
  none, some, ◌==◌, if◌then◌else◌, length, drop, arith, inl, inr, Bool-cases, Option-cases,
  length-drop,
}
use open_tube_engine_old.Http.Chars.{Bytes}
use open_tube_engine_old.Config.Cursor.{
  Cursor, begins, config_jump_to_nonspace, skip_semicolon, config_quick_validate, after_word,
}
use open_tube_engine_old.Config.Setting.{
  setting, Settings, nil, append, Parse, parsed, fails, out_of_fuel, too_deep, ◌>>=◌, group,
  infinite_loop, cannot_open,
}
use open_tube_engine_old.Config.Parser.{
  Libc, at_rest, config_parse_string, end_of_setting, config_load_file_contents, word_include,
  no_line, config_parse_command, parse_child, config_parse_childs, read_file, config_read,
  any_equal,
}
use open_tube_engine_old.Config.Cursor.Sizes.{
  length-to_nonspace, length-drop_semicolon, Shorter, after_word-Shorter,
}
use open_tube_engine_old.Config.Parser.Parts.{
  Leaves, Leaves-bind, Leaves-weaken, length-end_of_setting, parse_string-Leaves, ChildsLeave,
  parse_named-Leaves,
}

List-cases {ℓ} : {A : Type ℓ} (xs : List A) → (xs ≡ []) ⊎ ((x : A) × (ys : List A) × (xs ≡ x ∷ ys))
List-cases [] = inl refl
List-cases (x ∷ xs) = inr (x, xs, refl)

-- The files that are included are read to the end.
abbrev Reads : (Bytes → List Bytes → Bytes → Parse Settings) → Type 0
Reads read =
    (file : Bytes) (files : List Bytes) (content : Bytes) → read file files content ≢ out_of_fuel

module _ (c : Libc) (read : Bytes → List Bytes → Bytes → Parse Settings) (reads : Reads read) where
  opened-Leaves :
      (t : Cursor) (r : Parse Settings)
      → r ≢ out_of_fuel
      → Leaves (length t.rest) (r >>= λ l. parsed (setting [] 0 (group l), end_of_setting t))
  opened-Leaves t (parsed l) h = length-end_of_setting t
  opened-Leaves t (fails e) h = tt
  opened-Leaves t out_of_fuel h = absurd (h refl)
  opened-Leaves t too_deep h = tt

  include-Leaves :
      (files : List Bytes) (name : Bytes) (t : Cursor)
      → Leaves (length t.rest) (
          if any_equal name files then fails (no_line name infinite_loop) else elim (c.fopen name) [
            | none ↦ fails (no_line name cannot_open)
            | some content ↦
                read name files content >>= λ l. parsed (setting [] 0 (group l), end_of_setting t)
          ])
  include-Leaves files name t = elim (Bool-cases (any_equal name files)) [
    | inl e ↦ rw e tt
    | inr e ↦ rw e (elim (Option-cases (c.fopen name)) [
      | inl e1 ↦ rw e1 tt
      | inr (content, e1) ↦
          rw e1 (opened-Leaves t (read name files content) (reads name files content))
    ])
  ]

  parse_command-Leaves :
      (file : Bytes) (files : List Bytes) (p : Cursor)
      → Leaves (length p.rest) (config_parse_command c read file files p)
  unfolding config_parse_command Shorter
  parse_command-Leaves file files p = elim (Option-cases (after_word word_include p.rest)) [
    | inl e ↦ rw (e, config_parse_command) tt
    | inr (s, e) ↦
        let q = config_jump_to_nonspace (at_rest p s) in
        let le : length s ≤ length p.rest = rw e at (after_word-Shorter word_include p.rest) in
        let less : length (drop 1 q.rest) ≤ length p.rest =
          omega (arith, le, length-drop 1 q.rest, length-to_nonspace (at_rest p s)) in
        rw (e, config_parse_command)
          (elim (Bool-cases (begins b'"' q.rest)) [
            | inr e1 ↦ rw e1 tt
            | inl e1 ↦ rw e1 (
                Leaves-bind (length (drop 1 q.rest)) (length p.rest)
                  (config_parse_string file (at_rest q (drop 1 q.rest))) _
                  (parse_string-Leaves file (at_rest q (drop 1 q.rest)))
                  (λ name t k.
                    Leaves-weaken (length t.rest) (length p.rest) _ (omega (arith, k, less))
                      (include-Leaves files name t)))
          ])
  ]

  parse_child-Leaves :
      (file : Bytes) (files : List Bytes) (childs_at : Cursor → Parse (Settings × Cursor)) (n : ℕ)
      (siblings : Settings) (p : Cursor)
      → ChildsLeave n childs_at
      → length p.rest ≤ n
      → Leaves (length p.rest - 1) (parse_child c read file files childs_at siblings p)
  unfolding parse_child
  parse_child-Leaves file files childs_at n siblings p enough le =
      elim (Bool-cases (begins b'@' p.rest)) [
        | inl e ↦ rw e (
            Leaves-weaken (length (drop 1 p.rest)) (length p.rest - 1) _
              (omega (arith, length-drop 1 p.rest))
              (parse_command-Leaves file files (at_rest p (drop 1 p.rest))))
        | inr e ↦ rw e (parse_named-Leaves c file childs_at n enough siblings p le)
      ]

  -- The loop with fuel `n` ends from every cursor with fewer than `n` bytes.
  abbrev LoopEnds : ℕ → Bytes → List Bytes → Type 0
  LoopEnds n file files =
      (is_root : Bool) (siblings : Settings) (q : Cursor)
      → length q.rest < n
      → Leaves (length q.rest) (config_parse_childs c read n is_root file files siblings q)

  round-Leaves :
      (n : ℕ) (is_root : Bool) (file : Bytes) (files : List Bytes) (siblings : Settings)
      (q : Cursor) (e : ℕ) (t : Bytes) (m : ℕ)
      → q.rest ≡ e ∷ t
      → length q.rest ≤ m
      → m ≤ n
      → LoopEnds n file files
      → Leaves m (
          if e == b'}' && not is_root
          then parsed (siblings, skip_semicolon (at_rest q t))
          else (parse_child c read file files
                (config_parse_childs c read n false file files nil)
                siblings
                q
              >>= λ r. config_parse_childs c read n is_root file files (append siblings r.0) r.1))
  round-Leaves n is_root file files siblings q e t m at le le' ends =
      let size : length q.rest ≡ suc (length t) = ap length at in
      elim (Bool-cases (e == b'}' && not is_root)) [
        | inl h ↦ rw h (omega (arith, size, le, length-drop_semicolon t))
        | inr h ↦ rw h (
            Leaves-bind (length q.rest - 1) m
              (parse_child c read file files (config_parse_childs c read n false file files nil)
                siblings q)
              _
              (parse_child-Leaves file files _ n siblings q (ends false nil)
                (omega (arith, le, le')))
              (λ x r k.
                Leaves-weaken (length r.rest) m _ (omega (arith, k, le))
                  (ends is_root (append siblings x) r (omega (arith, k, size, le, le')))))
      ]

  loop-Leaves :
      (n : ℕ) (is_root : Bool) (file : Bytes) (files : List Bytes) (siblings : Settings)
      (q : Cursor) (m : ℕ)
      → length q.rest ≤ m
      → m ≤ n
      → LoopEnds n file files
      → Leaves m (config_parse_childs c read (suc n) is_root file files siblings q)
  unfolding config_parse_childs
  loop-Leaves n is_root file files siblings q m le le' ends = elim (List-cases q.rest) [
    | inl e ↦ rw (e, config_parse_childs) le
    | inr (d, s, e) ↦
        let r = config_jump_to_nonspace q in
        let less : length r.rest ≤ m = omega (arith, le, length-to_nonspace q) in
        rw (e, config_parse_childs)
          (elim (List-cases r.rest) [
            | inl e1 ↦ rw (e1, config_parse_childs) less
            | inr (f, t, e1) ↦
                rw (e1, config_parse_childs)
                  (round-Leaves n is_root file files siblings r f t m e1 less le' ends)
          ])
  ]

  childs-Leaves : (n : ℕ) (file : Bytes) (files : List Bytes) → LoopEnds n file files
  childs-Leaves zero file files is_root siblings q lt = absurd (omega arith)
  childs-Leaves (suc n) file files is_root siblings q lt =
      loop-Leaves n is_root file files siblings q (length q.rest) (omega arith) (omega (arith, lt))
        (childs-Leaves n file files)

  children-ne-out_of_fuel :
      (m : ℕ) (r : Parse (Settings × Cursor)) → Leaves m r → (r >>= λ x. parsed x.0) ≢ out_of_fuel
  children-ne-out_of_fuel m (parsed x) h e = cc
  children-ne-out_of_fuel m (fails x) h e = cc
  children-ne-out_of_fuel m out_of_fuel h e = h
  children-ne-out_of_fuel m too_deep h e = cc

  loaded-ne-out_of_fuel :
      (is_root : Bool) (file : Bytes) (outer : List Bytes) (content : Bytes)
      → (config_load_file_contents file content >>= λ text.
          config_parse_childs c read
            (suc (length text))
            is_root
            file
            (file ∷ outer)
            nil
            (record { line = 1; rest = text })
          >>= λ x. parsed x.0)
        ≢ out_of_fuel
  unfolding config_load_file_contents
  loaded-ne-out_of_fuel is_root file outer content =
      elim (Option-cases (config_quick_validate 1 content)) [
        | inr (l, e) ↦ rw (e, config_load_file_contents) (λ h. cc)
        | inl e ↦
            rw (e, config_load_file_contents)
              (children-ne-out_of_fuel (length content) _ (
                childs-Leaves (suc (length content)) file (file ∷ outer) is_root nil
                  (record { line = 1; rest = content }) (omega arith)))
      ]

read_file-Reads : (c : Libc) (depth : ℕ) (is_root : Bool) → Reads (read_file c depth is_root)
unfolding read_file
read_file-Reads c zero is_root file outer content = λ e. cc
read_file-Reads c (suc depth) is_root file outer content =
    loaded-ne-out_of_fuel c (read_file c depth false) (read_file-Reads c depth false) is_root file
      outer content

-- Whatever the text is, and whatever files it includes and numbers the C library reads, the parser
-- comes to an end: `config_read` returns the settings or an error, or inclusion is nested deeper
-- than `depth`.
pub config_read-ne-out_of_fuel :
    (c : Libc) (depth : ℕ) (filename content : Bytes)
    → config_read c depth filename content ≢ out_of_fuel
unfolding config_read
config_read-ne-out_of_fuel c depth filename content =
    read_file-Reads c depth true filename [] content
