-- ===== src/Config/Parser/RoundTrip.antt =====
-- The parser reads back what the printer writes. (config_parser.c)
use open_tube_engine_old.Base.{
  ℕ, suc, ◌+◌, ◌≡◌, refl, sym, ap, ◌∙◌, subst, Bool, true, false, List, ◌∷◌, ◌++◌, ltb,
  if◌then◌else◌, arith,
}
use open_tube_engine_old.Http.Chars.{Bytes}
use open_tube_engine_old.Config.Cursor.{Cursor, config_valid_name_symbol, config_jump_to_nonspace}
use open_tube_engine_old.Config.Cursor.Solid.{
  to_nonspace-solid, IsTail, end-IsTail, name_symbol-solid,
}
use open_tube_engine_old.Config.Setting.{
  Setting, setting, Value, unset, string, bool, int, int64, float, group, Settings, nil, cons,
  append, Parse, parsed, ◌>>=◌,
}
use open_tube_engine_old.Config.Parser.{
  Libc, int_max, parse_value, parse_named, parse_child, config_parse_childs,
}
use open_tube_engine_old.Config.Parser.Printer.{
  print_setting, print_value, print_settings, AreDistinct, IsNumeral, IsName, IsPrintable,
  IsPrintableValue, ArePrintable, rounds, rounds_in,
}
use open_tube_engine_old.Config.Parser.Values.{
  numeral-print, first_symbol, print-IsTail, group_value-print, value_at, true_at, false_at,
  named-print, numeral-still,
}

abbrev pub join : Settings → Settings → Settings
join l nil = l
join l (cons x m) = join (append l x) m

abbrev pub concat : Settings → Settings → Settings
concat nil m = m
concat (cons x l) m = cons x (concat l m)

concat-append :
    (l : Settings) (x : Setting) (m : Settings) → concat (append l x) m ≡ concat l (cons x m)
concat-append nil x m = refl
concat-append (cons y l) x m = ap (cons y) (concat-append l x m)

concat-nil : (l : Settings) → concat l nil ≡ l
concat-nil nil = refl
concat-nil (cons x l) = ap (cons x) (concat-nil l)

pub join-concat : (l m : Settings) → join l m ≡ concat l m
join-concat l nil = sym (concat-nil l)
join-concat l (cons x m) = join-concat (append l x) m ∙ concat-append l x m

module _ (c : Libc) (numeral : ℕ → Bytes) (l : ℕ) where
  module _ (read : Bytes → List Bytes → Bytes → Parse Settings) (file : Bytes)
      (files : List Bytes) where
    -- The group's end.
    group_end :
        (n : ℕ) (before : Settings) (s : Bytes)
        → config_parse_childs c read
            (suc n)
            false
            file
            files
            before
            (record { line = l; rest = b'}' ∷ b';' ∷ s })
          ≡ parsed (before, record { line = l; rest = s })
    unfolding config_parse_childs config_jump_to_nonspace
    group_end n before s = refl

    child_named :
        (f : Cursor → Parse (Settings × Cursor)) (before : Settings) (d : ℕ) (s : Bytes)
        → config_valid_name_symbol d ≡ true
        → parse_child c read file files f before (record { line = l; rest = d ∷ s })
          ≡ parse_named c file f before (record { line = l; rest = d ∷ s })
    unfolding parse_child
    child_named f before d s h = rw (name_symbol-solid d h).3 refl

    -- One round of the loop that reads the setting `x`.
    round_step :
        (n : ℕ) (is_root : Bool) (before : Settings) (d : ℕ) (s : Bytes) (x : Setting) (q : Cursor)
        → config_valid_name_symbol d ≡ true
        → parse_named c file
            (config_parse_childs c read n false file files nil)
            before
            (record { line = l; rest = d ∷ s })
          ≡ parsed (x, q)
        → config_parse_childs c read
            (suc n)
            is_root
            file
            files
            before
            (record { line = l; rest = d ∷ s })
          ≡ config_parse_childs c read n is_root file files (append before x) q
    unfolding config_parse_childs
    round_step n is_root before d s x q sym_d run =
        let t = name_symbol-solid d sym_d in
        let f = config_parse_childs c read n false file files nil in
        rw (to_nonspace-solid l d s t.1, config_parse_childs, t.2)
          (ap
            (λ r.
              r >>= λ y. config_parse_childs c read n is_root file files (append before y.0) y.1)
            (ap (parse_child c read file files f before) (to_nonspace-solid l d s t.1)
              ∙ child_named f before d s sym_d
              ∙ run))

    round_named :
        (n : ℕ) (is_root : Bool) (before : Settings) (name : Bytes) (v : Value) (s : Bytes)
        (q : Cursor)
        → IsName name
        → parse_named c file
            (config_parse_childs c read n false file files nil)
            before
            (record { line = l; rest = print_setting numeral (setting name l v) s })
          ≡ parsed (setting name l v, q)
        → config_parse_childs c read
            (suc n)
            is_root
            file
            files
            before
            (record { line = l; rest = print_setting numeral (setting name l v) s })
          ≡ config_parse_childs c read n is_root file files (append before (setting name l v)) q
    unfolding print_setting
    round_named n is_root before name v s q w run =
        let rest = b':' ∷ print_value numeral v (b';' ∷ s) in
        let f = config_parse_childs c read n false file files nil in
        let at : Bytes → Cursor = λ t. record { line = l; rest = t ++ rest } in
        ap (λ t. config_parse_childs c read (suc n) is_root file files before (at t)) w.not_empty
        ∙ round_step n is_root before w.first (w.more ++ rest) (setting name l v) q
            (first_symbol c numeral l name w)
            (ap (λ t. parse_named c file f before (at t)) (sym w.not_empty) ∙ run)

    -- The value `v` begins with a solid byte, and is read where the loop has fuel `n`.
    abbrev pub ReadsValue : ℕ → Value → Bytes → Type 0
    ReadsValue n v s =
        (config_jump_to_nonspace (record { line = l; rest = print_value numeral v (b';' ∷ s) })
          ≡ record { line = l; rest = print_value numeral v (b';' ∷ s) })
        × (parse_value c file (config_parse_childs c read n false file files nil)
              (record { line = l; rest = print_value numeral v (b';' ∷ s) })
            ≡ parsed (v, record { line = l; rest = s }))

    group_at :
        (n : ℕ) (m : Settings) (s : Bytes)
        → ArePrintable c numeral l m
        → IsTail s
        → config_parse_childs c read n false file files nil
            (record { line = l; rest = print_settings numeral m (b'}' ∷ b';' ∷ s) })
          ≡ parsed (m, record { line = l; rest = s })
        → ReadsValue n (group m) s
    unfolding parse_value print_setting
    group_at n m s h t run = (
      to_nonspace-solid l b'{' (print_settings numeral m (b'}' ∷ b';' ∷ s)) refl,
      rw (run, group_value-print c numeral l m m (b';' ∷ s) h, end-IsTail l s t) refl,
    )

    integer-print :
        (n k : ℕ) (s : Bytes) (v : Value)
        → IsNumeral c numeral n
        → (if ltb int_max n then int64 n else int n) ≡ v
        → print_value numeral v (b';' ∷ s) ≡ numeral n ++ b';' ∷ s
        → ReadsValue k v s
    integer-print n k s v h kind text = (
      rw text (numeral-still c numeral l n (b';' ∷ s) h),
      rw text (
          numeral-print c numeral l file (config_parse_childs c read k false file files nil) n s h
          ∙ ap (λ u. parsed (u, record { line = l; rest = s })) kind),
    )

    mutual
      unfolding print_setting IsPrintable rounds

      value-print :
          (v : Value) (n k : ℕ) (s : Bytes)
          → n ≡ rounds_in v + k
          → IsPrintableValue c numeral l v
          → IsTail s
          → ReadsValue n v s
      value-print unset n k s e h t = absurd h
      value-print (string str) n k s e h t = (
        to_nonspace-solid l b'"' (str ++ b'"' ∷ b';' ∷ s) refl,
        value_at c numeral l file _ str s h,
      )
      value-print (bool true) n k s e h t =
          (to_nonspace-solid l b't' _ refl, true_at c numeral l file _ s)
      value-print (bool false) n k s e h t =
          (to_nonspace-solid l b'f' _ refl, false_at c numeral l file _ s)
      value-print (int i) n k s e h t = integer-print i n s (int i) h.1 (ground (arith, h.0)) refl
      value-print (int64 i) n k s e h t =
          integer-print i n s (int64 i) h.1 (ground (arith, h.0)) refl
      value-print (float b) n k s e h t = absurd h
      value-print (group m) n k s e h t = group_at n m s h.0 t (
          rw (let e' : n ≡ suc (rounds m + k) = omega (arith, e) in e') (
            settings-print m nil false (rounds m + k) k (b'}' ∷ b';' ∷ s)
              (parsed (m, record { line = l; rest = s })) refl h.0 h.1 refl
              (λ j.
                group_end j (join nil m) s
                ∙ ap (λ u. parsed (u, record { line = l; rest = s })) (join-concat nil m))))

      pub settings-print :
          (ss before : Settings) (is_root : Bool) (n k : ℕ) (tail : Bytes)
          (result : Parse (Settings × Cursor))
          → n ≡ rounds ss + k
          → ArePrintable c numeral l ss
          → AreDistinct before ss
          → IsTail tail
          → ((j : ℕ)
              → config_parse_childs c read
                  (suc j)
                  is_root
                  file
                  files
                  (join before ss)
                  (record { line = l; rest = tail })
                ≡ result)
          → config_parse_childs c read
              (suc n)
              is_root
              file
              files
              before
              (record { line = l; rest = print_settings numeral ss tail })
            ≡ result
      settings-print nil before is_root n k tail result e h d t at_tail = at_tail n
      settings-print (cons (setting name line v) ss) before is_root n k tail result e h d t
            at_tail =
          let s = print_settings numeral ss tail in
          let n' = rounds ss + (rounds_in v + k) in
          let x : Setting = setting name l v in
          let value : ReadsValue n v s =
            value-print v n (suc (rounds ss + k)) s (omega (arith, e)) h.0.2
              (print-IsTail c numeral l ss tail h.1 t) in
          let more : n ≡ suc n' = omega (arith, e) in
          let distinct : AreDistinct (append before x) ss =
            subst (λ i. AreDistinct (append before (setting name i v)) ss) h.0.1 d.1 in
          round_named n is_root before name v s (record { line = l; rest = s }) h.0.0
            (named-print c numeral l file (config_parse_childs c read n false file files nil) before
              name v s h.0.0 d.0 value.0 value.1)
          ∙ ap
              (λ m.
                config_parse_childs c read m is_root file files (append before x)
                  (record { line = l; rest = s }))
              more
          ∙ settings-print ss (append before x) is_root n' (rounds_in v + k) tail result refl h.1
              distinct t
              (λ j.
                subst
                  (λ i.
                    config_parse_childs c read (suc j) is_root file files
                      (join (append before (setting name i v)) ss)
                      (record { line = l; rest = tail })
                    ≡ result)
                  h.0.1 (at_tail j))
