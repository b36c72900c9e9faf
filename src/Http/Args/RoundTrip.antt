-- ===== src/Http/Args/RoundTrip.antt =====
-- `http_parse__` reads back what is written as keys and values, and where it reads too far.
-- (core_http.c)
use open_tube_engine_old.Base.{
  ℕ, suc, ◌+◌, ◌≡◌, refl, ap, ◌∙◌, false, List, [], ◌∷◌, ◌++◌, none, some, arith, ◌==◌, ==_iff,
  length, append-nil,
}
use open_tube_engine_old.Http.Chars.{
  Bytes, is_valid_url_key_character, is_valid_url_value_character,
}
use open_tube_engine_old.Http.Headers.Scans.{All, is_not, scan_to-append}
use open_tube_engine_old.Http.Args.{
  between, in_value, add_counts, estimate, decode_value, UrlArg, push_arg, fill, Args, http_parse__,
}
use open_tube_engine_old.Http.Args.Pairs.{
  value_bytes, value_of, raw_length, Pair, IsPair, pair_bytes, arg_of, key-special, percent_valid,
  not_skipped, estimate-pair, estimate-byte,
}
use open_tube_engine_old.Http.Args.Values.{
  decode_value-plain, decode_value-byte, decode_value-escape, decode_value-value_bytes,
  decode_value-separator,
}

key-is_not : (key : Bytes) → All is_valid_url_key_character key → All (is_not b'=') key
key-is_not [] h = tt
key-is_not (c ∷ key) h = (rw (key-special c h.0).0 refl, key-is_not key h.1)

abbrev pub ArePairs : List Pair → Type 0
ArePairs [] = Unit {0}
ArePairs (p ∷ ps) = IsPair p × ArePairs ps

abbrev pub args_of : List Pair → Pair → List UrlArg
args_of [] last = arg_of last ∷ []
args_of (p ∷ ps) last = arg_of p ∷ args_of ps last

abbrev pub raw_total : List Pair → Pair → ℕ
raw_total [] last = raw_length last.pieces
raw_total (p ∷ ps) last = raw_length p.pieces + raw_total ps last

-- Pairs with the separator behind each, and the last without.
abbrev pub pairs_bytes : ℕ → List Pair → Pair → Bytes
pairs_bytes separator [] last = pair_bytes last []
pairs_bytes separator (p ∷ ps) last = pair_bytes p (separator ∷ pairs_bytes separator ps last)

module _ (separator : ℕ) (sep : is_valid_url_value_character separator ≡ false) where
  fill-pair :
      (n : ℕ) (p : Pair) (s : Bytes)
      → IsPair p
      → let (w, rest) = decode_value separator s in
        fill separator (suc n) (some (pair_bytes p s))
        ≡ push_arg
            (record { key = p.first ∷ p.key; value = value_of p.pieces ++ w })
            (fill separator n rest)
  unfolding fill
  fill-pair n p s h =
      rw
        (
          not_skipped separator sep p.first h.first,
          (key-special p.first h.first).0,
          scan_to-append b'=' p.key (value_bytes p.pieces s) (key-is_not p.key h.key),
          decode_value-value_bytes separator sep p.pieces s h.pieces,
          fill,
        )
        refl

  estimate-separator :
      (s : Bytes) → estimate separator in_value (separator ∷ s) ≡ estimate separator between s
  unfolding estimate
  estimate-separator s = rw ((==_iff separator separator).1 refl) refl

  estimate-pairs_bytes :
      (ps : List Pair) (last : Pair)
      → ArePairs ps
      → IsPair last
      → estimate separator between (pairs_bytes separator ps last)
        ≡ some (suc (length ps), raw_total ps last)
  unfolding estimate
  estimate-pairs_bytes [] last h k = estimate-pair separator sep last [] k ∙ ground arith
  estimate-pairs_bytes (p ∷ ps) last h k =
      estimate-pair separator sep p (separator ∷ pairs_bytes separator ps last) h.0
      ∙ ap (add_counts 1 (raw_length p.pieces))
          (estimate-separator (pairs_bytes separator ps last) ∙ estimate-pairs_bytes ps last h.1 k)
      ∙ ground arith

  value_nil :
      (p : Pair) → record { key = p.first ∷ p.key; value = value_of p.pieces ++ [] } ≡ arg_of p
  value_nil p =
      ap (λ v. record { key = p.first ∷ p.key; value = v }) (append-nil (value_of p.pieces))

  fill-last :
      (n : ℕ) (p : Pair)
      → IsPair p
      → fill separator (suc n) (some (pair_bytes p []))
        ≡ push_arg (arg_of p) (fill separator n none)
  unfolding decode_value
  fill-last n p h = fill-pair n p [] h ∙ ap (λ a. push_arg a (fill separator n none)) (value_nil p)

  fill-next :
      (n : ℕ) (p : Pair) (s : Bytes)
      → IsPair p
      → fill separator (suc n) (some (pair_bytes p (separator ∷ s)))
        ≡ push_arg (arg_of p) (fill separator n (some s))
  fill-next n p s h =
      fill-pair n p (separator ∷ s) h
      ∙ ap
          (λ d.
            push_arg (record { key = p.first ∷ p.key; value = value_of p.pieces ++ d.0 })
              (fill separator n d.1))
          (decode_value-separator separator sep s)
      ∙ ap (λ a. push_arg a (fill separator n (some s))) (value_nil p)

  fill-pairs_bytes :
      (ps : List Pair) (last : Pair)
      → ArePairs ps
      → IsPair last
      → fill separator (suc (length ps)) (some (pairs_bytes separator ps last))
        ≡ some (args_of ps last)
  unfolding fill
  fill-pairs_bytes [] last h k = fill-last 0 last k
  fill-pairs_bytes (p ∷ ps) last h k =
      fill-next (suc (length ps)) p (pairs_bytes separator ps last) h.0
      ∙ ap (push_arg (arg_of p)) (fill-pairs_bytes ps last h.1 k)

  -- Where the separator may not stand in a value, a string of keys and values, with keys of valid
  -- bytes that are not empty and values of valid bytes, plus signs and percent signs with two valid
  -- bytes each, is read back: the number of arguments, each key with its value in order, plus signs
  -- as spaces and escapes decoded, and room for each value with a NUL behind it.
  pub http_parse__-pairs_bytes :
      (ps : List Pair) (last : Pair) (old : Args)
      → ArePairs ps
      → IsPair last
      → http_parse__ separator (pairs_bytes separator ps last) old
        ≡ some (record {
          args_num = suc (length ps);
          args = args_of ps last;
          args_len = suc (length ps);
          vals_len = raw_total ps last + suc (length ps);
        })
  unfolding http_parse__
  http_parse__-pairs_bytes ps last old h k =
      rw (estimate-pairs_bytes ps last h k, http_parse__) (rw (fill-pairs_bytes ps last h k) refl)

  decode_value-key :
      (key s : Bytes)
      → All is_valid_url_key_character key
      → (decode_value separator s).1 ≡ none
      → (decode_value separator (key ++ s)).1 ≡ none
  decode_value-key [] s h e = e
  decode_value-key (c ∷ key) s h e =
      ap (λ d. d.1) (decode_value-byte separator sep c (key ++ s) h.0)
      ∙ decode_value-key key s h.1 e

  estimate-percent :
      (p q : Pair)
      → IsPair p
      → IsPair q
      → estimate separator between (pair_bytes p (b'%' ∷ separator ∷ pair_bytes q []))
        ≡ some (2, raw_length p.pieces + (1 + raw_length q.pieces))
  estimate-percent p q h k =
      estimate-pair separator sep p (b'%' ∷ separator ∷ pair_bytes q []) h
      ∙ ap (add_counts 1 (raw_length p.pieces)) (
          estimate-byte separator sep b'%' (separator ∷ pair_bytes q []) percent_valid
          ∙ ap (add_counts 0 1)
              (estimate-separator (pair_bytes q []) ∙ estimate-pairs_bytes [] q tt k))

  decode_value-rest :
      (q : Pair)
      → (b'=' == separator) ≡ false
      → IsPair q
      → (decode_value separator (q.key ++ b'=' ∷ value_bytes q.pieces [])).1 ≡ none
  unfolding decode_value
  decode_value-rest q ne k = decode_value-key q.key (b'=' ∷ value_bytes q.pieces []) k.key (
      ap (λ d. d.1) (decode_value-plain separator sep b'=' (value_bytes q.pieces []) ne refl refl)
      ∙ ap (λ d. d.1) (decode_value-value_bytes separator sep q.pieces [] k.pieces))

  -- Where the separator is also no equals sign, and a percent sign stands directly before the
  -- separator that ends a value, the first pass counts the pair behind it and the second decodes
  -- the separator as a part of an escape: with one pair behind it, it reads behind the NUL of the
  -- string.
  pub http_parse__-percent :
      (p q : Pair) (old : Args)
      → (b'=' == separator) ≡ false
      → IsPair p
      → IsPair q
      → http_parse__ separator (pair_bytes p (b'%' ∷ separator ∷ pair_bytes q [])) old ≡ none
  unfolding http_parse__ fill
  http_parse__-percent p q old ne h k =
      let tail = separator ∷ pair_bytes q [] in
      let behind : (decode_value separator (b'%' ∷ tail)).1 ≡ none =
        ap (λ d. d.1) (decode_value-escape separator sep separator q.first _)
        ∙ decode_value-rest q ne k in
      let stuck : fill separator 2 (some (pair_bytes p (b'%' ∷ tail))) ≡ none =
        fill-pair 1 p (b'%' ∷ tail) h
        ∙ ap
            (λ t.
              push_arg
                (record {
                  key = p.first ∷ p.key;
                  value = value_of p.pieces ++ (decode_value separator (b'%' ∷ tail)).0;
                })
                (fill separator 1 t))
            behind in
      rw (estimate-percent p q h k, http_parse__) (rw stuck refl)
