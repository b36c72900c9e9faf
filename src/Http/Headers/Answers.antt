-- ===== src/Http/Headers/Answers.antt =====
-- What `http_parse_headers` answers on any bytes. (core_http.c)
use open_tube_engine_old.Base.{
  ℕ, zero, suc, ◌<◌, ◌≡◌, ◌⊎◌, refl, Bool, [], ◌∷◌, arith, ◌==◌, length, inl, inr, Bool-cases,
}
use open_tube_engine_old.Http.Chars.{Bytes}
use open_tube_engine_old.Http.Headers.{
  Look, got, differs, beyond, after, scan_to, scan_key, skip_spaces, scan_value, Header, Request,
  Status, status, reads_beyond, out_of_fuel, header_lines, parse_version, parse_uri,
  http_parse_headers,
}
use open_tube_engine_old.Http.Headers.Scans.{
  All, is_not, scan_to-missing, Shorter, scan_key-Shorter, scan_value-Shorter, length-skip_spaces,
}

-- The statuses of the code, or a read beyond the received bytes; never a lack of fuel.
abbrev pub IsAnswer : Status → Type 0
IsAnswer (status code) = (code ≡ 0) ⊎ (code ≡ 400) ⊎ (code ≡ 501)
IsAnswer reads_beyond = Unit {0}
IsAnswer out_of_fuel = ⊥

Look-cases {ℓ} : {A : Type ℓ} (l : Look A) → ((a : A) × (l ≡ got a)) ⊎ (l ≡ differs) ⊎ (l ≡ beyond)
Look-cases (got a) = inl (a, refl)
Look-cases differs = inr (inl refl)
Look-cases beyond = inr (inr refl)

module _ {K : Type 0} (new_keepalive_socket : K → Bool × K) (undefined : Header) where
  header_lines-IsAnswer :
      (n : ℕ) (s : Bytes) (r : Request K)
      → length s < n
      → IsAnswer (header_lines new_keepalive_socket undefined n s r).0
  unfolding header_lines Shorter
  header_lines-IsAnswer zero s r lt = absurd (omega arith)
  header_lines-IsAnswer (suc n) [] r lt = tt
  header_lines-IsAnswer (suc n) (c ∷ s) r lt = elim (Bool-cases (c == 1)) [
    | inl e ↦ rw e (inl refl)
    | inr e ↦ elim (Look-cases (scan_key (c ∷ s))) [
      | inr (inl e1) ↦ rw (e, e1) (inr (inl refl))
      | inr (inr e1) ↦ rw (e, e1) tt
      | inl (k, e1) ↦ elim (Look-cases (scan_value (skip_spaces k.1))) [
        | inr (inl e2) ↦ rw (e, e1, e2) tt
        | inr (inr e2) ↦ rw (e, e1, e2) tt
        | inl (v, e2) ↦
            let key : length k.1 < length (c ∷ s) = rw e1 at (scan_key-Shorter (c ∷ s)) in
            let value : length v.1 < length (skip_spaces k.1) =
              rw e2 at (scan_value-Shorter (skip_spaces k.1)) in
            rw (e, e1, e2)
              (header_lines-IsAnswer n v.1 _
                (omega (arith, key, value, length-skip_spaces k.1, lt)))
      ]
    ]
  ]

  parse_version-IsAnswer :
      (s : Bytes) (r : Request K) → IsAnswer (parse_version new_keepalive_socket undefined s r).0
  unfolding parse_version
  parse_version-IsAnswer s r = elim (Look-cases (after (b'H' ∷ b'T' ∷ b'T' ∷ b'P' ∷ b'/' ∷ []) s)) [
    | inr (inl e) ↦ rw (e, parse_version) (inr (inl refl))
    | inr (inr e) ↦ rw (e, parse_version) tt
    | inl (s1, e) ↦
        rw (e, parse_version)
          (elim (Look-cases (scan_to b'\r' s1)) [
            | inr (inl e1) ↦ rw e1 tt
            | inr (inr e1) ↦ rw e1 tt
            | inl ((version, []), e1) ↦ rw e1 tt
            | inl ((version, lf ∷ s2), e1) ↦
                rw e1 (header_lines-IsAnswer (suc (length s2)) s2 _ (omega arith))
          ])
  ]

  parse_uri-IsAnswer :
      (s : Bytes) (r : Request K) → IsAnswer (parse_uri new_keepalive_socket undefined s r).0
  unfolding parse_uri
  parse_uri-IsAnswer [] r = tt
  parse_uri-IsAnswer (c ∷ s) r = elim (Bool-cases (c == b'/')) [
    | inr e ↦ rw e (inr (inl refl))
    | inl e ↦ rw e (elim (Look-cases (scan_to b' ' (c ∷ s))) [
      | inr (inl e1) ↦ rw e1 tt
      | inr (inr e1) ↦ rw e1 tt
      | inl (p, e1) ↦ rw e1 (parse_version-IsAnswer p.1 _)
    ])
  ]

  -- On any bytes `http_parse_headers` comes to an end: it returns 0, 400 or 501, or it reads
  -- beyond the bytes that were received.
  pub http_parse_headers-IsAnswer :
      (s : Bytes) (r : Request K)
      → IsAnswer (http_parse_headers new_keepalive_socket undefined s r).0
  unfolding http_parse_headers
  http_parse_headers-IsAnswer s r = elim (Look-cases (after (b'G' ∷ b'E' ∷ b'T' ∷ b' ' ∷ []) s)) [
    | inl (s1, e) ↦ rw (e, http_parse_headers) (parse_uri-IsAnswer s1 _)
    | inr (inr e) ↦ rw (e, http_parse_headers) tt
    | inr (inl e) ↦
        rw (e, http_parse_headers)
          (elim (Look-cases (after (b'P' ∷ b'O' ∷ b'S' ∷ b'T' ∷ b' ' ∷ []) s)) [
            | inl (s1, e1) ↦ rw (e1, http_parse_headers) (parse_uri-IsAnswer s1 _)
            | inr (inr e1) ↦ rw (e1, http_parse_headers) tt
            | inr (inl e1) ↦
                rw (e1, http_parse_headers)
                  (elim (Look-cases (after (b'H' ∷ b'E' ∷ b'A' ∷ b'D' ∷ b' ' ∷ []) s)) [
                    | inl (s1, e2) ↦ rw (e2, http_parse_headers) (parse_uri-IsAnswer s1 _)
                    | inr (inr e2) ↦ rw (e2, http_parse_headers) tt
                    | inr (inl e2) ↦ rw (e2, http_parse_headers) (inr (inr refl))
                  ])
          ])
  ]

  -- Where a request begins with `GET /` and has no space behind it, like the line of HTTP/0.9,
  -- the scan for the end of the URI reads beyond the bytes that were received.
  pub uri_reads_beyond :
      (s : Bytes) (r : Request K)
      → All (is_not b' ') s
      → (http_parse_headers new_keepalive_socket undefined
          (b'G' ∷ b'E' ∷ b'T' ∷ b' ' ∷ b'/' ∷ s)
          r).0
        ≡ reads_beyond
  unfolding http_parse_headers parse_uri after
  uri_reads_beyond s r h = rw (scan_to-missing b' ' s h)
