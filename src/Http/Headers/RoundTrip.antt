-- ===== src/Http/Headers/RoundTrip.antt =====
-- `http_parse_headers` on requests of the right form. (core_http.c)
use open_tube_engine_old.Base.{
  suc, ◌≡◌, refl, ap, ◌∙◌, Bool, true, List, [], ◌∷◌, ◌++◌, arith, length,
}
use open_tube_engine_old.Http.Chars.{Bytes}
use open_tube_engine_old.Http.Headers.{
  after, Header, Request, status, parse_version, parse_uri, http_parse_headers,
}
use open_tube_engine_old.Http.Headers.Scans.{All, after-append, is_not, scan_to-append}
use open_tube_engine_old.Http.Headers.Lines.{
  Line, AreLines, lines_bytes, add_lines, after_lines, add_lines-after_lines, header_lines-lines,
}

pub data Method : Type 0 where
  get post head : Method

abbrev pub method_bytes : Method → Bytes
method_bytes get = b'G' ∷ b'E' ∷ b'T' ∷ b' ' ∷ []
method_bytes post = b'P' ∷ b'O' ∷ b'S' ∷ b'T' ∷ b' ' ∷ []
method_bytes head = b'H' ∷ b'E' ∷ b'A' ∷ b'D' ∷ b' ' ∷ []

abbrev pub with_method : {K : Type 0} → Method → Request K → Request K
with_method get r = record r { method_get = true }
with_method post r = record r { method_post = true }
with_method head r = record r { method_head = true }

abbrev pub http : Bytes
http = b'H' ∷ b'T' ∷ b'T' ∷ b'P' ∷ b'/' ∷ []

-- The URI is a slash and `path`; the byte 1 ends the lines, and `s` stands behind it.
abbrev pub request_bytes : Method → Bytes → Bytes → List Line → Bytes → Bytes
request_bytes m path version ls s =
    method_bytes m
    ++ (b'/' ∷ path ++ b' ' ∷ (http ++ (version ++ b'\r' ∷ b'\n' ∷ lines_bytes ls s)))

module _ {K : Type 0} (new_keepalive_socket : K → Bool × K) (undefined : Header) where
  parse_version-request :
      (version : Bytes) (ls : List Line) (s : Bytes) (r : Request K)
      → All (is_not b'\r') version
      → AreLines ls
      → parse_version new_keepalive_socket undefined
          (http ++ (version ++ b'\r' ∷ b'\n' ∷ lines_bytes ls s))
          r
        ≡ (
          status 0,
          add_lines new_keepalive_socket undefined (record r { http_version = version }) ls,
        )
  unfolding parse_version
  parse_version-request version ls s r v h =
      rw
        (
          after-append http (version ++ b'\r' ∷ b'\n' ∷ lines_bytes ls s),
          parse_version,
          scan_to-append b'\r' version (b'\n' ∷ lines_bytes ls s) v,
        )
        (header_lines-lines new_keepalive_socket undefined (suc (length (lines_bytes ls s))) ls s
          (record r { http_version = version }) h (omega arith))

  parse_uri-request :
      (path version : Bytes) (ls : List Line) (s : Bytes) (r : Request K)
      → All (is_not b' ') path
      → All (is_not b'\r') version
      → AreLines ls
      → parse_uri new_keepalive_socket undefined
          (b'/' ∷ path ++ b' ' ∷ (http ++ (version ++ b'\r' ∷ b'\n' ∷ lines_bytes ls s)))
          r
        ≡ (
          status 0,
          add_lines new_keepalive_socket undefined
              (record r { uri = b'/' ∷ path; http_version = version })
              ls,
        )
  unfolding parse_uri
  parse_uri-request path version ls s r p v h =
      let tail = http ++ (version ++ b'\r' ∷ b'\n' ∷ lines_bytes ls s) in
      rw (scan_to-append b' ' (b'/' ∷ path) tail (refl, p))
        (parse_version-request version ls s (record r { uri = b'/' ∷ path }) v h)

  -- A request of the right form, with any of the three methods, a URI without a space, a version
  -- without a carriage return, and lines whose keys are symbols other than a colon and whose
  -- values have no carriage return and begin with no space, is read back with status 0: the method
  -- is marked, the URI and the version are kept, and the headers are those there were and one for
  -- each line in order, with its key in lower case and its value without the spaces before it. The
  -- connection is entered as a lasting one, and marked by the answer, at each line whose key is
  -- `connection` and whose value has a k first and an e as its tenth byte, but for the case, and at
  -- no other. Everything else is as it was.
  pub http_parse_headers-request_bytes :
      (m : Method) (path version : Bytes) (ls : List Line) (s : Bytes) (r : Request K)
      → All (is_not b' ') path
      → All (is_not b'\r') version
      → AreLines ls
      → http_parse_headers new_keepalive_socket undefined (request_bytes m path version ls s) r ≡ (
        status 0,
        after_lines new_keepalive_socket undefined
            (record (with_method m r) { uri = b'/' ∷ path; http_version = version })
            ls,
      )
  unfolding http_parse_headers after
  http_parse_headers-request_bytes get path version ls s r p v h =
      parse_uri-request path version ls s (with_method get r) p v h
      ∙ ap (λ r'. (status 0, r')) (add_lines-after_lines new_keepalive_socket undefined _ ls)
  http_parse_headers-request_bytes post path version ls s r p v h =
      parse_uri-request path version ls s (with_method post r) p v h
      ∙ ap (λ r'. (status 0, r')) (add_lines-after_lines new_keepalive_socket undefined _ ls)
  http_parse_headers-request_bytes head path version ls s r p v h =
      parse_uri-request path version ls s (with_method head r) p v h
      ∙ ap (λ r'. (status 0, r')) (add_lines-after_lines new_keepalive_socket undefined _ ls)
