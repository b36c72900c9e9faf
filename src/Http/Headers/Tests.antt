-- ===== src/Http/Headers/Tests.antt =====
-- Runs of `http_parse_headers`, and its theorems at concrete inputs. (core_http.c)
use open_tube_engine_old.Base.{ℕ, zero, suc, ◌≡◌, refl, Bool, true, false, [], ◌∷◌}
use open_tube_engine_old.Http.Chars.{Bytes, is_sym, to_lower}
use open_tube_engine_old.Http.Headers.{
  Header, Request, status, reads_beyond, add_header, asks_keepalive, http_parse_headers,
}
use open_tube_engine_old.Http.Headers.RoundTrip.{
  get, post, request_bytes, http_parse_headers-request_bytes,
}
use open_tube_engine_old.Http.Headers.Lines.{Line, IsLine, after_lines}
use open_tube_engine_old.Http.Headers.Scans.{is_key_byte, is_not, all-All}
use open_tube_engine_old.Http.Headers.Answers.{
  IsAnswer, http_parse_headers-IsAnswer, uri_reads_beyond,
}

-- A table of keep-alive sockets with room for one.
abbrev one_socket : ℕ → Bool × ℕ
one_socket zero = (true, 1)
one_socket (suc n) = (false, suc n)

abbrev empty_header : Header
empty_header = record { key = []; value = [] }

abbrev fresh : Request ℕ
fresh = record {
  method_get = false;
  method_post = false;
  method_head = false;
  uri = [];
  http_version = [];
  headers = [];
  keepalive = false;
  keepalive_sockets = 0;
}

-- `Connection: keep-alive`
abbrev keep_line : Line
keep_line = record {
  key = b'C' ∷ b'o' ∷ b'n' ∷ b'n' ∷ b'e' ∷ b'c' ∷ b't' ∷ b'i' ∷ b'o' ∷ b'n' ∷ [];
  spaces = 1;
  value = b'k' ∷ b'e' ∷ b'e' ∷ b'p' ∷ b'-' ∷ b'a' ∷ b'l' ∷ b'i' ∷ b'v' ∷ b'e' ∷ [];
}

-- `Host:a`
abbrev host_line : Line
host_line = record { key = b'H' ∷ b'o' ∷ b's' ∷ b't' ∷ []; spaces = 0; value = b'a' ∷ [] }

keep_line-IsLine : IsLine keep_line
unfolding is_sym
keep_line-IsLine = record {
  key = all-All is_key_byte keep_line.key refl;
  value = all-All (is_not b'\r') keep_line.value refl;
  plain = refl;
}

host_line-IsLine : IsLine host_line
unfolding is_sym
host_line-IsLine = record {
  key = all-All is_key_byte host_line.key refl;
  value = (refl, tt);
  plain = refl;
}

abbrev version : Bytes
version = b'1' ∷ b'.' ∷ b'1' ∷ []

-- `GET /v HTTP/1.1`, with both lines.
http_parse_headers-request_bytes_example :
    http_parse_headers one_socket empty_header
      (request_bytes get (b'v' ∷ []) version (keep_line ∷ host_line ∷ []) (b'\n' ∷ []))
      fresh
    ≡ (
      status 0,
      after_lines one_socket empty_header
          (record fresh { method_get = true; uri = b'/' ∷ b'v' ∷ []; http_version = version })
          (keep_line ∷ host_line ∷ []),
    )
http_parse_headers-request_bytes_example =
    http_parse_headers-request_bytes one_socket empty_header get (b'v' ∷ []) version
      (keep_line ∷ host_line ∷ []) (b'\n' ∷ []) fresh (refl, tt)
      (all-All (is_not b'\r') version refl) (keep_line-IsLine, (host_line-IsLine, tt))

-- The two headers make the connection a lasting one.
lines_keep_alive :
    after_lines one_socket empty_header fresh (keep_line ∷ host_line ∷ []) ≡ record fresh {
      headers =
          record {
            key = b'c' ∷ b'o' ∷ b'n' ∷ b'n' ∷ b'e' ∷ b'c' ∷ b't' ∷ b'i' ∷ b'o' ∷ b'n' ∷ [];
            value = keep_line.value;
          }
          ∷ record { key = b'h' ∷ b'o' ∷ b's' ∷ b't' ∷ []; value = b'a' ∷ [] }
          ∷ [];
      keepalive = true;
      keepalive_sockets = 1;
    }
unfolding add_header asks_keepalive to_lower
lines_keep_alive = refl

http_parse_headers-IsAnswer_example :
    IsAnswer
      (http_parse_headers one_socket empty_header
        (request_bytes post [] version (host_line ∷ []) [])
        fresh).0
http_parse_headers-IsAnswer_example =
    http_parse_headers-IsAnswer one_socket empty_header
      (request_bytes post [] version (host_line ∷ []) []) fresh

-- `GET /`, and the end of the line and of the headers
uri_reads_beyond_example :
    (http_parse_headers one_socket empty_header
      (b'G' ∷ b'E' ∷ b'T' ∷ b' ' ∷ b'/' ∷ b'\r' ∷ b'\n' ∷ 1 ∷ b'\n' ∷ [])
      fresh).0
    ≡ reads_beyond
uri_reads_beyond_example =
    uri_reads_beyond one_socket empty_header (b'\r' ∷ b'\n' ∷ 1 ∷ b'\n' ∷ []) fresh
      (all-All (is_not b' ') (b'\r' ∷ b'\n' ∷ 1 ∷ b'\n' ∷ []) refl)
