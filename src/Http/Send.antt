-- ===== src/Http/Send.antt =====
-- Sending a response: the output vector, `http_send` and the part of `events_out_data` that goes on
-- where it stopped. (core_http.c, core_server.c)
pub mod Advance
pub mod Stream
pub mod Stale
use open_tube_engine_old.Base.{
  ℕ, zero, suc, ◌+◌, ◌-◌, Bool, true, false, List, [], ◌∷◌, ◌++◌, Option, none, some, leb, ltb,
  ◌==◌, if◌then◌else◌, length, take, drop, add32, sub32,
}
use open_tube_engine_old.Http.Chars.{Bytes}

-- What `writev` answers: a count of bytes, `EAGAIN`, or another error.
pub data Written : Type 0 where
  wrote : ℕ → Written
  would_block : Written
  failed : Written

-- A part of the vector (`struct iovec`) is the bytes that it points to. `sent` is no field of the
-- program: it records the bytes that the kernel took.
pub record Response : Type 0 where
  pub out_vec : List Bytes
  pub temp_out_vec : List Bytes
  pub writev_total : ℕ
  pub sent : Bytes

abbrev pub bytes_of : List Bytes → Bytes
bytes_of [] = []
bytes_of (v ∷ vs) = v ++ bytes_of vs

unfoldable pub http_append_to_output_buf : Response → Bytes → Response
http_append_to_output_buf r v = record r {
  out_vec = r.out_vec ++ v ∷ [];
  writev_total = r.writev_total + length v;
}

-- The loop that finds the part where `res` bytes end, and leaves what stands behind them. `size`
-- is a `uint`. If no part reaches so far, the loop ends without a `break`.
unfoldable pub advance : ℕ → ℕ → List Bytes → Option (List Bytes)
advance size res [] = none
advance size res (v ∷ vs) =
    let size' = add32 size (length v) in
    let rest = advance size' res vs in
    if leb res size' then some (drop (length v - (size' - res)) v ∷ vs) else rest

-- `temp.out_vec` after the loop: as before, if it ended without a `break`.
abbrev pub or_else : Option (List Bytes) → List Bytes → List Bytes
or_else none old = old
or_else (some vs) old = vs

-- `res > 0` bytes were taken, and more are left.
abbrev pub http_send_part : Response → ℕ → Response
http_send_part r n = record r {
  sent = r.sent ++ take n (bytes_of r.out_vec);
  writev_total = r.writev_total - n;
  temp_out_vec = or_else (advance 0 n r.out_vec) r.temp_out_vec;
}

-- `true` where the request is done with; `false` where the socket is awaited.
unfoldable pub http_send : Response → Written → Bool × Response
http_send r failed = (true, r)
http_send r would_block = (false, r)
http_send r (wrote n) =
    if ltb n r.writev_total
    then (false, if ltb 0 n then http_send_part r n else r)
    else (true, record r { writev_total = 0; sent = r.sent ++ take n (bytes_of r.out_vec) })

-- What `events_out_data` does next: wait again, drop the request, or go on to the file and the end.
pub data Outcome : Type 0 where
  waits dropped goes_on : Outcome

-- `events_out_data` on the vector. `EAGAIN` is not told from other errors.
unfoldable pub events_out_vec : Response → Written → Outcome × Response
events_out_vec r w =
    if ltb 0 r.writev_total
    then (elim w [
      | wrote n ↦ (
        waits,
        record r {
          sent = r.sent ++ take n (bytes_of r.temp_out_vec);
          writev_total = r.writev_total - n;
          temp_out_vec = or_else (advance 0 n r.temp_out_vec) r.temp_out_vec;
        },
      )
      | would_block ↦ (dropped, r)
      | failed ↦ (dropped, r)
    ])
    else (goes_on, r)
