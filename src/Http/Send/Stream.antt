-- ===== src/Http/Send/Stream.antt =====
-- However the kernel cuts the response, its bytes are sent once and in order. (core_http.c,
-- core_server.c)
use open_tube_engine_old.Base.{
  ℕ, ◌+◌, ◌-◌, ◌≤◌, ◌<◌, ◌≡◌, refl, sym, ap, ◌∙◌, append_assoc, append-nil, true, false, List, [],
  ◌∷◌, ◌++◌, arith, ltb, length, take, u32_mod, length-append, take-append-drop, length-drop,
}
use open_tube_engine_old.Http.Chars.{Bytes}
use open_tube_engine_old.Http.Send.{
  Written, wrote, Response, bytes_of, http_append_to_output_buf, advance, or_else, http_send, waits,
  goes_on, events_out_vec,
}
use open_tube_engine_old.Http.Send.Advance.{advance_from_start, bytes_of-append}

-- `writev_total` is the number of bytes in the vector.
pub record IsReady (r : Response) : Type 0 where
  pub total : r.writev_total ≡ length (bytes_of r.out_vec)
  pub bounded : r.writev_total < u32_mod

-- Where `writev_total` is the length of all parts and the new part keeps it below 2^32,
-- `http_append_to_output_buf` keeps this so, and the new part comes behind the others.
pub http_append_to_output_buf-IsReady :
    (r : Response) (v : Bytes)
    → IsReady r
    → r.writev_total + length v < u32_mod
    → IsReady (http_append_to_output_buf r v)
      × (bytes_of (http_append_to_output_buf r v).out_vec ≡ bytes_of r.out_vec ++ v)
unfolding http_append_to_output_buf
http_append_to_output_buf-IsReady r v h lt = (
  record {
    total = omega (arith, h.total, ap length parts, length-append (bytes_of r.out_vec) v);
    bounded = lt;
  },
  parts,
)
  where
    parts : bytes_of (r.out_vec ++ v ∷ []) ≡ bytes_of r.out_vec ++ v
    parts = bytes_of-append r.out_vec (v ∷ []) ∙ ap (◌++◌ (bytes_of r.out_vec)) (append-nil v)

-- `whole` is sent up to a point; `temp_out_vec` holds the rest, `writev_total` its length.
pub record IsSending (whole : Bytes) (r : Response) : Type 0 where
  pub rest : r.sent ++ bytes_of r.temp_out_vec ≡ whole
  pub total : r.writev_total ≡ length (bytes_of r.temp_out_vec)
  pub bounded : r.writev_total < u32_mod

IsSending-advance :
    (old : Bytes) (vs temp : List Bytes) (n m : ℕ)
    → m ≡ length (bytes_of vs)
    → 0 < n
    → n ≤ length (bytes_of vs)
    → length (bytes_of vs) < u32_mod
    → IsSending (old ++ bytes_of vs) (record {
      out_vec = vs;
      temp_out_vec = or_else (advance 0 n vs) temp;
      writev_total = m - n;
      sent = old ++ take n (bytes_of vs);
    })
IsSending-advance old vs temp n m e pos le lt =
    let (ws, run, rest) = advance_from_start n vs pos le lt in
    rw run (record {
      rest =
          append_assoc old (take n (bytes_of vs)) (bytes_of ws)
          ∙ ap (λ t. old ++ (take n (bytes_of vs) ++ t)) rest
          ∙ ap (◌++◌ old) (take-append-drop n (bytes_of vs));
      total = omega (arith, ap length rest, length-drop n (bytes_of vs));
      bounded = omega arith;
    })

-- The first write: what the kernel did not take is left to be sent.
http_send-IsSending :
    (r : Response) (n : ℕ)
    → IsReady r
    → 0 < n
    → n < r.writev_total
    → ((http_send r (wrote n)).0 ≡ false)
      × IsSending (r.sent ++ bytes_of r.out_vec) (http_send r (wrote n)).1
      × ((http_send r (wrote n)).1.writev_total ≡ r.writev_total - n)
unfolding http_send
http_send-IsSending r n v pos lt =
    let more : ltb n r.writev_total ≡ true = ground arith in
    let some_bytes : ltb 0 n ≡ true = ground arith in
    rw (more, some_bytes)
      (
        refl,
        IsSending-advance r.sent r.out_vec r.temp_out_vec n r.writev_total v.total pos
            (omega (arith, v.total)) (omega (arith, v.total, v.bounded)),
        refl,
      )

events_out_vec-IsSending :
    (whole : Bytes) (r : Response) (n : ℕ)
    → IsSending whole r
    → 0 < n
    → n ≤ r.writev_total
    → let (o, r') = events_out_vec r (wrote n) in
      (o ≡ waits) × IsSending whole r' × (r'.writev_total ≡ r.writev_total - n)
unfolding events_out_vec
events_out_vec-IsSending whole r n v pos le =
    let more : ltb 0 r.writev_total ≡ true = ground arith in
    let step =
      IsSending-advance r.sent r.temp_out_vec r.temp_out_vec n r.writev_total v.total pos
        (omega (arith, v.total)) (omega (arith, v.total, v.bounded)) in
    rw more
      (refl, record { rest = step.rest ∙ v.rest; total = step.total; bounded = step.bounded }, refl)

-- The events after the first write, with what the kernel takes at each.
unfoldable pub events_out : Response → List ℕ → Response
events_out r [] = r
events_out r (n ∷ ns) = events_out (events_out_vec r (wrote n)).1 ns

abbrev pub sum : List ℕ → ℕ
sum [] = 0
sum (n ∷ ns) = n + sum ns

abbrev pub ArePositive : List ℕ → Type 0
ArePositive [] = Unit {0}
ArePositive (n ∷ ns) = (0 < n) × ArePositive ns

events_out-done :
    (whole : Bytes) (ns : List ℕ) (r : Response)
    → IsSending whole r
    → ArePositive ns
    → sum ns ≡ r.writev_total
    → ((events_out r ns).sent ≡ whole) × ((events_out r ns).writev_total ≡ 0)
unfolding events_out
events_out-done whole [] r v pos all =
    let none_left : length (bytes_of r.temp_out_vec) ≡ 0 = omega (arith, v.total) in
    (
      sym (append-nil r.sent)
          ∙ ap (◌++◌ r.sent) (sym (empty (bytes_of r.temp_out_vec) none_left))
          ∙ v.rest,
      sym all,
    )
  where
    empty : (xs : Bytes) → length xs ≡ 0 → xs ≡ []
    empty [] e = refl
    empty (x ∷ xs) e = absurd (omega arith)
events_out-done whole (n ∷ ns) r v pos all =
    let (waiting, v', left) = events_out_vec-IsSending whole r n v pos.0 (omega arith) in
    events_out-done whole ns (events_out_vec r (wrote n)).1 v' pos.1 (omega (arith, left))

-- Where the totals of the response are right and `http_send` gets part of it out, then however the
-- kernel cuts the rest into pieces, none of them empty, `http_send` and `events_out_data` send all
-- bytes once and in order, and the next event goes on to what follows the vector.
pub send_all :
    (r : Response) (n : ℕ) (ns : List ℕ)
    → IsReady r
    → 0 < n
    → n < r.writev_total
    → ArePositive ns
    → n + sum ns ≡ r.writev_total
    → let (d, r1) = http_send r (wrote n) in
      (d ≡ false)
      × ((events_out r1 ns).sent ≡ r.sent ++ bytes_of r.out_vec)
      × ((w : Written) → (events_out_vec (events_out r1 ns) w).0 ≡ goes_on)
unfolding events_out_vec
send_all r n ns v pos lt poss all =
    let (waiting, sending, rest) = http_send-IsSending r n v pos lt in
    let (sent, left) =
      events_out-done _ ns (http_send r (wrote n)).1 sending poss (omega (arith, rest)) in
    (waiting, sent, λ w. rw left)
