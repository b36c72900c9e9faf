-- ===== src/Server/Limits/Views.antt =====
-- The entry of one client in the table of `limit_requests`. (core_server.c)
use open_tube_engine_old.Base.{
  ℕ, zero, suc, ◌≤◌, ◌≡◌, refl, ap, Bool, true, false, not, ◌&&◌, List, [], ◌∷◌, Option, none, some,
  ◌==◌, arith, inl, inr, if◌then◌else◌, Bool-cases,
}
use open_tube_engine_old.Http.Chars.{Bytes}
use open_tube_engine_old.Http.Headers.{equal_bytes}
use open_tube_engine_old.Http.Headers.Scans.{equal_bytes-eq, equal_bytes_refl}
use open_tube_engine_old.Common.Allocator.{Allocator, one_if}
use open_tube_engine_old.Common.FragPool.{Elem, FragPool}
use open_tube_engine_old.Common.FragPool.Ownership.{IsFragPool}
use open_tube_engine_old.Server.Sweep.Find.{sum, IsAt, IsAt-sum}
use open_tube_engine_old.Server.Limits.{
  LimitReq, Config, Verdict, refuse, allow, forget, judge, first_request,
}

-- What a client's entry counts for, where it has one.
abbrev pub weight : (LimitReq → ℕ) → Option LimitReq → ℕ
weight f none = 0
weight f (some k) = f k

-- The verdict by itself: on a client with an entry, or none. True is a refusal.
abbrev pub ruled : Verdict → Bool × Option LimitReq
ruled (refuse k) = (true, some k)
ruled (allow k) = (false, some k)
ruled forget = (false, none)

abbrev pub request : Config → Bytes → ℕ → Option LimitReq → Bool × Option LimitReq
request config addr curtime none = (false, some (first_request addr curtime))
request config addr curtime (some k) = ruled (judge config curtime k)

-- The entry is the client's.
abbrev pub belongs_to : Bytes → LimitReq → Bool
belongs_to addr k = equal_bytes k.addr addr

-- The entry of the client in the pool.
abbrev pub client_of : Bytes → List (Elem LimitReq) → Option LimitReq
client_of addr [] = none
client_of addr (e ∷ es) =
    let rest = client_of addr es in
    if not e.free && belongs_to addr e.node then some e.node else rest

equal_req : LimitReq → LimitReq → Bool
equal_req k l =
    equal_bytes k.addr l.addr && k.time == l.time && k.dtime == l.dtime && k.req == l.req

equal_req-eq : (k l : LimitReq) → equal_req k l ≡ true → k ≡ l
unfolding equal_req
equal_req-eq k l h =
    let addr : k.addr ≡ l.addr = equal_bytes-eq k.addr l.addr (ground arith) in
    let time : k.time ≡ l.time = ground arith in
    let dtime : k.dtime ≡ l.dtime = ground arith in
    let req : k.req ≡ l.req = ground arith in
    λ i. record { addr = addr i; time = time i; dtime = dtime i; req = req i }

equal_req_refl : (k : LimitReq) → equal_req k k ≡ true
unfolding equal_req
equal_req_refl k = ground (arith, equal_bytes_refl k.addr)

-- Entries with the same weights are the same.
pub same_view : (x y : Option LimitReq) → ((f : LimitReq → ℕ) → weight f x ≡ weight f y) → x ≡ y
same_view none none h = refl
same_view none (some k) h = absurd (let e : 0 ≡ 1 = h (λ _. 1) in omega arith)
same_view (some k) none h = absurd (let e : 1 ≡ 0 = h (λ _. 1) in omega arith)
same_view (some k) (some l) h =
    ap some (equal_req-eq k l (ground (arith, h (λ u. one_if (equal_req u l)), equal_req_refl l)))

-- The sum over the entries of one client.
abbrev pub of_client : Bytes → (LimitReq → ℕ) → LimitReq → ℕ
of_client addr f k = if belongs_to addr k then f k else 0

no_client :
    (addr : Bytes) (f : LimitReq → ℕ) (es : List (Elem LimitReq))
    → sum (λ k. one_if (belongs_to addr k)) es ≡ 0
    → sum (of_client addr f) es ≡ 0
no_client addr f [] h = refl
no_client addr f (e ∷ es) h = ground (arith, no_client addr f es)

pub view-sum :
    (addr : Bytes) (f : LimitReq → ℕ) (es : List (Elem LimitReq))
    → sum (λ k. one_if (belongs_to addr k)) es ≤ 1
    → sum (of_client addr f) es ≡ weight f (client_of addr es)
view-sum addr f [] h = refl
view-sum addr f (e ∷ es) h = elim (Bool-cases (not e.free && belongs_to addr e.node)) [
  | inl here ↦ rw here (ground (arith, no_client addr f es))
  | inr other ↦ rw other (ground (arith, view-sum addr f es))
]

-- What the loop finds is the client's entry.
pub view-IsAt :
    (addr : Bytes) (es : List (Elem LimitReq)) (i : ℕ)
    → sum (λ k. one_if (belongs_to addr k)) es ≤ 1
    → (at : IsAt (belongs_to addr) es i) → client_of addr es ≡ some at.elem.node
view-IsAt addr [] i h at = absurd (let e : none ≡ some at.elem = at.at in cc)
view-IsAt addr (e ∷ es) zero h at =
    let found : some e ≡ some at.elem = at.at in
    let same : e ≡ at.elem = cc in
    let here : (not e.free && belongs_to addr e.node) ≡ true =
      rw same (ground (arith, at.used, at.same)) in
    rw here (ap (λ x. some x.node) same)
view-IsAt addr (e ∷ es) (suc i) h at =
    let rest : IsAt (belongs_to addr) es i = record {
      elem = at.elem;
      at = at.at;
      used = at.used;
      same = at.same;
    } in
    elim (Bool-cases (not e.free && belongs_to addr e.node)) [
      | inl here ↦ absurd (ground (arith, IsAt-sum (belongs_to addr) es i rest))
      | inr other ↦ rw other (view-IsAt addr es i (ground arith) rest)
    ]

pub view-none :
    (addr : Bytes) (es : List (Elem LimitReq))
    → sum (λ k. one_if (belongs_to addr k)) es ≡ 0
    → client_of addr es ≡ none
view-none addr [] h = refl
view-none addr (e ∷ es) h =
    let other : (not e.free && belongs_to addr e.node) ≡ false = ground arith in
    rw other (view-none addr es (ground arith))

-- The entries of a table with one entry for each client at most.
pub record IsLimitTable (a : Allocator) (base : ℕ → Bool) (p : FragPool LimitReq) (h : a.Heap)
    : Type 0 where
  pub pool : IsFragPool a base p h
  pub once : (addr : Bytes) → sum (λ k. one_if (belongs_to addr k)) p.elems ≤ 1

-- An entry is of this client, or there is none.
abbrev pub Belongs : Bytes → Option LimitReq → Type 0
Belongs addr none = Unit {0}
Belongs addr (some k) = k.addr ≡ addr

pub other_weight :
    (addr other : Bytes) (f : LimitReq → ℕ) (x : Option LimitReq)
    → Belongs addr x
    → equal_bytes addr other ≡ false
    → weight (of_client other f) x ≡ 0
other_weight addr other f none own no_match = refl
other_weight addr other f (some k) own no_match = rw (own, no_match) refl

pub own_weight :
    (addr : Bytes) (f : LimitReq → ℕ) (x : Option LimitReq)
    → Belongs addr x
    → weight (of_client addr f) x ≡ weight f x
own_weight addr f none own = refl
own_weight addr f (some k) own = rw (own, equal_bytes_refl addr) refl

pub weight_one-le :
    (f : LimitReq → ℕ) (x : Option LimitReq) → ((k : LimitReq) → f k ≤ 1) → weight f x ≤ 1
weight_one-le f none h = omega arith
weight_one-le f (some k) h = h k
