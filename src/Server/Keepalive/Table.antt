-- ===== src/Server/Keepalive/Table.antt =====
-- The limits on the table of kept connections hold after every call. (core_server.c)
use open_tube_engine_old.Base.{
  ℕ, ◌+◌, ◌≤◌, ◌<◌, ◌≡◌, refl, ap, Bool, true, false, ◌&&◌, ◌||◌, List, [], ◌∷◌, Option, none, some,
  arith, ◌==◌, ltb, leb, inl, inr, Bool-cases, Option-cases, u32_mod,
}
use open_tube_engine_old.Http.Chars.{Bytes}
use open_tube_engine_old.Http.Headers.{equal_bytes}
use open_tube_engine_old.Http.Headers.Scans.{equal_bytes-eq}
use open_tube_engine_old.Common.Allocator.{Allocator, one_if}
use open_tube_engine_old.Common.FragPool.{Elem, FragPool, frag_pool_alloc, write_node, set_node}
use open_tube_engine_old.Common.FragPool.Ownership.{
  IsFragPool, FragTakes, frag_pool_alloc-FragTakes,
}
use open_tube_engine_old.Common.FragPool.Writes.{tally-set_node, set_node-IsFragPool, write_new}
use open_tube_engine_old.Server.Keepalive.{
  KeepaliveSock, Limits, has_peer, is_peer, Scan, found, counted, scan, is_sock, add_keepalive,
  after_scan, new_keepalive_socket,
}
use open_tube_engine_old.Server.Sweep.Sums.{total}
use open_tube_engine_old.Server.Sweep.Find.{sum, node-le, IsAt, IsAt-sum}
use open_tube_engine_old.Server.Keepalive.Sums.{has_sock, connected, from, IsScan, scan-IsScan}

-- The entry of a socket with a time.
abbrev pub is_entry : ℕ → ℕ → KeepaliveSock → ℕ
is_entry s t k = one_if (k.sock == s && k.time == t)

pub same_sock :
    (s : ℕ) (es : List (Elem KeepaliveSock)) (i : ℕ) (at : IsAt (is_sock s) es i)
    → at.elem.node.sock ≡ s
same_sock s es i at = ground (arith, at.same)

is_entry-le :
    (s t : ℕ) (es : List (Elem KeepaliveSock)) → sum (is_entry s t) es ≤ sum (has_sock s) es
is_entry-le s t [] = omega arith
is_entry-le s t (e ∷ es) = ground (arith, is_entry-le s t es)

module _ (getpeername : ℕ → Option Bytes) (config : Limits) where
  -- No socket is in the table twice, and neither all connections nor those of one client are more
  -- than their limit.
  pub record IsTable (a : Allocator) (base : ℕ → Bool) (p : FragPool KeepaliveSock) (h : a.Heap)
      : Type 0 where
    pub pool : IsFragPool a base p h
    pub once : (s : ℕ) → sum (has_sock s) p.elems ≤ 1
    pub all : sum (connected getpeername) p.elems ≤ config.keepalive_max_conn
    pub clients :
        (addr : Bytes) → sum (from getpeername addr) p.elems ≤ config.keepalive_max_conn_per_client

  -- A socket is kept where its peer is known, and it is in the table or there is room for it.
  abbrev pub accepts : ℕ → List (Elem KeepaliveSock) → Bool
  accepts s es = elim (getpeername s) [
    | none ↦ false
    | some addr ↦
        ltb 0 (sum (has_sock s) es)
        || ltb (sum (from getpeername addr) es) config.keepalive_max_conn_per_client
          && ltb (sum (connected getpeername) es) config.keepalive_max_conn
  ]

  module _ (a : Allocator) (base : ℕ → Bool) where
    -- What a call for the socket `s` at the time `t` makes of the table `es`.
    abbrev pub Decided :
        ℕ
        → ℕ
        → List (Elem KeepaliveSock)
        → Bool
        → Option (Bool × FragPool KeepaliveSock × a.Heap)
        → Type 0
    Decided s t es ok none = ⊥
    Decided s t es ok (some (kept, p', h')) =
        IsTable a base p' h'
        × (kept ≡ ok)
        × ((f : KeepaliveSock → ℕ)
            → ((u : ℕ) → f (record { sock = s; time = u }) ≡ 0)
            → sum f p'.elems ≡ sum f es)
        × (kept ≡ true → sum (is_entry s t) p'.elems ≡ 1)
        × (kept ≡ false → p'.elems ≡ es)

    refused :
        (s t : ℕ) (p : FragPool KeepaliveSock) (h : a.Heap)
        → IsTable a base p h
        → Decided s t p.elems false (some (false, p, h))
    refused s t p h v =
        (v, refl, λ f z. refl, λ e. absurd (let e' : false ≡ true = e in ground arith), λ e. refl)

    -- The entry of the socket gets the time.
    refreshed :
        (s t i : ℕ) (p : FragPool KeepaliveSock) (h : a.Heap)
        → IsTable a base p h
        → IsAt (is_sock s) p.elems i
        → Decided s t p.elems true (
            some (true, record p { elems = set_node p.elems i (record { sock = s; time = t }) }, h))
    refreshed s t i p h v at =
        let k : KeepaliveSock = record { sock = s; time = t } in
        let sums : (f : KeepaliveSock → ℕ)
            → sum f (set_node p.elems i k) + f at.elem.node ≡ f k + sum f p.elems =
          λ f. tally-set_node (λ _ u. f u) p.elems i at.elem k at.at at.used in
        let by_sock : (f : ℕ → ℕ)
            → sum (λ x. f x.sock) (set_node p.elems i k) ≡ sum (λ x. f x.sock) p.elems =
          λ f. omega (arith, sums (λ x. f x.sock), ap f (same_sock s p.elems i at)) in
        let once : (s' : ℕ) → sum (has_sock s') (set_node p.elems i k) ≤ 1 =
          λ s'. omega (arith, by_sock (λ x. one_if (x == s')), v.once s') in
        (
          record {
            pool = set_node-IsFragPool a base p h i k v.pool;
            once = once;
            all = omega (arith, by_sock (λ x. one_if (has_peer getpeername x)), v.all);
            clients = λ addr.
                omega (arith, by_sock (λ x. one_if (is_peer getpeername addr x)), v.clients addr);
          },
          refl,
          λ f z. omega (
            arith,
            sums f,
            z t,
            z at.elem.node.time,
            ap (λ q. f (record { sock = q; time = at.elem.node.time })) (same_sock s p.elems i at),
          ),
          λ _.
              let found_again : is_entry s t k ≡ 1 = ground arith in
              omega (
                arith,
                sums (is_entry s t),
                found_again,
                node-le (is_entry s t) p.elems i at.elem at.at at.used,
                is_entry-le s t (set_node p.elems i k),
                once s,
              ),
          λ e. absurd (let e' : true ≡ false = e in ground arith),
        )

    added_from :
        (s t : ℕ) (addr : Bytes) (es : List (Elem KeepaliveSock))
        (r : Option (ℕ × FragPool KeepaliveSock × a.Heap))
        → getpeername s ≡ some addr
        → sum (has_sock s) es ≡ 0
        → ((s' : ℕ) → sum (has_sock s') es ≤ 1)
        → sum (connected getpeername) es < config.keepalive_max_conn
        → sum (from getpeername addr) es < config.keepalive_max_conn_per_client
        → ((addr' : Bytes) → sum (from getpeername addr') es ≤ config.keepalive_max_conn_per_client)
        → FragTakes a base es r
        → Decided s t es true (elim r [
          | none ↦ none
          | some (x, p', h') ↦ some (
            true,
            record p' { elems = write_node x (record { sock = s; time = t }) p'.elems },
            h',
          )
        ])
    added_from s t addr es none peer fresh once free room clients got = absurd got
    added_from s t addr es (some (x, p', h')) peer fresh once free room clients got =
        let k : KeepaliveSock = record { sock = s; time = t } in
        let new : (f : KeepaliveSock → ℕ) → sum f (write_node x k p'.elems) ≡ f k + sum f es =
          λ f. (write_new a base es x p' h' k f got).1 in
        (
          record {
            pool = (write_new a base es x p' h' k (λ _. 0) got).0;
            once = λ s'. ground (arith, new (has_sock s'), once s', fresh);
            all = ground (arith, new (connected getpeername), free);
            clients = λ addr'. elim (Bool-cases (equal_bytes addr' addr)) [
              | inl same ↦
                  let e : addr' ≡ addr = equal_bytes-eq addr' addr same in
                  let one : from getpeername addr k ≤ 1 = ground arith in
                  rw e (omega (arith, new (from getpeername addr), room, one))
              | inr other ↦
                  let zero_new : from getpeername addr' k ≡ 0 =
                    rw (from, is_peer, peer, other) refl in
                  omega (arith, new (from getpeername addr'), clients addr', zero_new)
            ];
          },
          refl,
          λ f z. omega (arith, new f, z t),
          λ _. ground (arith, new (is_entry s t), is_entry-le s t es, fresh),
          λ e. absurd (let e' : true ≡ false = e in ground arith),
        )

    added :
        (undefined : KeepaliveSock) (s t : ℕ) (addr : Bytes) (p : FragPool KeepaliveSock)
        (h : a.Heap)
        → IsTable a base p h
        → p.real_len + 1 < u32_mod
        → getpeername s ≡ some addr
        → sum (has_sock s) p.elems ≡ 0
        → sum (connected getpeername) p.elems < config.keepalive_max_conn
        → sum (from getpeername addr) p.elems < config.keepalive_max_conn_per_client
        → Decided s t p.elems true (add_keepalive getpeername a undefined config s t p h)
    unfolding add_keepalive
    added undefined s t addr p h v lt peer fresh free room =
        added_from s t addr p.elems (frag_pool_alloc a undefined p h) peer fresh v.once free room
          v.clients (frag_pool_alloc-FragTakes a base undefined p h v.pool lt)

    after_scan-Decided :
        (undefined : KeepaliveSock) (s t : ℕ) (addr : Bytes) (p : FragPool KeepaliveSock)
        (h : a.Heap) (r : Scan)
        → IsTable a base p h
        → p.real_len + 1 < u32_mod
        → getpeername s ≡ some addr
        → IsScan getpeername s addr 0 0 0 p.elems r
        → Decided s t p.elems
            (accepts s p.elems)
            (after_scan getpeername a undefined config r s t p h)
    unfolding after_scan
    after_scan-Decided undefined s t addr p h (found i) v lt peer (j, at, here) =
        let ok : accepts s p.elems ≡ true =
          rw (peer, accepts) (ground (arith, IsAt-sum (is_sock s) p.elems j here)) in
        let same : i ≡ j = omega arith in rw (ok, same) (refreshed s t j p h v here)
    after_scan-Decided undefined s t addr p h (counted c u) v lt peer (fresh, percli, total) =
        elim (Bool-cases (leb config.keepalive_max_conn_per_client c)) [
          | inl full ↦
              let ok : accepts s p.elems ≡ false = rw (peer, accepts) (ground arith) in
              rw (full, ok) (refused s t p h v)
          | inr room ↦ elim (Bool-cases (leb config.keepalive_max_conn u)) [
            | inl full ↦
                let ok : accepts s p.elems ≡ false = rw (peer, accepts) (ground arith) in
                rw (room, full, ok) (refused s t p h v)
            | inr free ↦
                let ok : accepts s p.elems ≡ true = rw (peer, accepts) (ground arith) in
                rw (room, free, ok)
                  (added undefined s t addr p h v lt peer fresh (ground arith) (ground arith))
          ]
        ]

    -- On a table within its limits, with room for one more element in the pool's counter, the call
    -- returns a table within its limits. It keeps the connection exactly where its peer is known and
    -- it is in the table or neither limit is reached; then it has one entry, with the current time,
    -- and else the table stays as it was. The entries of other sockets stay as they were.
    pub new_keepalive_socket-Decided :
        (undefined : KeepaliveSock) (s t : ℕ) (p : FragPool KeepaliveSock) (h : a.Heap)
        → IsTable a base p h
        → p.real_len + 1 < u32_mod
        → Decided s t p.elems
            (accepts s p.elems)
            (new_keepalive_socket getpeername a undefined config s t p h)
    unfolding new_keepalive_socket
    new_keepalive_socket-Decided undefined s t p h v lt = elim (Option-cases (getpeername s)) [
      | inl unknown ↦
          let ok : accepts s p.elems ≡ false = rw (unknown, accepts) refl in
          rw (unknown, new_keepalive_socket, ok) (refused s t p h v)
      | inr (addr, peer) ↦
          rw (peer, new_keepalive_socket)
            (after_scan-Decided undefined s t addr p h
              (scan getpeername s addr p.real_len 0 0 0 p.elems) v lt peer
              (scan-IsScan getpeername s addr p.real_len 0 0 0 p.elems v.pool.size (omega arith)
                (omega arith)))
    ]
