-- ===== src/Server/Keepalive/Closing.antt =====
-- Entries leave the table of kept connections: by the end of a connection, and by time.
-- (core_server.c)
use open_tube_engine_old.Base.{
  ℕ, ◌+◌, ◌-◌, ◌≤◌, ◌≡◌, refl, sym, ap, subst, Bool, not, ◌&&◌, ◌||◌, ltb, ◌==◌, [], ◌∷◌, List,
  Option, none, some, arith, inl, inr, if◌then◌else◌, Option-cases,
}
use open_tube_engine_old.Http.Chars.{Bytes}
use open_tube_engine_old.Common.Allocator.{Allocator, count}
use open_tube_engine_old.Common.FragPool.{Elem, FragPool, frag_pool_free_alt}
use open_tube_engine_old.Common.FragPool.Tail.{FragKeeps}
use open_tube_engine_old.Common.FragPool.Release.{frag_pool_free_alt-FragKeeps}
use open_tube_engine_old.Server.Keepalive.{
  KeepaliveSock, Limits, is_sock, remove_keepalive_socket, is_serving, expires,
  event_iter_keepalive,
}
use open_tube_engine_old.Server.Sweep.Sums.{total, tally_mono, Swept, sweep-Swept}
use open_tube_engine_old.Server.Sweep.Find.{sum, IsAt, find_entry-some, find_entry-none}
use open_tube_engine_old.Server.Sweep.{find_entry}
use open_tube_engine_old.Server.Keepalive.Sums.{has_sock, connected, from}
use open_tube_engine_old.Server.Keepalive.Table.{IsTable, same_sock}

module _ (getpeername : ℕ → Option Bytes) (config : Limits) (a : Allocator) (base : ℕ → Bool) where
  -- The socket has no entry any more, and the others are as they were.
  abbrev pub Removed :
      ℕ → List (Elem KeepaliveSock) → Option (FragPool KeepaliveSock × a.Heap) → Type 0
  Removed s es none = ⊥
  Removed s es (some (p', h')) =
      IsTable getpeername config a base p' h'
      × (sum (has_sock s) p'.elems ≡ 0)
      × ((f : KeepaliveSock → ℕ)
          → ((u : ℕ) → f (record { sock = s; time = u }) ≡ 0)
          → sum f p'.elems ≡ sum f es)

  Removed-from :
      (s i : ℕ) (es : List (Elem KeepaliveSock)) (r : Option (FragPool KeepaliveSock × a.Heap))
      (at : IsAt (is_sock s) es i)
      → ((s' : ℕ) → sum (has_sock s') es ≤ 1)
      → sum (connected getpeername) es ≤ config.keepalive_max_conn
      → ((addr : Bytes) → sum (from getpeername addr) es ≤ config.keepalive_max_conn_per_client)
      → ((f : KeepaliveSock → ℕ)
          → FragKeeps a base
              (λ _ u. f u)
              (sum f es - (if at.elem.free then 0 else f at.elem.node))
              r)
      → Removed s es r
  Removed-from s i es none at once all clients keeps = absurd (keeps (λ _. 0))
  Removed-from s i es (some (p', h')) at once all clients keeps =
      let gone : (f : KeepaliveSock → ℕ) → sum f p'.elems ≡ sum f es - f at.elem.node =
        λ f. ground (arith, (keeps f).1, at.used) in
      (
        record {
          pool = (keeps (λ _. 0)).0;
          once = λ s'. omega (arith, gone (has_sock s'), once s');
          all = omega (arith, gone (connected getpeername), all);
          clients = λ addr. omega (arith, gone (from getpeername addr), clients addr);
        },
        ground (arith, gone (has_sock s), once s, at.same),
        λ f z. omega (
          arith,
          gone f,
          z at.elem.node.time,
          ap (λ q. f (record { sock = q; time = at.elem.node.time })) (same_sock s es i at),
        ),
      )

  -- From a table within its limits `remove_keepalive_socket` takes the entry of the socket, where
  -- there is one. The entries of other sockets stay as they were, and the limits hold.
  pub remove_keepalive_socket-Removed :
      (s : ℕ) (p : FragPool KeepaliveSock) (h : a.Heap)
      → IsTable getpeername config a base p h
      → Removed s p.elems (remove_keepalive_socket a s p h)
  unfolding remove_keepalive_socket
  remove_keepalive_socket-Removed s p h v =
      elim (Option-cases (find_entry (is_sock s) p.real_len 0 p.elems)) [
        | inl missing ↦
            rw (missing, remove_keepalive_socket)
              (
                v,
                find_entry-none (is_sock s) p.real_len 0 p.elems missing (sym v.pool.size),
                λ f z. refl,
              )
        | inr (i, here) ↦
            let (j, same, at) = find_entry-some (is_sock s) p.real_len 0 i p.elems here in
            let e : i ≡ j = omega arith in
            rw (here, remove_keepalive_socket, e)
              (Removed-from s j p.elems (frag_pool_free_alt a p j h) at v.once v.all v.clients
                (λ f. frag_pool_free_alt-FragKeeps a base (λ _ u. f u) p j at.elem h v.pool at.at))
      ]

  -- What `event_iter` makes of the table: the entries that expire are those that come with it.
  abbrev pub Expired :
      (KeepaliveSock → Bool)
      → List (Elem KeepaliveSock)
      → Option (List KeepaliveSock × FragPool KeepaliveSock × a.Heap)
      → Type 0
  Expired leaves es none = ⊥
  Expired leaves es (some (gone, p', h')) =
      IsTable getpeername config a base p' h'
      × ((f : KeepaliveSock → ℕ)
          → (sum f p'.elems ≡ sum (λ k. if leaves k then 0 else f k) es)
            × (total f gone ≡ sum (λ k. if leaves k then f k else 0) es))

  Swept-Expired :
      (leaves : KeepaliveSock → Bool) (p : FragPool KeepaliveSock) (h : a.Heap)
      (r : Option (List KeepaliveSock × FragPool KeepaliveSock × a.Heap))
      → IsTable getpeername config a base p h
      → Swept a base leaves p.elems r
      → Expired leaves p.elems r
  Swept-Expired leaves p h none v swept = swept
  Swept-Expired leaves p h (some (gone, p', h')) v (ok, sums) =
      let less : (f : KeepaliveSock → ℕ) → sum f p'.elems ≤ sum f p.elems = λ f. omega (
        arith,
        (sums f).0,
        tally_mono (λ k. if leaves k then 0 else f k) f p.elems (λ u. ground arith),
      ) in
      (
        record {
          pool = ok;
          once = λ s. omega (arith, less (has_sock s), v.once s);
          all = omega (arith, less (connected getpeername), v.all);
          clients = λ addr. omega (arith, less (from getpeername addr), v.clients addr);
        },
        sums,
      )

  -- The time of the entry is further back than the timeout, or in the future, and no request
  -- serves the socket.
  abbrev pub is_over : List ℕ → ℕ → KeepaliveSock → Bool
  is_over serving curtime k =
      (ltb (k.time + config.keepalive_timeout_val) curtime || ltb curtime k.time)
      && count k.sock serving == 0

  is_serving-count :
      (serving : List ℕ) (k : KeepaliveSock)
      → is_serving serving k.sock ≡ not (count k.sock serving == 0)
  is_serving-count [] k = refl
  is_serving-count (s ∷ serving) k = ground (arith, is_serving-count serving k)

  expires-over :
      (serving : List ℕ) (curtime : ℕ) (k : KeepaliveSock)
      → expires config serving curtime k ≡ is_over serving curtime k
  expires-over serving curtime k = ground (arith, is_serving-count serving k)

  -- The pass of `event_iter` over a table within its limits closes the connections whose time is
  -- further back than the timeout, or in the future, and that no request serves: these and no
  -- others. The entries that stay are as they were, and the limits hold.
  pub event_iter_keepalive-Expired :
      (serving : List ℕ) (curtime : ℕ) (p : FragPool KeepaliveSock) (h : a.Heap)
      → IsTable getpeername config a base p h
      → Expired
          (is_over serving curtime)
          p.elems
          (event_iter_keepalive a config serving curtime p h)
  unfolding event_iter_keepalive
  event_iter_keepalive-Expired serving curtime p h v =
      subst (λ leaves. Expired leaves p.elems (event_iter_keepalive a config serving curtime p h))
        (λ i k. expires-over serving curtime k i)
        (Swept-Expired (expires config serving curtime) p h _ v
          (sweep-Swept a base (expires config serving curtime) p h v.pool))
