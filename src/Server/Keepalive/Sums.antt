-- ===== src/Server/Keepalive/Sums.antt =====
-- What the loops over the table of kept connections find. (core_server.c)
use open_tube_engine_old.Base.{
  ℕ, zero, suc, ◌+◌, ◌<◌, ◌≡◌, refl, false, not, ◌&&◌, List, [], ◌∷◌, Option, arith, ◌==◌, inl, inr,
  if◌then◌else◌, Bool-cases, length, u32_mod, add32,
}
use open_tube_engine_old.Http.Chars.{Bytes}
use open_tube_engine_old.Common.Allocator.{one_if}
use open_tube_engine_old.Common.FragPool.{Elem}
use open_tube_engine_old.Server.Sweep.Find.{sum, IsAt, IsAt-suc}
use open_tube_engine_old.Server.Keepalive.{
  KeepaliveSock, has_peer, is_peer, Scan, found, counted, scan, is_sock,
}

abbrev pub has_sock : ℕ → KeepaliveSock → ℕ
has_sock s k = one_if (k.sock == s)

module _ (getpeername : ℕ → Option Bytes) where
  abbrev pub connected : KeepaliveSock → ℕ
  connected k = one_if (has_peer getpeername k.sock)

  abbrev pub from : Bytes → KeepaliveSock → ℕ
  from addr k = one_if (is_peer getpeername addr k.sock)

  abbrev pub IsScan : ℕ → Bytes → ℕ → ℕ → ℕ → List (Elem KeepaliveSock) → Scan → Type 0
  IsScan s addr i percli total es (found k) = (j : ℕ) × (k ≡ i + j) × IsAt (is_sock s) es j
  IsScan s addr i percli total es (counted c t) =
      (sum (has_sock s) es ≡ 0) × (c ≡ percli + sum (from addr) es) × (t ≡ total + sum connected es)

  IsScan-suc :
      (s : ℕ) (addr : Bytes) (i percli total percli' total' : ℕ) (e : Elem KeepaliveSock)
      (es : List (Elem KeepaliveSock)) (r : Scan)
      → (not e.free && e.node.sock == s) ≡ false
      → percli' ≡ percli + sum (from addr) (e ∷ [])
      → total' ≡ total + sum connected (e ∷ [])
      → IsScan s addr (suc i) percli' total' es r
      → IsScan s addr i percli total (e ∷ es) r
  IsScan-suc s addr i percli total percli' total' e es (found k) other p t (j, at, h) =
      (suc j, omega arith, IsAt-suc (is_sock s) e es j h)
  IsScan-suc s addr i percli total percli' total' e es (counted c u) other p t (z, q, r) =
      (ground arith, omega arith, omega arith)

  pub scan-IsScan :
      (s : ℕ) (addr : Bytes) (n i percli total : ℕ) (es : List (Elem KeepaliveSock))
      → length es ≡ n
      → percli + n < u32_mod
      → total + n < u32_mod
      → IsScan s addr i percli total es (scan getpeername s addr n i percli total es)
  unfolding scan
  scan-IsScan s addr zero i percli total [] e p t = (refl, omega arith, omega arith)
  scan-IsScan s addr zero i percli total (x ∷ es) e p t = absurd (omega arith)
  scan-IsScan s addr (suc n) i percli total [] e p t = absurd (omega arith)
  scan-IsScan s addr (suc n) i percli total (x ∷ es) e p t =
      let mine = not x.free && is_peer getpeername addr x.node.sock in
      let any = not x.free && has_peer getpeername x.node.sock in
      let percli' = if mine then add32 percli 1 else percli in
      let total' = if any then add32 total 1 else total in
      let p' : percli' ≡ percli + sum (from addr) (x ∷ []) = ground arith in
      let t' : total' ≡ total + sum connected (x ∷ []) = ground arith in
      elim (Bool-cases (not x.free && x.node.sock == s)) [
        | inl here ↦ rw here (
          0,
          omega arith,
          record { elem = x; at = refl; used = ground arith; same = ground arith },
        )
        | inr other ↦ rw other (
            IsScan-suc s addr i percli total percli' total' x es _ other p' t' (
              scan-IsScan s addr n (suc i) percli' total' es (omega arith) (ground arith)
                (ground arith)))
      ]
