-- ===== src/Net/Connection/Read.antt =====
-- `do_read`: what comes in is handed to the message callback, or the connection is closed.
use high_performance_concurr.Memory.Pool.{m_up}
use high_performance_concurr.Base.{
  ap, ==_iff, ℕ, ◌+◌, ◌<◌, ◌≡◌, ◌≢◌, refl, Bool, none, some, List, [], ◌∷◌, ◌++◌, arith, ◌⊎◌, inl,
  inr, Bool-cases, ◌==◌, if◌then◌else◌,
}
use high_performance_concurr.Memory.Bytes.{Bytes, slice}
use high_performance_concurr.Memory.Store.{Mem, Grant}
use high_performance_concurr.Memory.Pool.Invariant.{Inv, Ensures, Ensures-bind}
use high_performance_concurr.Memory.Buffer.{
  Buffer, Ret, count, error, Io, done, read_from_fd, int_limit,
}
use high_performance_concurr.Memory.Buffer.Room.{Owns, live, head_of, NoChunk}
use high_performance_concurr.Memory.Buffer.Append.{
  Grown, Reads, IsError, ReadPost, read_from_fd-ReadPost,
}
use high_performance_concurr.Net.Connection.{
  Connection, Effect, runs_message_cb, runs_close_cb, unwatches, closes, cleans, do_close,
  after_read, do_read,
}
use high_performance_concurr.Net.Connection.Close.{Apart, do_close-Closed}

-- A connection that has been closed: no descriptor, no buffers.
abbrev pub shut : Connection → Connection
shut conn = record conn { fd = none; ibuf = none; obuf = none }

abbrev pub close_effects : Connection → List Effect
close_effects conn =
    (if conn.has_close_cb then runs_close_cb ∷ [] else [])
    ++ (unwatches conn.fd ∷ closes conn.fd ∷ cleans ∷ [])

-- Some bytes came in: they stand behind those that were there, and the callback runs once.
pub record Received (m : Mem) (held : ℕ → Bool) (conn : Connection) (src : Bytes) (io : Io)
    (conn' : Connection) (effects : List Effect) (m' : Mem) : Type 0 where
  pub n : ℕ
  pub some_bytes : n ≢ 0
  pub answer : io ≡ done n
  pub grown : Grown m held conn.ibuf (slice src 0 n) conn'.ibuf m'
  pub rest_same : conn' ≡ record conn { ibuf = conn'.ibuf }
  pub effect : effects ≡ runs_message_cb ∷ []

-- It was closed, with the pool in good order.
pub record Shut (conn conn' : Connection) (effects : List Effect) (m' : Mem) : Type 0 where
  pub free' : ℕ → List ℕ
  pub held' : ℕ → Bool
  pub inv : Inv m' free' held'
  pub is_shut : conn' ≡ shut conn
  pub effect : effects ≡ close_effects conn

-- Why it was closed: `need` more bytes than the `n` that there are pass the largest class, the stream
-- has ended, or `read` failed.
abbrev pub Ends : ℕ → ℕ → Io → Type 0
Ends need n io = (m_up < need + n) ⊎ (io ≡ done 0) ⊎ IsError io

abbrev pub DonePost :
    Mem → (ℕ → Bool) → Connection → ℕ → Bytes → Io → Connection × List Effect → Mem → Type 0
DonePost m held conn need src io r m' =
    Received m held conn src io r.0 r.1 m'
    ⊎ (Shut conn r.0 r.1 m' × Ends need (live m.heap conn.ibuf) io)

module _ (X : Type 0) (m : Mem) (held : ℕ → Bool) (conn : Connection) (need : ℕ) (src : Bytes)
    (io : Io) where
  do_close-DonePost :
      {m' : Mem} {free' : ℕ → List ℕ} {held' : ℕ → Bool} (b : Buffer)
      → Ends need (live m.heap conn.ibuf) io
      → Inv m' free' held'
      → Owns held' b
      → Owns held' conn.obuf
      → Apart conn.obuf b
      → Ensures X (DonePost m held conn need src io) (do_close (record conn { ibuf = b }) m')
  do_close-DonePost b why v owns_i owns_o apart =
      let c = do_close-Closed v (record conn { ibuf = b }) owns_i owns_o apart in
      rw c.result (
        inr (
          record { free' = c.free'; held' = c.held'; inv = c.inv; is_shut = refl; effect = refl },
          why,
        ))

  -- The output buffer is still the connection's, and another chunk than the input buffer.
  pub still_other :
      {xs : List ℕ} {b : Buffer} {m' : Mem} (g : Grown m held conn.ibuf xs b m') (o : Buffer)
      → Owns held o
      → Apart o conn.ibuf
      → Owns g.held' o × Apart o b
  still_other g none owns apart = (tt, tt)
  still_other g (some a) owns apart = let (kept, _, other) = g.others a owns apart in (kept, other)

  after_read-DonePost :
      {free : ℕ → List ℕ}
      → Inv m free held
      → Owns held conn.ibuf
      → Owns held conn.obuf
      → Apart conn.obuf conn.ibuf
      → (r : Buffer × Ret) (m' : Mem) → ReadPost m held conn.ibuf need src io r m'
      → Ensures X (DonePost m held conn need src io) (after_read conn r m')
  unfolding after_read
  after_read-DonePost v owns_i owns_o apart (b, error) m' (inl (same, same_m, full)) =
      rw (same, same_m) (do_close-DonePost conn.ibuf (inl full) v owns_i owns_o apart)
  after_read-DonePost v owns_i owns_o apart (b, error) m' (inr (g, failure)) =
      let (owns, other) = still_other g conn.obuf owns_o apart in
      do_close-DonePost b (inr (inr failure)) g.inv g.owns owns other
  after_read-DonePost v owns_i owns_o apart (b, count n) m' (e, g) =
      let (owns, other) = still_other g conn.obuf owns_o apart in
      elim (Bool-cases (n == 0)) [
        | inl ended ↦ rw ended (
            do_close-DonePost b (inr (inl (rw e (ap done ((==_iff _ _).0 ended))))) g.inv g.owns
              owns other)
        | inr more ↦ rw more (
            inl (record {
              n = n;
              some_bytes = ground (arith, more);
              answer = e;
              grown = g;
              rest_same = refl;
              effect = refl;
            }))
      ]

-- `do_read`, on a connection whose two buffers are different chunks or null and whose input begins at
-- offset 0, where FIONREAD announces `need` bytes, `need` and what is held fit an `int`, and the
-- kernel then hands over those or ends the stream. Either bytes came in, which stand behind those
-- that were there, and the message callback runs once; or the connection is closed, both of its
-- buffers are null, and the bytes pass the largest class, the stream has ended, or `read` failed. The
-- pool stays in good order. The program stops only where the pool is exhausted,
-- and never faults.
pub do_read-DonePost :
    (sys : ℕ → Grant) (m : Mem) (free : ℕ → List ℕ) (held : ℕ → Bool) (need : ℕ) (src : Bytes)
    (io : Io) (conn : Connection)
    → Inv m free held
    → Owns held conn.ibuf
    → Owns held conn.obuf
    → Apart conn.obuf conn.ibuf
    → head_of m.heap conn.ibuf ≡ 0
    → need + live m.heap conn.ibuf < int_limit
    → Reads need io
    → Ensures
        (NoChunk sys m free (need + live m.heap conn.ibuf))
        (DonePost m held conn need src io)
        (do_read sys (some need) src io conn m)
unfolding do_read
do_read-DonePost sys m free held need src io conn v owns_i owns_o apart front small all =
    let X : Type 0 = NoChunk sys m free (need + live m.heap conn.ibuf) in
    Ensures-bind X (ReadPost m held conn.ibuf need src io) (DonePost m held conn need src io)
      (read_from_fd sys conn.ibuf (some need) src io) (after_read conn) m
      (read_from_fd-ReadPost sys v conn.ibuf need src io owns_i front small all)
      (after_read-DonePost X m held conn need src io v owns_i owns_o apart)
