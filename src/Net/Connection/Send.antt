-- ===== src/Net/Connection/Send.antt =====
-- `send` appends to what a connection is to write.
use high_performance_concurr.Base.{
  ℕ, ◌+◌, ◌<◌, ◌≡◌, refl, ap, none, some, List, [], ◌∷◌, Bool, true, false, ok, ◌==◌, if◌then◌else◌,
}
use high_performance_concurr.Memory.Bytes.{Bytes, slice}
use high_performance_concurr.Memory.Store.{Mem, Grant, ◌>>=◌}
use high_performance_concurr.Memory.Pool.{m_up}
use high_performance_concurr.Memory.Pool.Invariant.{Inv, Ensures, Ensures-bind}
use high_performance_concurr.Memory.Buffer
use high_performance_concurr.Memory.Buffer.{Buffer, Ret, count, error, write2buf, int_limit}
use high_performance_concurr.Memory.Buffer.Room.{Owns, live, head_of, NoChunk}
use high_performance_concurr.Memory.Buffer.Append.{Grown, WritePost, write2buf-WritePost}
use high_performance_concurr.Net.Connection.{Connection, Effect, watches_output, after_append, send}
use high_performance_concurr.Net.Connection.Stream.{length-live}

-- What `send` leaves when it returns true, and when it returns false.
abbrev pub SendPost :
    Mem → (ℕ → Bool) → Connection → Bytes → ℕ → Connection × Bool × List Effect → Mem → Type 0
SendPost m held conn src len (conn', true, effects) m' =
    Grown m held conn.obuf (slice src 0 len) conn'.obuf m'
    × (conn' ≡ record conn { obuf = conn'.obuf })
    × (effects ≡ (if live m.heap conn.obuf == 0 then watches_output conn.fd ∷ [] else []))
SendPost m held conn src len (conn', false, effects) m' =
    (conn' ≡ conn) × (m' ≡ m) × (effects ≡ []) × (m_up < len + live m.heap conn.obuf)

module _ {m : Mem} {free : ℕ → List ℕ} {held : ℕ → Bool} (v : Inv m free held) where
  length-Owns : (b : Buffer) → Owns held b → Buffer.length b m ≡ ok (live m.heap b, m)
  unfolding Buffer.length
  length-Owns none owned = refl
  length-Owns (some a) owned = length-live a owned v

  after_append-SendPost :
      (X : Type 0) (conn : Connection) (src : Bytes) (len : ℕ) (r : Buffer × Ret) (m' : Mem)
      → WritePost m held conn.obuf src len r m'
      → Ensures X (SendPost m held conn src len) (after_append conn (live m.heap conn.obuf) r m')
  unfolding after_append
  after_append-SendPost X conn src len (b, error) m' (same, none_done, full) =
      (ap (λ (x : Buffer). record conn { obuf = x }) same, none_done, refl, full)
  after_append-SendPost X conn src len (b, count n) m' (zero_code, grown) =
      rw (after_append, zero_code) (grown, refl, refl)

  -- `send`, on an output buffer whose bytes begin at offset 0 and with a sum of sizes that fits an
  -- `int`, appends exactly its bytes to what the connection is to write, returns true, and asks the
  -- loop to watch for output exactly if there was nothing to write before; where the bytes pass the
  -- largest class it returns false and changes nothing. The pool stays in good order. It stops the
  -- program only where the pool is exhausted, and never faults.
  pub send-SendPost :
      (sys : ℕ → Grant) (src : Bytes) (len : ℕ) (conn : Connection)
      → Owns held conn.obuf
      → head_of m.heap conn.obuf ≡ 0
      → len + live m.heap conn.obuf < int_limit
      → Ensures
          (NoChunk sys m free (len + live m.heap conn.obuf))
          (SendPost m held conn src len)
          (send sys src len conn m)
  unfolding send
  send-SendPost sys src len conn owned front small =
      let X : Type 0 = NoChunk sys m free (len + live m.heap conn.obuf) in
      rw (send, length-Owns conn.obuf owned, ◌>>=◌)
        (Ensures-bind X (WritePost m held conn.obuf src len) (SendPost m held conn src len)
          (write2buf sys conn.obuf src len) (after_append conn (live m.heap conn.obuf)) m
          (write2buf-WritePost sys v conn.obuf src len owned front small)
          (after_append-SendPost X conn src len))
