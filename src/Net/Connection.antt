-- ===== src/Net/Connection.antt =====
-- net/tcp_conn.cpp, net/tcp_conn.h: `TcpConnection`, over the buffers of memory/. What a method does
-- to its loop, its server and its callbacks is a list of effects, in order. The timer of a connection
-- is in Net/Server.
pub mod Answers
pub mod Stream
pub mod Write
pub mod Send
pub mod Close
pub mod History
pub mod Read
pub mod Stepwise
pub mod Setup
use high_performance_concurr.Base.{
  ℕ, Bool, true, false, Option, none, some, List, [], ◌∷◌, ◌++◌, ◌==◌, if◌then◌else◌,
}
use high_performance_concurr.Memory.Bytes.{Bytes}
use high_performance_concurr.Memory.Store.{Grant, M, pure, ◌>>=◌, ◌>>◌}
use high_performance_concurr.Memory.Buffer
use high_performance_concurr.Memory.Buffer.{
  Buffer, Ret, count, error, Io, write2buf, read_from_fd, write2fd,
}

-- `tc_fd` is none for -1; `has_close_cb` says whether `tc_close_cb` is set, and so `has_connected_cb`.
pub record Connection : Type 0 where
  pub fd : Option ℕ
  pub ibuf : Buffer
  pub obuf : Buffer
  pub has_close_cb : Bool
  pub has_connected_cb : Bool

pub data Effect : Type 0 where
  queues_connected : Effect
  runs_connected_cb : Effect
  watches_input : Option ℕ → Effect
  runs_message_cb : Effect
  runs_close_cb : Effect
  watches_output : Option ℕ → Effect
  unwatches_output : Option ℕ → Effect
  unwatches : Option ℕ → Effect
  closes : Option ℕ → Effect
  cleans : Effect

-- `add_task`: the loop is to run `connected`, and watches for input.
unfoldable pub add_task : Connection → List Effect
add_task conn = queues_connected ∷ watches_input conn.fd ∷ []

unfoldable pub connected : Connection → List Effect
connected conn = if conn.has_connected_cb then runs_connected_cb ∷ [] else []

unfoldable pub do_close : Connection → M (Connection × List Effect)
do_close conn = do
  ibuf ← Buffer.clear conn.ibuf
  obuf ← Buffer.clear conn.obuf
  pure (
    record conn { ibuf = ibuf; obuf = obuf; fd = none },
    (if conn.has_close_cb then runs_close_cb ∷ [] else [])
        ++ (unwatches conn.fd ∷ closes conn.fd ∷ cleans ∷ []),
  )

-- How the loop of `do_write` ends: with an empty buffer, with a `write` that took nothing, or with
-- one that failed. `unanswered` is not the code's: the list of the kernel's answers ran out.
pub data Drain : Type 0 where
  drained : Drain
  blocked : Drain
  broken : Drain
  unanswered : Drain

-- What follows `write2fd` in the loop; `rest` is the next iterations.
unfoldable pub after_write : M (Drain × List ℕ) → Ret × List ℕ → M (Drain × List ℕ)
after_write rest (error, taken) = pure (broken, taken)
after_write rest (count n, taken) =
    if n == 0 then pure (blocked, taken) else (do r ← rest; pure (r.0, taken ++ r.1))

-- The loop of `do_write`; the list is what the kernel took.
unfoldable pub write_loop : List Io → Buffer → M (Drain × List ℕ)
write_loop [] b = do
  n ← Buffer.length b
  if n == 0 then pure (drained, []) else pure (unanswered, [])
write_loop (io ∷ ios) b = do
  n ← Buffer.length b
  if n == 0 then pure (drained, []) else (do r ← write2fd b io; after_write (write_loop ios b) r)

-- Behind the loop.
unfoldable pub after_loop : Connection → Drain × List ℕ → M (Connection × List ℕ × List Effect)
after_loop conn (broken, taken) = do r ← do_close conn; pure (r.0, taken, r.1)
after_loop conn (drained, taken) = do
  n ← Buffer.length conn.obuf
  pure (conn, taken, if n == 0 then unwatches_output conn.fd ∷ [] else [])
after_loop conn (blocked, taken) = do
  n ← Buffer.length conn.obuf
  pure (conn, taken, if n == 0 then unwatches_output conn.fd ∷ [] else [])
after_loop conn (unanswered, taken) = do
  n ← Buffer.length conn.obuf
  pure (conn, taken, if n == 0 then unwatches_output conn.fd ∷ [] else [])

unfoldable pub do_write : List Io → Connection → M (Connection × List ℕ × List Effect)
do_write ios conn = do r ← write_loop ios conn.obuf; after_loop conn r

-- Behind `write2buf` and `read_from_fd`.
unfoldable pub after_append : Connection → ℕ → Buffer × Ret → M (Connection × Bool × List Effect)
after_append conn n (b, error) = pure (record conn { obuf = b }, false, [])
after_append conn n (b, count k) =
    if k == 0
    then pure (record conn { obuf = b }, true, if n == 0 then watches_output conn.fd ∷ [] else [])
    else pure (record conn { obuf = b }, false, [])

unfoldable pub after_read : Connection → Buffer × Ret → M (Connection × List Effect)
after_read conn (b, error) = do_close (record conn { ibuf = b })
after_read conn (b, count n) =
    if n == 0
    then do_close (record conn { ibuf = b })
    else pure (record conn { ibuf = b }, runs_message_cb ∷ [])

module _ (sys : ℕ → Grant) where
  unfoldable pub send : Bytes → ℕ → Connection → M (Connection × Bool × List Effect)
  send data_src len conn = do
    n ← Buffer.length conn.obuf
    r ← write2buf sys conn.obuf data_src len
    after_append conn n r

  unfoldable pub do_read : Option ℕ → Bytes → Io → Connection → M (Connection × List Effect)
  do_read ready src io conn = do r ← read_from_fd sys conn.ibuf ready src io; after_read conn r
