-- ===== src/Net/Echo.antt =====
-- net/tests/echo_server.cpp: the message callback of `EchoServer`, and a connection that has it. What a
-- message does to the connection's timer is in Net/Server.
pub mod Message
pub mod Input
pub mod Stream
use high_performance_concurr.Base.{
  ℕ, ◌+◌, Bool, true, false, Option, none, some, List, [], ◌∷◌, ◌++◌, if◌then◌else◌,
}
use high_performance_concurr.Memory.Bytes.{Bytes}
use high_performance_concurr.Memory.Store.{Grant, M, pure, ◌>>=◌, ◌>>◌}
use high_performance_concurr.Memory.Buffer
use high_performance_concurr.Memory.Buffer.{Io, done}
use high_performance_concurr.Net.Connection.{
  Connection, Effect, runs_message_cb, send, do_read, do_write,
}

-- `string msg_str(msg, msg + ibuf->length())`, as an array; a null pointer has no bytes.
abbrev pub copied : Option (Bytes × ℕ) → Bytes
copied none i = 0
copied (some (bytes, at)) i = bytes (at + i)

-- `echo_message_cb` up to `send`: the message and its length.
unfoldable pub take_message : Connection → M (Connection × Bytes × ℕ)
take_message conn = do
  msg ← Buffer.get_from_buf conn.ibuf
  len ← Buffer.length conn.ibuf
  n ← Buffer.length conn.ibuf
  ibuf ← Buffer.pop conn.ibuf n
  Buffer.adjust ibuf
  pure (record conn { ibuf = ibuf }, copied msg, len)

-- Whether `do_read` came to the message callback.
abbrev pub has_message : List Effect → Bool
has_message (runs_message_cb ∷ es) = true
has_message es = false

-- What happens to a connection: bytes arrive, or the kernel can take some.
pub data Turn : Type 0 where
  arrives : Bytes → ℕ → Turn
  flushes : List Io → Turn

module _ (sys : ℕ → Grant) where
  unfoldable pub echo_message_cb : Connection → M (Connection × List Effect)
  echo_message_cb conn = do r ← take_message conn; s ← send sys r.1 r.2 r.0; pure (s.0, s.2)

  -- Behind `do_read`.
  unfoldable pub after_input : Connection × List Effect → M (Connection × List ℕ × List Effect)
  after_input r =
      if has_message r.1
      then (do s ← echo_message_cb r.0; pure (s.0, [], r.1 ++ s.1))
      else pure (r.0, [], r.1)

  -- `n` bytes of `src`, all of which the kernel hands over, or a call of `do_write`.
  unfoldable pub turn : Turn → Connection → M (Connection × List ℕ × List Effect)
  turn (arrives src n) conn = do r ← do_read sys (some n) src (done n) conn; after_input r
  turn (flushes ios) conn = do_write ios conn
