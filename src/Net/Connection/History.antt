-- ===== src/Net/Connection/History.antt =====
-- A connection's output over any calls of `send` and `do_write`.
pub mod Calls
pub mod Output
use high_performance_concurr.Base.{
  ℕ, ◌+◌, ◌≤◌, ◌≡◌, refl, sym, ap, ◌∙◌, subst, Bool, true, false, none, some, List, [], ◌∷◌, ◌++◌,
  append_assoc, append-nil, length, length-append, Outcome, ok, aborted, fault, arith, Bool-cases,
  Option-cases, ◌⊎◌, inl, inr, ◌==◌, if◌then◌else◌,
}
use high_performance_concurr.Memory.Bytes.{Bytes, slice, length-slice}
use high_performance_concurr.Memory.Store.{Mem, Grant, M, pure, ◌>>=◌}
use high_performance_concurr.Memory.Pool.{m_up}
use high_performance_concurr.Memory.Pool.Invariant.{Inv, Ensures, Ensures-bind}
use high_performance_concurr.Memory.Buffer
use high_performance_concurr.Memory.Buffer.{Buffer, Io, done, again, failed, int_limit}
use high_performance_concurr.Memory.Buffer.Room.{Owns, contents_of, live, head_of, NoChunk}
use high_performance_concurr.Net.Connection.{
  Connection, Effect, queues_connected, runs_connected_cb, watches_input, runs_message_cb,
  runs_close_cb, watches_output, unwatches_output, unwatches, closes, cleans, send, do_write,
  after_loop, write_loop,
}
use high_performance_concurr.Net.Connection.Answers.{Answers, left, left-zero}
use high_performance_concurr.Net.Connection.Stream.{length-contents}
use high_performance_concurr.Net.Connection.Write.{do_write-Wrote}
use high_performance_concurr.Net.Connection.Send.{SendPost, send-SendPost}

-- A call, and what it needs from outside: the bytes to send, or the kernel's answers.
pub data Call : Type 0 where
  sends : Bytes → ℕ → Call
  writes : List Io → Call

-- Whether the loop watches for output behind effects.
abbrev pub watched : List Effect → Bool → Bool
watched [] w = w
watched (watches_output fd ∷ es) w = watched es true
watched (watches_input fd ∷ es) w = watched es w
watched (queues_connected ∷ es) w = watched es w
watched (runs_connected_cb ∷ es) w = watched es w
watched (unwatches_output fd ∷ es) w = watched es false
watched (runs_message_cb ∷ es) w = watched es w
watched (runs_close_cb ∷ es) w = watched es w
watched (unwatches fd ∷ es) w = watched es false
watched (closes fd ∷ es) w = watched es w
watched (cleans ∷ es) w = watched es w

-- The pool is in good order, the output buffer is the connection's and begins at offset 0, and
-- the loop watches for output if there is any.
pub record IsStreaming (m : Mem) (free : ℕ → List ℕ) (held : ℕ → Bool) (b : Buffer) (w : Bool)
    : Type 0 where
  pub inv : Inv m free held
  pub owns : Owns held b
  pub front : head_of m.heap b ≡ 0
  pub watching : (live m.heap b ≡ 0) ⊎ (w ≡ true)

-- The connection, what went to the kernel, and the effects.
unfoldable pub call : (ℕ → Grant) → Call → Connection → M (Connection × List ℕ × List Effect)
call sys (sends src len) conn = do r ← send sys src len conn; pure (r.0, [], r.2)
call sys (writes ios) conn = do_write ios conn

-- Behind calls that were given the bytes `xs`: what went to the kernel and what is to be written
-- make up what was to be written and `xs`.
pub record Passed (m : Mem) (conn : Connection) (w : Bool) (xs : List ℕ)
    (r : Connection × List ℕ × List Effect) (m' : Mem) : Type 0 where
  pub free' : ℕ → List ℕ
  pub held' : ℕ → Bool
  pub streaming : IsStreaming m' free' held' r.0.obuf (watched r.2 w)
  pub order : r.1 ++ contents_of m'.heap r.0.obuf ≡ contents_of m.heap conn.obuf ++ xs
