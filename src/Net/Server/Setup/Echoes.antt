-- ===== src/Net/Server/Setup/Echoes.antt =====
-- A connection of the echo server, from `accept` on.
use high_performance_concurr.Base.{ℕ, ◌≡◌, refl, Bool, true, false, some, List, [], ◌∷◌, ◌++◌, inl}
use high_performance_concurr.Memory.Store.{Mem, Grant}
use high_performance_concurr.Memory.Pool.Invariant.{Inv, Ensures, Ensures-map}
use high_performance_concurr.Memory.Buffer.Room.{contents_of}
use high_performance_concurr.Net.Connection.{
  Connection, Effect, queues_connected, watches_input, add_task,
}
use high_performance_concurr.Net.Connection.Setup
use high_performance_concurr.Net.Connection.Setup.{
  Socket, set_sockfd, set_connected_cb, set_message_cb, set_close_cb,
}
use high_performance_concurr.Net.Connection.History.{watched, IsStreaming, Passed}
use high_performance_concurr.Net.Connection.Stepwise.{RanOut, Orderly, run_all, all_given}
use high_performance_concurr.Net.Echo.{Turn}
use high_performance_concurr.Net.Echo.Stream.{echo_of, echo_is_stream}
use high_performance_concurr.Net.Server.Setup.{Callbacks, new_conn}

-- What went to the kernel and what is to be written are the bytes that arrived, in order; the pool is
-- in good order, and the loop watches for output if there is any.
abbrev pub Echoed : (ℕ → Grant) → List Turn → Connection × List ℕ × List Effect → Mem → Type 0
Echoed sys es r m' =
    (free' : ℕ → List ℕ) × (held' : ℕ → Bool) × IsStreaming m' free' held' r.0.obuf
      (watched r.2 false)
    × (r.1 ++ contents_of m'.heap r.0.obuf ≡ all_given (echo_of sys) es)

-- A connection that the acceptor has just made has a socket that does not block, has its loop run the
-- connected callback and watch it for input, and then echoes: over any input, of which none takes the
-- output past the largest class, and any calls of `do_write`, with answers of the kernel of which none
-- is an error or takes more than it was offered, what went to the kernel and what is to be written are
-- exactly the bytes that arrived, in order. The pool stays in good order, the loop watches for output
-- if any is left, and the program stops only where the pool is exhausted and never faults.
pub accepted_echoes :
    {User : Type 0} (sys : ℕ → Grant) (server loop fd addr : ℕ) (s : Socket) (cbs : Callbacks User)
    (es : List Turn) (m : Mem) (free : ℕ → List ℕ) (held : ℕ → Bool)
    → Inv m free held
    → Orderly (echo_of sys) es 0
    → ((new_conn server loop fd addr s cbs).1.nonblock ≡ true)
      × ((new_conn server loop fd addr s cbs).2 ≡ queues_connected ∷ watches_input (some fd) ∷ [])
      × Ensures
          (RanOut (echo_of sys) es (new_conn server loop fd addr s cbs).0.io m)
          (Echoed sys es)
          (run_all (echo_of sys) es (new_conn server loop fd addr s cbs).0.io m)
unfolding new_conn Setup.make set_sockfd set_connected_cb set_message_cb set_close_cb add_task
accepted_echoes sys server loop fd addr s cbs es m free held v orderly =
    let conn : Connection = (new_conn server loop fd addr s cbs).0.io in
    let X : Type 0 = RanOut (echo_of sys) es conn m in
    let start : IsStreaming m free held conn.obuf false = record {
      inv = v;
      owns = tt;
      front = refl;
      watching = inl refl;
    } in
    (
      refl,
      refl,
      Ensures-map X X (Passed m conn false (all_given (echo_of sys) es)) (Echoed sys es)
          (run_all (echo_of sys) es conn m) (λ x. x)
          (λ r m' p. (p.free', p.held', p.streaming, p.order))
          (echo_is_stream sys es conn m free held false start refl orderly),
    )
