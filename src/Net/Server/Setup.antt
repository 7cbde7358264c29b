-- ===== src/Net/Server/Setup.antt =====
-- net/tcp_server.cpp, net/tcp_server.h: the constructor of `TcpServer` and its setters, the message
-- callback that it gives to its connections, and net/acceptor.cpp: the constructor and the destructor
-- of `Acceptor`, and how it makes a connection.
pub mod Echoes
use high_performance_concurr.Base.{
  ℕ, Bool, true, false, Option, none, some, List, [], ◌∷◌, Outcome, ok, aborted, check, ◌>>=◌, ◌>>◌,
}
use high_performance_concurr.Net.Connection.{Effect, add_task}
use high_performance_concurr.Net.Connection.Setup
use high_performance_concurr.Net.Connection.Setup.{Socket, TcpConnection}
use high_performance_concurr.Log.Queue.{negsuc}
use high_performance_concurr.Timer.Schedule
use high_performance_concurr.Net.Server.{Server, update_conn_timeout_time}

-- `ac_server_addr` is the address and the port.
pub record Acceptor : Type 0 where
  pub listen_fd : ℕ
  pub idle_fd : ℕ
  pub listening : Bool
  pub server_addr : ℕ × ℕ

-- What the system answers to the acceptor's constructor: `open`, `socket`, `inet_aton`, and whether
-- `bind` succeeds.
pub record Answers : Type 0 where
  pub null_fd : Option ℕ
  pub socket_fd : Option ℕ
  pub address : Option ℕ
  pub bound : Bool

-- `inet_aton` leaves the zeros of `memset` where it knows no such address: INADDR_ANY.
abbrev pub address_of : Option ℕ → ℕ
address_of none = 0
address_of (some a) = a

abbrev pub need_fd : Option ℕ → Outcome ℕ
need_fd none = aborted
need_fd (some fd) = ok fd

-- The constructor of `Acceptor`; the program exits where `bind` fails.
unfoldable pub make_acceptor : Answers → ℕ → Outcome Acceptor
make_acceptor a port = do
  listen_fd ← need_fd a.socket_fd
  idle_fd ← need_fd a.null_fd
  check a.bound
  ok (record {
    listen_fd = listen_fd;
    idle_fd = idle_fd;
    listening = false;
    server_addr = (address_of a.address, port);
  })

-- What the destructor of `Acceptor` closes.
unfoldable pub destroy_acceptor : Acceptor → List ℕ
destroy_acceptor a = a.listen_fd ∷ a.idle_fd ∷ []

-- The callbacks that the user has set: `ts_connected_cb`, `ts_msg_cb` and `ts_close_cb`.
pub record Callbacks (User : Type 0) : Type 0 where
  pub connected_cb : Option User
  pub msg_cb : Option User
  pub close_cb : Option User

-- `set_connected_cb`, `set_message_cb` and `set_close_cb` of `TcpServer`.
unfoldable pub set_connected_cb : {User : Type 0} → User → Callbacks User → Callbacks User
set_connected_cb cb cbs = record cbs { connected_cb = some cb }

unfoldable pub set_message_cb : {User : Type 0} → User → Callbacks User → Callbacks User
set_message_cb cb cbs = record cbs { msg_cb = some cb }

unfoldable pub set_close_cb : {User : Type 0} → User → Callbacks User → Callbacks User
set_close_cb cb cbs = record cbs { close_cb = some cb }

-- The constructor of `TcpServer`, on the answers to its acceptor's: no callback is set, the timer's
-- queue is empty, and there are no loops; 6000 ms is what the field says at first. No connection has a
-- timer yet, so what `timer_id` says of one is of no account.
unfoldable pub make_server : Answers → ℕ → Outcome (Server × Acceptor)
unfolding make_acceptor
make_server a port = do
  acceptor ← make_acceptor a port
  ok (
    record {
      conn_loops = [];
      next_loop = negsuc 0;
      timer = Schedule.init;
      timeout_ms = 6000;
      timer_id = λ conn. 0;
      connections = [];
    },
    acceptor,
  )

-- A connection's callback: one of the user's, or `ts_message_cb`.
pub data Callback (User : Type 0) : Type 0 where
  user : User → Callback User
  on_message : Callback User

module _ {User : Type 0} where
  abbrev pub given : Option User → Option (Callback User)
  given none = none
  given (some cb) = some (user cb)

  -- `ts_message_cb`, at a time of the clock: the server, and the user's callback, if there is one.
  unfoldable pub message_cb : ℕ → ℕ → Callbacks User → Server → Server × Option User
  message_cb now conn cbs s = (update_conn_timeout_time now conn s, cbs.msg_cb)

  -- How `do_accept` makes a connection and hands it to its loop.
  unfoldable pub new_conn :
      ℕ → ℕ → ℕ → ℕ → Socket → Callbacks User → TcpConnection (Callback User) × Socket × List Effect
  new_conn server loop fd addr s cbs =
      let (conn, s') = Setup.make server loop fd addr s in
      let conn1 = Setup.set_connected_cb (given cbs.connected_cb) conn in
      let conn2 = Setup.set_message_cb (some on_message) conn1 in
      let conn3 = Setup.set_close_cb (given cbs.close_cb) conn2 in (conn3, s', add_task conn3.io)
