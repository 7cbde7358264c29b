-- ===== src/Net/Connection/Setup.antt =====
-- net/tcp_conn.cpp, net/tcp_conn.h: how a `TcpConnection` is made, and its setters. A callback is a value
-- of `Callback`; the server, the loop and the peer's address are numbers.
use high_performance_concurr.Base.{ℕ, Bool, true, false, Option, none, some}
use high_performance_concurr.Log.Queue.{ℤ, pos, negsuc}
use high_performance_concurr.Net.Connection.{Connection}

-- What the kernel keeps of a socket: O_NONBLOCK, its other status flags, and TCP_NODELAY.
pub record Socket : Type 0 where
  pub nonblock : Bool
  pub flags : ℕ
  pub nodelay : Bool

-- `TcpConnection`, with its part that reads, writes and closes as the record of Net/Connection.
pub record TcpConnection (Callback : Type 0) : Type 0 where
  pub server : ℕ
  pub loop : ℕ
  pub peer_addr : ℕ
  pub timer_id : ℤ
  pub connected_cb : Option Callback
  pub message_cb : Option Callback
  pub close_cb : Option Callback
  pub io : Connection

abbrev pub is_set : {A : Type 0} → Option A → Bool
is_set none = false
is_set (some a) = true

-- `set_sockfd`.
unfoldable pub set_sockfd : Socket → Socket
set_sockfd s = record s { nonblock = true; nodelay = true }

module _ {Callback : Type 0} where
  -- The constructor, on the descriptor of a socket.
  unfoldable pub make : ℕ → ℕ → ℕ → ℕ → Socket → TcpConnection Callback × Socket
  unfolding set_sockfd
  make server loop fd addr s = (
    record {
      server = server;
      loop = loop;
      peer_addr = addr;
      timer_id = negsuc 0;
      connected_cb = none;
      message_cb = none;
      close_cb = none;
      io = record {
        fd = some fd;
        ibuf = none;
        obuf = none;
        has_close_cb = false;
        has_connected_cb = false;
      };
    },
    set_sockfd s,
  )

  unfoldable pub set_connected_cb :
      Option Callback → TcpConnection Callback → TcpConnection Callback
  set_connected_cb cb conn = record conn {
    connected_cb = cb;
    io = record conn.io { has_connected_cb = is_set cb };
  }

  unfoldable pub set_message_cb : Option Callback → TcpConnection Callback → TcpConnection Callback
  set_message_cb cb conn = record conn { message_cb = cb }

  unfoldable pub set_close_cb : Option Callback → TcpConnection Callback → TcpConnection Callback
  set_close_cb cb conn = record conn {
    close_cb = cb;
    io = record conn.io { has_close_cb = is_set cb };
  }

  unfoldable pub set_timer_id : ℕ → TcpConnection Callback → TcpConnection Callback
  set_timer_id id conn = record conn { timer_id = pos id }
