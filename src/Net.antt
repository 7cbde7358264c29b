-- ===== src/Net.antt =====
-- net/: the poller, the event loop, the connections and the server.
pub mod Epoll
pub mod EventLoop
pub mod Acceptor
pub mod Connection
pub mod Server
pub mod Echo
mod Tests
