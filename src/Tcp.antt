-- ===== src/Tcp.antt =====
-- tcp_sink.c and tcp_sink_epoll.c accept connections and close them, tcp_sink_client.c makes them.
pub mod Options
pub mod Client
pub mod Accept
pub mod Epoll
mod Tests
