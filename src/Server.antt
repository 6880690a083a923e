-- ===== src/Server.antt =====
-- server/server.go, the edge's side of the tunnel. The data and the operations of one request are in
-- `Response`, those of one tunnel in `Session`, those of the server in `State`. `Admission` has the
-- slots, `Routing` the tunnels of the hosts, `Forward`, `Exchange` and `Relay` the frames, and `Socket` WebSockets.
pub mod Response
pub mod Session
pub mod Exchange
pub mod Relay
pub mod State
pub mod Admission
pub mod Routing
pub mod Forward
pub mod Socket
