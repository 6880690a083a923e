-- ===== src/Tunnel.antt =====
-- tunnel/client.go and tunnel/response_writer.go, the client's side of the tunnel. The response of
-- one request is in `Writer`, the tunnel's requests in `Dispatch`, its sockets in `Socket`, the
-- connection in `Connection` and a session of it in `Session`.
pub mod Writer
pub mod Dispatch
pub mod Socket
pub mod Connection
pub mod Session
