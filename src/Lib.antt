-- ===== src/Lib.antt =====
-- muxbridge: a self-hosted HTTPS tunnel. A client behind a firewall opens one stream of frames to an
-- edge server; the edge sends the requests of browsers for the client's host through that stream, and
-- the client's handler answers them.
--
-- Base: shared names. Base/Text has the functions of Go's `strings` and `net` that the program uses, on
-- lists of bytes; Base/Dict has maps as association lists; Base/Result has results with errors.
-- Wire: the messages of gen/tunnelpb/tunnel.pb.go. A request id is a number here and its decimal text on
-- the wire.
-- Hostnames: internal/hostnames/hostnames.go. Hostnames/Labels and Hostnames/Domains say what is valid,
-- Hostnames/Names what normalization does.
-- Headers: internal/headers/headers.go. Headers/Strip says which headers pass, Headers/RoundTrip what
-- the other side makes of them.
-- Server: server/server.go. Server/Response: `responseState` and `wsState`, a channel being the list of
-- what it holds. Server/Session: `session`; the maps `inflight` and `wsMap` hold pointers, so an object is
-- kept under its id in `responses` and `sockets` and stays there when its id leaves the map.
-- Server/State: `Config`, `New`, the table of sessions, the counter of slots. Server/Admission: the
-- handlers as threads whose atomic operations interleave (`tryStartRequest`, `finishRequest`, `Connect`,
-- `shutdown`). Server/Routing: the handshake and the end of `Connect`, and `ServeHTTP` up to the
-- forwarding. Server/Forward: `forwardRequest`. Server/Exchange: `handleClientFrame`, `sendFrame`,
-- `sendFrameCtx`, `cancelRequest`, the heartbeat. Server/Relay: the rest of `ServeHTTP`, as a step
-- relation of the receive loop, the handler, the end of the session and the leave of the browser.
-- Server/Socket: `serveWebSocket` from the forwarded upgrade on, as two such relations: the answer, and the
-- relay between the browser's connection and the tunnel.
-- Tunnel: tunnel/client.go and tunnel/response_writer.go. Tunnel/Writer: the response writer and
-- `serveRequest`, for any function that sends frames. Tunnel/Dispatch: the loop of `runSession`, with
-- `url.URL.String` and `http.NewRequestWithContext` as parameters; the pipe of a request's body hands a
-- chunk over where the handler reads, and a write to it waits for that.
-- Tunnel/Socket: `handleWebSocket`, with what the `http.Handler` answers as a parameter, and its listener.
-- Tunnel/Connection: `New`, `Close`, the connection, and what `Run` does behind each session.
-- Tunnel/Session: `waitForConnReady`, and `runSession` from the open stream to its deferred end.
-- Edge: cmd/edge. Edge/Config: config.go, with `flag`, `filepath` and `os.UserHomeDir` as parameters.
-- Edge/Handlers: main.go, which handler gets a request, and the errors of a shutdown.
-- Perf: cmd/perf-client/main.go. Perf/Options: `loadConfig`, with `flag` as a parameter. Perf/Scenario:
-- `loadScenario` and `requestFor`. Perf/Histogram: the latencies in buckets, with the share of a percentile,
-- which is computed in floating point, as a parameter. Perf/Summary: `Record`. Perf/Load: the clients of
-- `runLoad`, `waitForReady`, `waitForClientExit` and the order of `run`.
-- Demo: cmd/demo-client/main.go, `loadConfig`, `remoteIPFromAddr` and `writeSSEEvent`.
--
-- The parts meet in frames: Server/Forward makes the ones that Tunnel/Dispatch takes, and Tunnel/Writer
-- makes the ones that Server/Relay takes. Tunnel/Socket answers the upgrade that Server/Socket waits for.
--
-- Conventions. Texts are lists of bytes, taken to be ASCII where case is folded or space is trimmed.
-- Where a Go `select` has several cases ready, the case taken is an argument of the definition or a step
-- of the relation, so that a statement covers each choice. An operation that would wait has the result
-- `none` or `waits`. A region under a mutex and an atomic operation are one step. The counters of requests
-- and sessions wrap at 2 ^ 64; the steps of Server/Admission have it as a premise that the counter of
-- requests has not. No definition runs on fuel: loops are recursions on the lists that they consume,
-- or on the number of rounds that is left.
-- The parts of one response writer are called by one goroutine at a time.
--
-- Not modelled: TLS, gRPC and listeners, certificates, debug logging, the dialling of the client, the send
-- loop of `Connect`, which takes the frames of one queue in their order, the text of the load generator's
-- report and its goroutines, and the handlers of the demo client, which call net/http and websocket.
mod Base
pub mod Demo
pub mod Edge
pub mod Headers
pub mod Hostnames
pub mod Perf
pub mod Server
pub mod Tunnel
pub mod Wire
