-- ===== src/Wire.antt =====
-- The messages of the tunnel, gen/tunnelpb/tunnel.pb.go. A request id is a decimal number on the wire
-- and is that number here; a frame may carry any number.
use muxbridge.Base.{ℕ, Option, List, Bytes}
use muxbridge.Headers.{WireHeader}

pub record RequestStart : Type 0 where
  pub request_id : ℕ
  pub method : Bytes
  pub scheme : Bytes
  pub host : Bytes
  pub path : Bytes
  pub raw_query : Bytes
  pub headers : List (Option WireHeader)
  pub remote_addr : Bytes
  pub raw_path : Bytes

pub record ResponseStart : Type 0 where
  pub request_id : ℕ
  pub status_code : ℕ
  pub headers : List (Option WireHeader)

-- `absent` is a frame whose `msg` is not set.
pub data ClientFrame : Type 0 where
  register : Bytes → Bytes → ClientFrame
  pong : ℕ → ClientFrame
  response_start : ResponseStart → ClientFrame
  response_body : ℕ → Bytes → ClientFrame
  response_end : ℕ → ClientFrame
  response_error : ℕ → Bytes → ClientFrame
  ws_data : ℕ → Bytes → ClientFrame
  ws_close : ℕ → ClientFrame
  absent : ClientFrame

pub data ServerFrame : Type 0 where
  request_start : RequestStart → ServerFrame
  request_body : ℕ → Bytes → ServerFrame
  request_end : ℕ → ServerFrame
  cancel_request : ℕ → ServerFrame
  ping : ℕ → ServerFrame
  ws_data : ℕ → Bytes → ServerFrame
  ws_close : ℕ → ServerFrame
  absent : ServerFrame
