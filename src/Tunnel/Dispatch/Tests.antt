-- ===== src/Tunnel/Dispatch/Tests.antt =====
-- A library net/http that takes every request, and a loop that gets a chunk of another request's body.
use muxbridge.Base.{
  ℕ, ◌≡◌, refl, none, List, [], ◌∷◌, ◌++◌, false, Bytes, codes, arith, lookup, insert, nat_eq,
}
use muxbridge.Base.Text.{split}
use muxbridge.Wire.{RequestStart, ClientFrame, request_body}
use muxbridge.Tunnel.Writer.Frames.{logging}
use muxbridge.Tunnel.Dispatch.{
  Url, Http, handler_request, Inflight, Loop, waits, pipe_write, hand_over, write_body, write_done,
  put_request, dispatch,
}
use muxbridge.Tunnel.Dispatch.Requests.{dispatch-lookup}

-- A text that keeps each part of a URL, behind a byte that none of them has.
abbrev url_line : Url → Bytes
url_line u = u.scheme ++ 0 ∷ (u.host ++ 0 ∷ (u.path ++ 0 ∷ (u.raw_path ++ 0 ∷ u.raw_query)))

abbrev url_of : Bytes → Bytes → Bytes → Bytes → Bytes → Url
url_of scheme host path raw_path raw_query = record {
  scheme = scheme;
  opaque = [];
  user = none;
  host = host;
  path = path;
  raw_path = raw_path;
  omit_host = false;
  force_query = false;
  raw_query = raw_query;
  fragment = [];
  raw_fragment = [];
}

abbrev parts_url : List Bytes → Url
parts_url (scheme ∷ host ∷ path ∷ raw_path ∷ raw_query ∷ []) =
    url_of scheme host path raw_path raw_query
parts_url parts = url_of [] [] [] [] []

abbrev pub accepts : Http
accepts = record {
  url_text = url_line;
  request_error = λ method text. none;
  new_request = λ method text. record { method = method; url = parts_url (split 0 text) };
}

abbrev pub sample_start : RequestStart
sample_start = record {
  request_id = 7;
  method = codes "GET";
  scheme = codes "https";
  host = codes "demo.example.com";
  path = codes "/";
  raw_query = [];
  headers = [];
  remote_addr = [];
  raw_path = [];
}

abbrev request_of : List Bytes → ℕ → Inflight
request_of cs n = record {
  request = handler_request accepts sample_start;
  canceled = false;
  body = record { taken = cs; wanted = n; write_end = none; read_end = none };
}

abbrev two_requests : List Bytes → ℕ → Loop (List ClientFrame)
two_requests cs n = record {
  inflight = (7, request_of [] 0) ∷ (8, request_of cs n) ∷ [];
  ws_inbound = [];
  channels = [];
  stream = [];
}

dispatch-lookup_example :
    lookup 7 (two_requests (codes "x" ∷ []) 0).inflight ≡ lookup 7 (two_requests [] 1).inflight
unfolding dispatch write_body write_done put_request pipe_write hand_over lookup insert
dispatch-lookup_example =
    dispatch-lookup logging accepts false none (request_body 8 (codes "x")) 7 (two_requests [] 1)
      (two_requests (codes "x" ∷ []) 0) refl (omega arith)

unread_test :
    dispatch logging accepts false none (request_body 7 (codes "x")) (two_requests [] 1) ≡ waits
unfolding dispatch write_body write_done pipe_write hand_over lookup
unread_test = refl
