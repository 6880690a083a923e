-- ===== src/Server/Forward/Tests.antt =====
-- A request with a body of two reads.
use muxbridge.Base.{true, none, some, [], codes}
use muxbridge.Server.Forward.{reads, ends, Request}

abbrev pub upload : Request
upload = record {
  method = codes "POST";
  has_tls = true;
  host = codes "demo.example.com";
  path = codes "/a";
  raw_path = [];
  raw_query = [];
  header = [];
  remote_addr = codes "192.0.2.1:5000";
  body = some (reads (codes "he") (reads [] (ends (codes "llo") none)));
}
