-- ===== src/Tunnel/Connection/Tests.antt =====
-- A client that is closed while it is connected.
use muxbridge.Base.{◌≡◌, refl, true, false, none, [], ◌∷◌, codes, same}
use muxbridge.Base.Result.{ok}
use muxbridge.Server.State.{natural, positive_or}
use muxbridge.Tunnel.Connection.{Config, Client, new, close, set_conn, stay, next, sets, closes}
use muxbridge.Tunnel.Connection.Ended.{closed_client}

abbrev pub sample_config : Config
sample_config = record {
  edge_addr = codes "edge.example.com:443";
  tunnel_id = [];
  token = codes "t1";
  has_handler = true;
  reconnect_backoff = natural 0;
  dial_timeout = natural 5;
}

abbrev made : Client
made = record {
  edge_addr = codes "edge.example.com:443";
  token = codes "t1";
  reconnect_backoff = 2_000_000_000;
  dial_timeout = 5;
  closed = false;
  conn = none;
  signals = 0;
  closed_conns = [];
}

made-ok : new sample_config ≡ ok made
unfolding new same positive_or
made-ok = refl

abbrev ended : Client
ended = close (set_conn 1 made)

closed_client_example :
    (ended.conn ≡ none)
    × (ended.signals ≡ 1)
    × (set_conn 2 ended ≡ record ended { closed_conns = 2 ∷ ended.closed_conns })
unfolding close
closed_client_example =
    closed_client sample_config made ended 2 made-ok (next (next stay (sets 1)) closes) refl
