-- ===== src/Tunnel/Connection.antt =====
-- tunnel/client.go, `Client`: its construction, its connection and its end. A connection is known by a
-- number; `signals` counts how often `closeCh` was closed.
pub mod Ended
pub mod Tests
use muxbridge.Base.{
  ℕ, suc, ◌+◌, Bool, true, false, Option, none, some, List, [], ◌∷◌, ◌==◌, if◌then◌else◌, Bytes,
  same,
}
use muxbridge.Base.Result.{Result, ok, err}
use muxbridge.Server.State.{Signed, positive_or}

pub record Config : Type 0 where
  pub edge_addr : Bytes
  pub tunnel_id : Bytes
  pub token : Bytes
  pub has_handler : Bool
  pub reconnect_backoff : Signed
  pub dial_timeout : Signed

pub record Client : Type 0 where
  pub edge_addr : Bytes
  pub token : Bytes
  pub reconnect_backoff : ℕ
  pub dial_timeout : ℕ
  pub closed : Bool
  pub conn : Option ℕ
  pub signals : ℕ
  pub closed_conns : List ℕ

pub data NewError : Type 0 where
  no_edge_address no_handler no_token : NewError

-- `New`; the times are in nanoseconds.
unfoldable pub new : Config → Result NewError Client
new cfg =
    if same cfg.edge_addr []
    then err no_edge_address
    else if cfg.has_handler
    then (if same cfg.token []
        then err no_token
        else ok (record {
          edge_addr = cfg.edge_addr;
          token = cfg.token;
          reconnect_backoff = positive_or cfg.reconnect_backoff 2_000_000_000;
          dial_timeout = positive_or cfg.dial_timeout 10_000_000_000;
          closed = false;
          conn = none;
          signals = 0;
          closed_conns = [];
        }))
    else err no_handler

close_conn : Option ℕ → List ℕ → List ℕ
close_conn none ks = ks
close_conn (some k) ks = k ∷ ks

-- `Close`
unfoldable pub close : Client → Client
unfolding close_conn
close c = record c {
  closed = true;
  conn = none;
  signals = if c.closed then c.signals else suc c.signals;
  closed_conns = close_conn c.conn c.closed_conns;
}

unfoldable pub set_conn : ℕ → Client → Client
set_conn k c =
    if c.closed then record c { closed_conns = k ∷ c.closed_conns } else record c { conn = some k }

drop_conn : ℕ → Option ℕ → Option ℕ
drop_conn k none = none
drop_conn k (some j) = if j == k then none else some j

unfoldable pub clear_conn : ℕ → Client → Client
unfolding drop_conn
clear_conn k c = record c { conn = drop_conn k c.conn }

-- What `Run` does behind a session: it returns with an error of its context or with none, or tries
-- again.
pub data Next : Type 0 where
  returns_with : Option Bytes → Next
  tries_again : Next

-- The case of the wait between two sessions.
pub data Wake : Type 0 where
  wake_context : Bytes → Wake
  wake_closed wake_timer : Wake

unfoldable pub after_wait : Wake → Next
after_wait (wake_context e) = returns_with (some e)
after_wait wake_closed = returns_with none
after_wait wake_timer = tries_again

unfoldable pub after_session : Option Bytes → Wake → Client → Next
after_session (some e) wake c = returns_with (some e)
after_session none wake c = if c.closed then returns_with none else after_wait wake

-- The calls of `Run`'s session and of `Close`, in any order.
pub data Step (c : Client) : Client → Type 0 where
  sets : (k : ℕ) → Step c (set_conn k c)
  clears : (k : ℕ) → Step c (clear_conn k c)
  closes : Step c (close c)

pub data Reach (c : Client) : Client → Type 0 where
  stay : Reach c c
  next : {d e : Client} → Reach c d → Step d e → Reach c e
