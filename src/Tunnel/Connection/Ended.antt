-- ===== src/Tunnel/Connection/Ended.antt =====
-- A client that was closed.
use muxbridge.Base.{ℕ, ◌≡◌, true, none, ◌∷◌, arith, if◌then◌else◌}
use muxbridge.Base.Result.{ok}
use muxbridge.Tunnel.Connection.{
  Config, Client, new, close, set_conn, clear_conn, drop_conn, Step, sets, clears, closes, Reach,
  stay, next,
}

-- An open client has not signalled; a closed one has once, and holds no connection.
record IsOrderly (c : Client) : Type 0 where
  signals : c.signals ≡ (if c.closed then 1 else 0)
  conn : (if c.closed then c.conn else none) ≡ none

new-IsOrderly : (cfg : Config) (c : Client) → new cfg ≡ ok c → IsOrderly c
unfolding new
new-IsOrderly cfg c e = ground arith

Step-IsOrderly : {c d : Client} → Step c d → IsOrderly c → IsOrderly d
unfolding set_conn clear_conn drop_conn close
Step-IsOrderly {c} (sets k) o = ground arith
Step-IsOrderly {c} (clears k) o = ground arith
Step-IsOrderly {c} closes o = ground arith

Reach-IsOrderly : {c d : Client} → Reach c d → IsOrderly c → IsOrderly d
Reach-IsOrderly stay o = o
Reach-IsOrderly (next r st) o = Step-IsOrderly st (Reach-IsOrderly r o)

-- A client that is closed stays without a connection: whatever the order in which its session sets
-- and clears connections and `Close` is called, also more than once, behind a close it holds none, its
-- channel was closed exactly once, and a connection that is set then is closed at once.
pub closed_client :
    (cfg : Config) (first c : Client) (k : ℕ)
    → new cfg ≡ ok first
    → Reach first c
    → c.closed ≡ true
    → (c.conn ≡ none)
      × (c.signals ≡ 1)
      × (set_conn k c ≡ record c { closed_conns = k ∷ c.closed_conns })
unfolding set_conn
closed_client cfg first c k e r d =
    let o = Reach-IsOrderly r (new-IsOrderly cfg first e) in
    (ground arith, ground arith, ground arith)
