-- ===== src/Server/State/Construction.antt =====
-- server/server.go, `New`: when it succeeds, and what it makes.
use muxbridge.Base.{◌≡◌, none, arith}
use muxbridge.Base.Result.{ok}
use muxbridge.Hostnames.{normalize_domain, validate_domain}
use muxbridge.Server.State.{Config, Server, Tables, no_tables, add_users, assemble, new}

-- A server is made only from a valid domain and a table of users that is accepted.
pub new-eq-ok :
    (cfg : Config) (srv : Server)
    → new cfg ≡ ok srv
    → (t : Tables) × (validate_domain (normalize_domain cfg.public_domain) ≡ none)
      × (add_users (normalize_domain cfg.public_domain) cfg.token_users no_tables ≡ ok t)
      × (srv ≡ assemble cfg (normalize_domain cfg.public_domain) t)
unfolding new
new-eq-ok cfg srv e = ground arith
