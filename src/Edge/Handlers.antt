-- ===== src/Edge/Handlers.antt =====
-- cmd/edge/main.go: which handler answers a request on the HTTPS listener, the redirect of the HTTP
-- listener, and the helpers of the start and the end of the program.
pub mod Routes
pub mod Protocols
pub mod Tests
use muxbridge.Base.{
  ℕ, Bool, true, false, not, ◌&&◌, ◌||◌, Option, none, some, List, [], ◌∷◌, ◌++◌, ◌==◌,
  if◌then◌else◌, Bytes, codes, same,
}
use muxbridge.Base.Text.{has_prefix}
use muxbridge.Hostnames.{normalize_host}
use muxbridge.Headers.{Headers, header_get}

-- What the handlers read of an `http.Request`; `uri` is `r.URL.RequestURI()`.
pub record Request : Type 0 where
  pub host : Bytes
  pub proto_major : ℕ
  pub path : Bytes
  pub uri : Bytes
  pub header : Headers

-- The handler that a request is given to.
pub data Target : Type 0 where
  to_grpc to_pprof to_status to_public to_not_found : Target

unfoldable pub is_grpc_request : Request → Bool
is_grpc_request r =
    r.proto_major == 2
    && has_prefix (header_get (codes "Content-Type") r.header) (codes "application/grpc")

unfoldable pub is_pprof_path : Bytes → Bool
is_pprof_path path =
    same path (codes "/pprof") || same path (codes "/pprof/") || has_prefix path (codes "/pprof/")

-- The `switch` of `newHTTPSHandler`; `has_pprof` is `pprofHandler != nil`.
unfoldable pub https_handler : Bytes → Bytes → (Bytes → Bool) → Bool → Request → Target
https_handler public_domain edge_domain is_public_host has_pprof r =
    let host = normalize_host r.host in
    if same host edge_domain && is_grpc_request r
    then to_grpc
    else if same host edge_domain && has_pprof && is_pprof_path r.path
    then to_pprof
    else if same host edge_domain
    then to_not_found
    else if same host public_domain
    then to_status
    else if is_public_host host
    then to_public
    else to_not_found

-- What the handler of `newPprofHandler` does with a path: it redirects, or serves another path.
pub data Pprof : Type 0 where
  redirects_to serves : Bytes → Pprof

-- `strings.TrimPrefix`
unfoldable pub trim_prefix : Bytes → Bytes → Bytes
trim_prefix s [] = s
trim_prefix [] (p ∷ ps) = []
trim_prefix (c ∷ s) (p ∷ ps) = if has_prefix (c ∷ s) (p ∷ ps) then trim_prefix s ps else c ∷ s

unfoldable pub or_slash : Bytes → Bytes
or_slash suffix = if same suffix [] then codes "/" else suffix

unfoldable pub pprof_handler : Bytes → Pprof
unfolding or_slash
pprof_handler path =
    if same path (codes "/pprof")
    then redirects_to (codes "/pprof/")
    else serves (codes "/debug/pprof" ++ or_slash (trim_prefix path (codes "/pprof")))

-- The target of `redirectToHTTPS`.
unfoldable pub redirect_target : Request → Bytes
redirect_target r = codes "https://" ++ (normalize_host r.host ++ r.uri)

unfoldable pub is_among : Bytes → List Bytes → Bool
is_among v [] = false
is_among v (x ∷ xs) = same x v || is_among v xs

-- The second loop of `appendMissing`: the values to append, given those that are present.
unfoldable pub missing : List Bytes → List Bytes → List Bytes
missing present [] = []
missing present (v ∷ vs) =
    let skipped = missing present vs in
    let appended = v ∷ missing (v ∷ present) vs in if is_among v present then skipped else appended

unfoldable pub append_missing : List Bytes → List Bytes → List Bytes
append_missing existing values = existing ++ missing existing values

-- The errors that `http.Server.Serve` and `Shutdown` end with.
pub data ServeError : Type 0 where
  server_closed : ServeError
  other_error : Bytes → ServeError

-- `serveOnce`, from what `serve` returns.
unfoldable pub serve_once : Option ServeError → Option Bytes
serve_once none = none
serve_once (some server_closed) = none
serve_once (some (other_error e)) = some e

first_error : Option Bytes → Option ServeError → Option Bytes
unfolding serve_once
first_error (some e) result = some e
first_error none result = serve_once result

-- The loop of `shutdownServers`; a server is what its `Shutdown` returns, `none` a nil server.
unfoldable pub shutdown_from : Option Bytes → List (Option (Option ServeError)) → Option Bytes
unfolding first_error
shutdown_from first [] = first
shutdown_from first (none ∷ servers) = shutdown_from first servers
shutdown_from first (some result ∷ servers) = shutdown_from (first_error first result) servers

unfoldable pub shutdown_servers : List (Option (Option ServeError)) → Option Bytes
shutdown_servers servers = shutdown_from none servers
