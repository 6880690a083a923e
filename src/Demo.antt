-- ===== src/Demo.antt =====
-- cmd/demo-client/main.go: the configuration of the demo client, the address that it shows, and the
-- events of its stream.
pub mod Events
pub mod Tests
use muxbridge.Base.{
  Bool, Option, none, some, List, [], ◌∷◌, ◌++◌, if◌then◌else◌, Bytes, codes, same,
}
use muxbridge.Base.Result.{Result, ok, err}
use muxbridge.Base.Text.{trim_space, split, split_host_port}
use muxbridge.Hostnames.{normalize_domain, validate_domain, subdomain}
use muxbridge.Edge.Config.{parse_bool_string}
use muxbridge.Perf.Options.{default_string}

pub record DemoConfig : Type 0 where
  pub public_domain : Bytes
  pub edge_addr : Bytes
  pub token : Bytes
  pub debug : Bool

pub data DemoError : Type 0 where
  flag_error : Bytes → DemoError
  no_public_domain invalid_public_domain : DemoError

-- The configuration before the flags.
unfoldable pub demo_defaults : (Bytes → Bytes) → DemoConfig
demo_defaults getenv = record {
  public_domain = getenv (codes "MUXBRIDGE_PUBLIC_DOMAIN");
  edge_addr = getenv (codes "MUXBRIDGE_EDGE_ADDR");
  token = default_string (getenv (codes "MUXBRIDGE_CLIENT_TOKEN")) (codes "demo-token");
  debug = parse_bool_string (getenv (codes "MUXBRIDGE_DEBUG"));
}

unfoldable pub trim_config : DemoConfig → DemoConfig
trim_config c = record c {
  public_domain = trim_space c.public_domain;
  edge_addr = trim_space c.edge_addr;
  token = trim_space c.token;
}

-- The edge's address, from the domain where none is given.
unfoldable pub find_edge : DemoConfig → Result DemoError DemoConfig
find_edge c =
    let domain = normalize_domain c.public_domain in
    if same c.edge_addr []
    then (if same domain [] then err no_public_domain else (elim (validate_domain domain) [
      | some e ↦ err invalid_public_domain
      | none ↦ ok (record c {
        public_domain = domain;
        edge_addr = subdomain (codes "edge") domain ++ codes ":443";
      })
    ]))
    else ok c

-- `loadConfig`; `parse` is `flag`, from the configuration with the defaults and the arguments.
unfoldable pub load_demo_config :
    (DemoConfig → List Bytes → Result Bytes DemoConfig)
    → List Bytes
    → (Bytes → Bytes)
    → Result DemoError DemoConfig
load_demo_config parse args getenv = elim (parse (demo_defaults getenv) args) [
  | err e ↦ err (flag_error e)
  | ok c ↦ find_edge (trim_config c)
]

unfoldable pub remote_ip_from_addr : Bytes → Bytes
remote_ip_from_addr remote_addr =
    let addr = trim_space remote_addr in
    if same addr [] then codes "unknown" else (elim (split_host_port addr) [
      | none ↦ addr
      | some (host, port) ↦ if same host [] then addr else host
    ])

unfoldable pub data_lines : List Bytes → Bytes
data_lines [] = []
data_lines (line ∷ lines) = codes "data: " ++ (line ++ b'\n' ∷ data_lines lines)

unfoldable pub write_sse_event : Bytes → Bytes → Bytes
unfolding data_lines
write_sse_event event_name text =
    (if same event_name [] then [] else codes "event: " ++ (event_name ++ b'\n' ∷ []))
    ++ (data_lines (split b'\n' text) ++ b'\n' ∷ [])
