-- ===== src/Demo/Tests.antt =====
-- An event of two lines, a configuration and addresses.
use muxbridge.Base.{
  ℕ, Bool, true, not, ◌&&◌, ◌==◌, ◌≡◌, refl, List, [], ◌∷◌, ◌++◌, Bytes, codes, same, arith,
}
use muxbridge.Base.Result.{Result, ok, err}
use muxbridge.Base.Text.{trim_space, split_host_port, trim_suffix, to_lower}
use muxbridge.Base.Text.Quiet.{Lacks}
use muxbridge.Hostnames.{normalize_domain, normalize_host}
use muxbridge.Demo.{
  DemoConfig, no_public_domain, load_demo_config, demo_defaults, trim_config, find_edge,
  write_sse_event,
}
use muxbridge.Demo.Events.{read_stream, read_stream-write_sse_event}

abbrev two_lines : Bytes
two_lines = codes "hi" ++ b'\n' ∷ codes "you"

lacks_byte : ℕ → Bytes → Bool
lacks_byte b [] = true
lacks_byte b (c ∷ s) = not (c == b) && lacks_byte b s

lacks_byte-Lacks : (b : ℕ) (s : Bytes) → lacks_byte b s ≡ true → Lacks b s
unfolding lacks_byte
lacks_byte-Lacks b [] e = tt
lacks_byte-Lacks b (c ∷ s) e = ground (arith, lacks_byte-Lacks b s)

read_stream-write_sse_event_example :
    read_stream (write_sse_event (codes "tick") two_lines) ≡ (codes "tick", two_lines)
unfolding lacks_byte
read_stream-write_sse_event_example =
    read_stream-write_sse_event (codes "tick") two_lines
      (lacks_byte-Lacks b'\n' (codes "tick") refl) (lacks_byte-Lacks b'\r' (codes "tick") refl)
      (lacks_byte-Lacks b'\r' two_lines refl)

abbrev keep_defaults : DemoConfig → List Bytes → Result Bytes DemoConfig
keep_defaults c args = ok c

abbrev empty_env : Bytes → Bytes
empty_env key = []

load_demo_config_test : load_demo_config keep_defaults [] empty_env ≡ err no_public_domain
unfolding load_demo_config demo_defaults trim_config find_edge same trim_space normalize_domain
    normalize_host trim_suffix split_host_port to_lower
load_demo_config_test = refl
