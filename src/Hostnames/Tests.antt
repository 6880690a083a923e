-- ===== src/Hostnames/Tests.antt =====
-- internal/hostnames/hostnames.go on concrete texts.
use muxbridge.Base.{◌≡◌, ◌↔◌, refl, none, some, codes, arith, same}
use muxbridge.Base.Text.{split, trim_space, to_lower, trim_suffix, split_host_port}
use muxbridge.Hostnames.{
  normalize_host, normalize_domain, validate_label, validate_domain, invalid_character,
  too_few_labels,
}
use muxbridge.Hostnames.Labels.{IsLabel, validate_label_iff}
use muxbridge.Hostnames.Domains.{IsDomain, validate_domain_iff}

demo-IsLabel : IsLabel (codes "demo")
unfolding validate_label same
demo-IsLabel = (validate_label_iff (codes "demo")).0 refl

pub example_com-IsDomain : IsDomain (codes "example.com")
unfolding split validate_label same
example_com-IsDomain = record {
  dotted = omega arith;
  labels = (
    (validate_label_iff (codes "example")).0 refl,
    ((validate_label_iff (codes "com")).0 refl, tt),
  );
}

hyphen_first : validate_label (codes "-a") ≡ some (invalid_character b'-')
unfolding validate_label same
hyphen_first = refl

port_and_case : normalize_host (codes " Demo.Example.com:8443") ≡ codes "demo.example.com"
unfolding normalize_host trim_space to_lower trim_suffix split_host_port
port_and_case = refl

bracketed_address : normalize_host (codes "[::1]:443") ≡ codes "::1"
unfolding normalize_host trim_space to_lower trim_suffix split_host_port
bracketed_address = refl

two_dots : normalize_host (codes "a.b..") ≡ codes "a.b."
unfolding normalize_host trim_space to_lower trim_suffix split_host_port
two_dots = refl

one_label : validate_domain (codes "localhost") ≡ some too_few_labels
unfolding validate_domain normalize_domain normalize_host trim_space to_lower trim_suffix
    split_host_port split same
one_label = refl

validate_label_iff_example : (validate_label (codes "demo") ≡ none) ↔ IsLabel (codes "demo")
validate_label_iff_example = validate_label_iff (codes "demo")

validate_domain_iff_example :
    (validate_domain (codes "Example.com.") ≡ none)
    ↔ IsDomain (normalize_domain (codes "Example.com."))
validate_domain_iff_example = validate_domain_iff (codes "Example.com.")
