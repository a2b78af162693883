-- ===== src/Examples/Config.antt =====
-- lib/config/gateway_config.cpp: the default configuration and two scanners.
use gathra_gateway.Prelude.{◌+◌, ◌-◌, ◌≡◌, refl, true, false, ◌&&◌, some, ltb, leb}
use gathra_gateway.Text.{
  codes, alphanumeric, strnlen, starts_with, strncmp_eq, has_char, split_char, iscntrl, isspace,
}
use gathra_gateway.Protocol.Header.{node_id_valid}
use gathra_gateway.Config.{
  Floats, GatewayConfig, ConfigValidationCode, set_defaults, default_radio, validate_config,
  gateway_id_valid, wifi_invalid, radio_invalid, valid_bandwidth, near_one, identifier_valid,
  all_identifier_bytes,
}
use gathra_gateway.Config.Url.{
  decimal_port_valid, dns_host_valid, host_from, backend_url_valid, bounded_c_string,
  authority_valid, contains_control_or_space,
}
use gathra_gateway.Config.Url.Hosts.{
  all_digits, decimal, words, is_label, all_labels, decimal_port_valid-decimal,
  dns_host_valid-words,
}

decimal_port_valid-decimal_example : decimal_port_valid (codes "8443") ≡ (
    all_digits (codes "8443")
    && (ltb 0 (decimal 0 (codes "8443")) && leb (decimal 0 (codes "8443")) 65_535))
decimal_port_valid-decimal_example = decimal_port_valid-decimal (codes "8443")

dns_host_valid-words_example : dns_host_valid (codes "api.gathra-1.id") ≡ (
    is_label (words (codes "api.gathra-1.id")).0 && all_labels (words (codes "api.gathra-1.id")).1)
dns_host_valid-words_example = dns_host_valid-words (codes "api.gathra-1.id")

accepted_host : dns_host_valid (codes "api.gathra-1.id") ≡ true
unfolding dns_host_valid host_from alphanumeric
accepted_host = refl

-- 2^32 + 80 in digits is no port.
long_port : decimal_port_valid (codes "4294967376") ≡ false
unfolding decimal_port_valid
long_port = refl

hyphen_end : dns_host_valid (codes "api-.id") ≡ false
unfolding dns_host_valid host_from alphanumeric
hyphen_end = refl

-- Floats as thousandths.
abbrev pub thousandths : Floats
thousandths = record {
  literal = λ n. n;
  less = ltb;
  finite = λ n. true;
  near = λ a b e. ltb (a - b + (b - a)) e;
}

abbrev pub defaults : GatewayConfig
defaults = set_defaults thousandths (some (codes "GTH-GW-1"))

pub defaults_valid : validate_config thousandths defaults ≡ ConfigValidationCode.ok
unfolding validate_config set_defaults default_radio gateway_id_valid wifi_invalid radio_invalid
    valid_bandwidth near_one identifier_valid all_identifier_bytes alphanumeric strnlen
    backend_url_valid bounded_c_string authority_valid contains_control_or_space starts_with
    strncmp_eq has_char split_char iscntrl isspace dns_host_valid host_from node_id_valid
defaults_valid = refl
