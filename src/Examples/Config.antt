-- ===== src/Examples/Config.antt =====
-- Runs of src/config.rs.
use rust_xhttp.Common.{ℕ, ◌≡◌, refl, true, false, [], ◌∷◌, none, some, ok, err}
use rust_xhttp.Config.{
  AcmeConfig, pos, Config, JsonConfig, XhttpSettings, InboundConfig, body, builtin, default_limits,
  same_port,
}
use rust_xhttp.Config.Text.{trim, trim_front, parse_u32}
use rust_xhttp.Config.Stream.{
  acme_tls, parse_range, parse_xhttp, parse_tls, tls_of, validate_acme, validate_domains,
  normalize_xhttp, h2, https,
}
use rust_xhttp.Config.Validate.{
  validate_server, validate_fallback, validate_users, vision, try_from,
}
use rust_xhttp.Config.Whole.{IsValid, try_from-IsValid}
use rust_xhttp.Xhttp.Padding.{split_once}
use rust_xhttp.Xhttp.Request.{parse_u64, parse_digits, strip_prefix}

abbrev settings : XhttpSettings
settings = record {
  path = b'x' ∷ [];
  host = [];
  sc_max_each_post_bytes = 100;
  sc_max_buffered_posts = 3;
  session_grace_seconds = 30;
  no_sse_header = false;
  server_max_header_bytes = 8192;
  x_padding_bytes = b'1' ∷ b'0' ∷ 32 ∷ b'-' ∷ b'2' ∷ b'0' ∷ [];
  uplink_data_placement = body;
  uplink_data_key = [];
}

abbrev acme : ℕ → AcmeConfig
acme challenge_port = record {
  domains = (b'a' ∷ b'.' ∷ b'b' ∷ []) ∷ [];
  email = b'a' ∷ b'@' ∷ b'b' ∷ [];
  directory_url = https;
  ca_certificate_file = none;
  challenge_listen = record { ip = []; port = challenge_port };
  cache_dir = b'/' ∷ b'c' ∷ [];
  renew_before_days = 30;
  renew_check_hours = 12;
  accept_terms = true;
}

abbrev inbound : ℕ → InboundConfig
inbound challenge_port = record {
  tag = [];
  listen = [];
  port = 443;
  protocol = b'V' ∷ b'l' ∷ b'e' ∷ b's' ∷ b's' ∷ [];
  clients = record { id = []; email = []; flow = vision } ∷ [];
  decryption = [];
  stream_settings = record {
    network = b'x' ∷ b'h' ∷ b't' ∷ b't' ∷ b'p' ∷ [];
    security = b't' ∷ b'l' ∷ b's' ∷ [];
    tls_settings =
        some (record { alpn = h2 ∷ []; certificates = []; acme = some (acme challenge_port) });
    xhttp_settings = settings;
  };
}

abbrev raw : ℕ → JsonConfig
raw challenge_port = record {
  loglevel = [];
  inbounds = inbound challenge_port ∷ [];
  server = record {
    workers = 0;
    tcp_nodelay = true;
    reuse_port = true;
    backlog = pos 4096;
    tcp_keepalive_seconds = 300;
    graceful_shutdown_seconds = 30;
    limits = default_limits;
  };
  fallback = record {
    mode = builtin;
    dist = none;
    index = b'i' ∷ [];
    not_found = none;
    max_file_bytes = 8;
    max_total_bytes = 8;
    site = record { seed = []; title = []; author = []; description = []; language = [] };
  };
}

-- The path gets its slashes, the range loses its space, and the seed is the path.
abbrev accepted : Config
accepted = record {
  listen = record {
    addr = record { ip = []; port = 443 };
    workers = 0;
    tcp_nodelay = true;
    reuse_port = true;
    backlog = pos 4096;
    tcp_keepalive_secs = 300;
    graceful_shutdown_secs = 30;
  };
  tls = some (acme_tls (h2 ∷ []) (acme 80));
  xhttp = record {
    path = b'/' ∷ b'x' ∷ b'/' ∷ [];
    host = [];
    max_each_post_bytes = 100;
    max_buffered_posts = 3;
    session_grace_secs = 30;
    sse_header = true;
    max_header_bytes = 8192;
    padding_from = 10;
    padding_to = 20;
    uplink_data_placement = body;
    uplink_data_key = [];
  };
  vless = record { users = record { id = []; email = []; flow = vision } ∷ []; decryption = [] };
  limits = default_limits;
  log = [];
  fallback = record {
    mode = builtin;
    dist = none;
    index = b'i' ∷ [];
    not_found = none;
    max_file_bytes = 8;
    max_total_bytes = 8;
    site = record {
      seed = b'/' ∷ b'x' ∷ b'/' ∷ [];
      title = [];
      author = [];
      description = [];
      language = [];
    };
  };
}

accepts : try_from (raw 80) ≡ ok accepted
unfolding try_from parse_tls tls_of validate_acme validate_domains strip_prefix parse_xhttp
    parse_range split_once trim trim_front parse_u32 parse_u64 parse_digits validate_users
    normalize_xhttp validate_server validate_fallback
accepts = refl

try_from-IsValid_example : IsValid accepted
try_from-IsValid_example = try_from-IsValid (raw 80) accepted accepts

-- The port of the inbound is not free for the challenge.
refuses : try_from (raw 443) ≡ err same_port
unfolding try_from parse_tls tls_of validate_acme validate_domains strip_prefix
refuses = refl
