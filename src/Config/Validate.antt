-- ===== src/Config/Validate.antt =====
-- src/config.rs: the server and the fallback, and the configuration as a whole.
use rust_xhttp.Common.{
  ℕ, Bool, true, false, not, ◌||◌, ◌==◌, ltb, List, [], ◌∷◌, Option, none, some, Bytes, bytes_eq,
  Result, ok, err, ◌>>=◌, ◌>>◌, guard, if◌then◌else◌,
}
use rust_xhttp.Config.{
  ℤ, TlsConfig, XhttpConfig, UserConfig, FallbackMode, FallbackConfig, InboundConfig, ServerConfig,
  JsonConfig, Config, ConfigError, pos, negsuc, builtin, directory, one_inbound,
  unsupported_protocol, network_not_xhttp, zero_port, same_port, no_clients, unsupported_flow,
  backlog_too_small, shutdown_out_of_range, zero_limit, unsafe_index, invalid_byte_limits,
  dist_not_for_builtin, dist_required,
}
use rust_xhttp.Config.Text.{is_empty, contains, to_ascii_lowercase}
use rust_xhttp.Config.Stream.{parse_tls, parse_xhttp, normalize_xhttp}

abbrev pub at_least_one : ℤ → Bool
at_least_one (pos n) = not (n == 0)
at_least_one (negsuc n) = false

unfoldable pub validate_server : ServerConfig → Result ConfigError (Unit {0})
validate_server server =
    let seconds = server.graceful_shutdown_seconds in
    let limits = server.limits in
    do
      guard (at_least_one server.backlog) backlog_too_small
      guard (not (seconds == 0 || ltb 300 seconds)) shutdown_out_of_range
      guard
          (not (
            limits.handshake_timeout_seconds == 0
            || limits.target_connect_seconds == 0
            || limits.max_sessions == 0
            || limits.max_concurrent_target_conns == 0
            || limits.global_buffer_bytes == 0))
          zero_limit
      ok tt

abbrev pub has : Option Bytes → Bool
has none = false
has (some path) = true

abbrev pub mode_fits : FallbackMode → Option Bytes → Result ConfigError (Unit {0})
mode_fits builtin dist = guard (not (has dist)) dist_not_for_builtin
mode_fits directory dist = guard (has dist) dist_required

-- The seed of the site: its own, or else the host or the path.
abbrev pub seed_of : Bytes → Bytes → Bytes → Bytes
seed_of seed host path = if is_empty seed then (if is_empty host then path else host) else seed

unfoldable pub validate_fallback : FallbackConfig → XhttpConfig → Result ConfigError FallbackConfig
validate_fallback fallback xhttp =
    let index = fallback.index in
    do
      guard
          (not (
            is_empty index
            || contains index b'/'
            || contains index 92
            || bytes_eq index (b'.' ∷ [])
            || bytes_eq index (b'.' ∷ b'.' ∷ [])))
          unsafe_index
      guard
          (not
            (fallback.max_file_bytes == 0 || ltb fallback.max_total_bytes fallback.max_file_bytes))
          invalid_byte_limits
      mode_fits fallback.mode fallback.dist
      ok (record fallback {
        site = record fallback.site { seed = seed_of fallback.site.seed xhttp.host xhttp.path };
      })

abbrev pub vision : Bytes
vision =
    b'x' ∷ b't' ∷ b'l' ∷ b's' ∷ b'-' ∷ b'r' ∷ b'p' ∷ b'r' ∷ b'x' ∷ b'-' ∷ b'v' ∷ b'i' ∷ b's' ∷ b'i'
    ∷ b'o' ∷ b'n' ∷ []

abbrev pub known_flow : Bytes → Bool
known_flow flow = is_empty flow || bytes_eq flow vision

unfoldable pub validate_users : List UserConfig → Result ConfigError (Unit {0})
validate_users [] = ok tt
validate_users (user ∷ users) =
    let later = validate_users users in if known_flow user.flow then later else err unsupported_flow

-- `==` without the case of ASCII letters
abbrev pub same_letters : Bytes → Bytes → Bool
same_letters a b = bytes_eq (to_ascii_lowercase a) (to_ascii_lowercase b)

abbrev pub challenge_port : Option TlsConfig → Option ℕ
challenge_port none = none
challenge_port (some tls) = elim tls.acme [
  | none ↦ none
  | some acme ↦ some acme.challenge_listen.port
]

abbrev pub is_port : Option ℕ → ℕ → Bool
is_port none port = false
is_port (some p) port = p == port

abbrev pub no_user : List UserConfig → Bool
no_user [] = true
no_user (user ∷ users) = false

abbrev pub only_inbound : List InboundConfig → Result ConfigError InboundConfig
only_inbound (inbound ∷ []) = ok inbound
only_inbound _ = err one_inbound

-- `Config::try_from`
unfoldable pub try_from : JsonConfig → Result ConfigError Config
try_from raw = do
  inbound ← only_inbound raw.inbounds
  guard (same_letters inbound.protocol (b'v' ∷ b'l' ∷ b'e' ∷ b's' ∷ b's' ∷ [])) unsupported_protocol
  guard (same_letters inbound.stream_settings.network (b'x' ∷ b'h' ∷ b't' ∷ b't' ∷ b'p' ∷ []))
      network_not_xhttp
  guard (not (inbound.port == 0)) zero_port
  tls ← parse_tls inbound.stream_settings
  guard (not (is_port (challenge_port tls) inbound.port)) same_port
  xhttp_raw ← parse_xhttp inbound.stream_settings.xhttp_settings
  guard (not (no_user inbound.clients)) no_clients
  validate_users inbound.clients
  xhttp ← normalize_xhttp xhttp_raw
  validate_server raw.server
  fallback ← validate_fallback raw.fallback xhttp
  ok (record {
    listen = record {
      addr = record { ip = inbound.listen; port = inbound.port };
      workers = raw.server.workers;
      tcp_nodelay = raw.server.tcp_nodelay;
      reuse_port = raw.server.reuse_port;
      backlog = raw.server.backlog;
      tcp_keepalive_secs = raw.server.tcp_keepalive_seconds;
      graceful_shutdown_secs = raw.server.graceful_shutdown_seconds;
    };
    tls = tls;
    xhttp = xhttp;
    vless = record { users = inbound.clients; decryption = inbound.decryption };
    limits = raw.server.limits;
    log = raw.loglevel;
    fallback = fallback;
  })
