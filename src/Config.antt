-- ===== src/Config.antt =====
-- src/config.rs: what a JSON configuration says and the validated one. The JSON itself is read by serde,
-- which fills in the defaults; strings and paths are their bytes. What an address is and what a
-- user is called has no part in the validation and is left as bytes.
pub mod Text
pub mod Stream
pub mod Validate
pub mod Acme
pub mod Parts
pub mod Paths
pub mod Valid
pub mod Whole
use rust_xhttp.Common.{ℕ, Bool, true, false, List, [], ◌∷◌, Option, none, some, Bytes, ◌*◌}

-- `i32`
pub data ℤ : Type 0 where
  pos : ℕ → ℤ
  negsuc : ℕ → ℤ

-- `SocketAddr`
pub record SocketAddr : Type 0 where
  pub ip : Bytes
  pub port : ℕ

pub record AcmeConfig : Type 0 where
  pub domains : List Bytes
  pub email : Bytes
  pub directory_url : Bytes
  pub ca_certificate_file : Option Bytes
  pub challenge_listen : SocketAddr
  pub cache_dir : Bytes
  pub renew_before_days : ℕ
  pub renew_check_hours : ℕ
  pub accept_terms : Bool

pub record TlsConfig : Type 0 where
  pub cert : Bytes
  pub key : Bytes
  pub alpn : List Bytes
  pub acme : Option AcmeConfig

pub data UplinkDataPlacement : Type 0 where
  body header cookie auto : UplinkDataPlacement

pub record XhttpConfig : Type 0 where
  pub path : Bytes
  pub host : Bytes
  pub max_each_post_bytes : ℕ
  pub max_buffered_posts : ℕ
  pub session_grace_secs : ℕ
  pub sse_header : Bool
  pub max_header_bytes : ℕ
  pub padding_from : ℕ
  pub padding_to : ℕ
  pub uplink_data_placement : UplinkDataPlacement
  pub uplink_data_key : Bytes

pub record UserConfig : Type 0 where
  pub id : Bytes
  pub email : Bytes
  pub flow : Bytes

pub record VlessConfig : Type 0 where
  pub users : List UserConfig
  pub decryption : Bytes

pub record Limits : Type 0 where
  pub max_sessions : ℕ
  pub max_pending_packets_per_session : ℕ
  pub max_pending_bytes_per_session : ℕ
  pub global_buffer_bytes : ℕ
  pub max_concurrent_target_conns : ℕ
  pub handshake_timeout_seconds : ℕ
  pub target_connect_seconds : ℕ
  pub udp_association_idle_seconds : ℕ

-- `Limits::default`
abbrev pub default_limits : Limits
default_limits = record {
  max_sessions = 65536;
  max_pending_packets_per_session = 30;
  max_pending_bytes_per_session = 16 * 1024 * 1024;
  global_buffer_bytes = 1024 * 1024 * 1024;
  max_concurrent_target_conns = 100000;
  handshake_timeout_seconds = 10;
  target_connect_seconds = 10;
  udp_association_idle_seconds = 60;
}

pub data FallbackMode : Type 0 where
  builtin directory : FallbackMode

pub record SiteConfig : Type 0 where
  pub seed : Bytes
  pub title : Bytes
  pub author : Bytes
  pub description : Bytes
  pub language : Bytes

pub record FallbackConfig : Type 0 where
  pub mode : FallbackMode
  pub dist : Option Bytes
  pub index : Bytes
  pub not_found : Option Bytes
  pub max_file_bytes : ℕ
  pub max_total_bytes : ℕ
  pub site : SiteConfig

pub record TlsCertificateConfig : Type 0 where
  pub certificate_file : Bytes
  pub key_file : Bytes

pub record TlsSettings : Type 0 where
  pub alpn : List Bytes
  pub certificates : List TlsCertificateConfig
  pub acme : Option AcmeConfig

pub record XhttpSettings : Type 0 where
  pub path : Bytes
  pub host : Bytes
  pub sc_max_each_post_bytes : ℕ
  pub sc_max_buffered_posts : ℕ
  pub session_grace_seconds : ℕ
  pub no_sse_header : Bool
  pub server_max_header_bytes : ℕ
  pub x_padding_bytes : Bytes
  pub uplink_data_placement : UplinkDataPlacement
  pub uplink_data_key : Bytes

pub record StreamSettings : Type 0 where
  pub network : Bytes
  pub security : Bytes
  pub tls_settings : Option TlsSettings
  pub xhttp_settings : XhttpSettings

pub record InboundConfig : Type 0 where
  pub tag : Bytes
  pub listen : Bytes
  pub port : ℕ
  pub protocol : Bytes
  -- `settings`
  pub clients : List UserConfig
  pub decryption : Bytes
  pub stream_settings : StreamSettings

pub record ServerConfig : Type 0 where
  pub workers : ℕ
  pub tcp_nodelay : Bool
  pub reuse_port : Bool
  pub backlog : ℤ
  pub tcp_keepalive_seconds : ℕ
  pub graceful_shutdown_seconds : ℕ
  pub limits : Limits

pub record JsonConfig : Type 0 where
  pub loglevel : Bytes
  pub inbounds : List InboundConfig
  pub server : ServerConfig
  pub fallback : FallbackConfig

pub record ListenConfig : Type 0 where
  pub addr : SocketAddr
  pub workers : ℕ
  pub tcp_nodelay : Bool
  pub reuse_port : Bool
  pub backlog : ℤ
  pub tcp_keepalive_secs : ℕ
  pub graceful_shutdown_secs : ℕ

pub record Config : Type 0 where
  pub listen : ListenConfig
  pub tls : Option TlsConfig
  pub xhttp : XhttpConfig
  pub vless : VlessConfig
  pub limits : Limits
  pub log : Bytes
  pub fallback : FallbackConfig

-- `ConfigError::Invalid`, by its message
pub data ConfigError : Type 0 where
  one_inbound unsupported_protocol network_not_xhttp zero_port same_port no_clients : ConfigError
  unsupported_flow tls_settings_without_tls tls_without_settings alpn_not_known : ConfigError
  one_certificate_or_acme unsupported_security terms_not_accepted no_domains : ConfigError
  zero_challenge_port invalid_dns_name invalid_email directory_not_https : ConfigError
  renew_before_days_out_of_range zero_renew_check_hours invalid_range zero_post_limits : ConfigError
  range_out_of_order data_key_required backlog_too_small shutdown_out_of_range : ConfigError
  zero_limit unsafe_index invalid_byte_limits dist_not_for_builtin dist_required : ConfigError
