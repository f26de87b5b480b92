-- ===== src/Config/Whole.antt =====
-- src/config.rs: what an accepted configuration satisfies as a whole.
use rust_xhttp.Common.{
  ◌≡◌, ◌≢◌, subst, false, not, ◌==◌, [], ◌∷◌, All, Result, ok, bind_inv, guard_inv, arith,
}
use rust_xhttp.Config.{
  Config, JsonConfig, ConfigError, unsupported_protocol, network_not_xhttp, zero_port, same_port,
  no_clients,
}
use rust_xhttp.Config.Stream.{parse_tls, parse_xhttp, normalize_xhttp}
use rust_xhttp.Config.Validate.{
  validate_server, validate_fallback, validate_users, same_letters, challenge_port, is_port,
  no_user, only_inbound, try_from,
}
use rust_xhttp.Config.Parts.{TlsValid, parse_tls-TlsValid}
use rust_xhttp.Config.Valid.{
  XhttpValid, ServerValid, FallbackValid, IsFlow, xhttp-XhttpValid, validate_users-All,
  validate_server-ServerValid, validate_fallback-FallbackValid,
}

pub record IsValid (c : Config) : Type 0 where
  pub port : c.listen.addr.port ≢ 0
  pub tls : TlsValid c.tls
  pub ports_differ : is_port (challenge_port c.tls) c.listen.addr.port ≡ false
  pub some_user : no_user c.vless.users ≡ false
  pub flows : All IsFlow c.vless.users
  pub xhttp : XhttpValid c.xhttp
  pub server : ServerValid c.listen.backlog c.listen.graceful_shutdown_secs c.limits
  pub fallback : FallbackValid c.fallback

ok_inj : {A : Type 0} {a b : A} → ◌≡◌ {A = Result ConfigError A} (ok a) (ok b) → a ≡ b
ok_inj e = cc

-- Every configuration that is accepted has a port, and another one for ACME; known protocols and a
-- valid ACME object for TLS; users, with known flows only; a path between slashes, non-zero limits,
-- a padding range in order and a key where payloads do not go into the body; positive server
-- limits and a shutdown of 1 to 300 seconds; and a fallback with one safe index name, byte limits
-- in order, a directory exactly in the mode for it, and a seed.
pub try_from-IsValid : (raw : JsonConfig) (c : Config) → try_from raw ≡ ok c → IsValid c
unfolding try_from
try_from-IsValid raw c e =
    let (inbound, _, e0) = bind_inv (only_inbound raw.inbounds) _ c e in
    let (_, e1) =
      guard_inv (same_letters inbound.protocol (b'v' ∷ b'l' ∷ b'e' ∷ b's' ∷ b's' ∷ []))
        unsupported_protocol _ c e0 in
    let (_, e2) =
      guard_inv
        (same_letters inbound.stream_settings.network (b'x' ∷ b'h' ∷ b't' ∷ b't' ∷ b'p' ∷ []))
        network_not_xhttp _ c e1 in
    let (g3, e3) = guard_inv (not (inbound.port == 0)) zero_port _ c e2 in
    let (tls, g4, e4) = bind_inv (parse_tls inbound.stream_settings) _ c e3 in
    let (g5, e5) = guard_inv (not (is_port (challenge_port tls) inbound.port)) same_port _ c e4 in
    let (parsed, g6, e6) = bind_inv (parse_xhttp inbound.stream_settings.xhttp_settings) _ c e5 in
    let (g7, e7) = guard_inv (not (no_user inbound.clients)) no_clients _ c e6 in
    let (_, g8, e8) = bind_inv (validate_users inbound.clients) _ c e7 in
    let (xhttp, g9, e9) = bind_inv (normalize_xhttp parsed) _ c e8 in
    let (_, g10, e10) = bind_inv (validate_server raw.server) _ c e9 in
    let (fallback, g11, e11) = bind_inv (validate_fallback raw.fallback xhttp) _ c e10 in
    let transport = xhttp-XhttpValid inbound.stream_settings.xhttp_settings parsed xhttp g6 g9 in
    subst IsValid (ok_inj e11) (record {
      port = ground (arith, g3);
      tls = parse_tls-TlsValid inbound.stream_settings tls g4;
      ports_differ = ground (arith, g5);
      some_user = ground (arith, g7);
      flows = validate_users-All inbound.clients g8;
      xhttp = transport;
      server = validate_server-ServerValid raw.server g10;
      fallback =
          validate_fallback-FallbackValid raw.fallback fallback xhttp transport.path_normal g11;
    })
