-- ===== src/Config/Valid.antt =====
-- src/config.rs: what an accepted configuration satisfies.
use rust_xhttp.Common.{
  ℕ, ◌≤◌, ◌≡◌, ◌≢◌, ◌⊎◌, inl, inr, refl, ap, sym, subst, ◌∙◌, true, false, not, ◌&&◌, ◌||◌, ◌==◌,
  ltb, List, [], ◌∷◌, Option, none, some, Bytes, bytes_eq, bytes_eq-eq, All, Result, ok, err,
  if◌then◌else◌, bind_inv, guard_inv, arith, Bool-cases,
}
use rust_xhttp.Config.{
  ℤ, UplinkDataPlacement, body, header, cookie, auto, XhttpConfig, UserConfig, Limits, FallbackMode,
  builtin, directory, FallbackConfig, XhttpSettings, ServerConfig, ConfigError, unsupported_flow,
  zero_post_limits, data_key_required, backlog_too_small, shutdown_out_of_range, zero_limit,
  unsafe_index, invalid_byte_limits,
}
use rust_xhttp.Config.Text.{is_empty, contains}
use rust_xhttp.Config.Stream.{parse_range, parse_xhttp, is_body, normalize_xhttp}
use rust_xhttp.Config.Validate.{
  at_least_one, validate_server, has, mode_fits, seed_of, validate_fallback, vision, known_flow,
  validate_users,
}
use rust_xhttp.Config.Parts.{InRange, parse_range-InRange}
use rust_xhttp.Config.Paths.{IsNormal, normal_path-IsNormal}

-- The transport: limits, padding, placement and path.
pub record XhttpValid (x : XhttpConfig) : Type 0 where
  pub path_normal : IsNormal x.path
  pub post_limits : (1 ≤ x.max_each_post_bytes) × (1 ≤ x.max_buffered_posts)
  pub padding : InRange (x.padding_from, x.padding_to)
  pub data_key : (x.uplink_data_placement ≡ body) ⊎ (is_empty x.uplink_data_key ≡ false)

pub record ServerValid (backlog : ℤ) (shutdown : ℕ) (l : Limits) : Type 0 where
  pub backlog_positive : at_least_one backlog ≡ true
  pub shutdown_bounds : (1 ≤ shutdown) × (shutdown ≤ 300)
  pub timeouts : (1 ≤ l.handshake_timeout_seconds) × (1 ≤ l.target_connect_seconds)
  pub counts :
      (1 ≤ l.max_sessions) × (1 ≤ l.max_concurrent_target_conns) × (1 ≤ l.global_buffer_bytes)

-- A directory to serve from is given if and only if the mode asks for it.
abbrev pub ModeFits : FallbackMode → Option Bytes → Type 0
ModeFits builtin dist = dist ≡ none
ModeFits directory dist = has dist ≡ true

pub record FallbackValid (f : FallbackConfig) : Type 0 where
  pub index_named : is_empty f.index ≡ false
  pub index_single : (contains f.index b'/' ≡ false) × (contains f.index 92 ≡ false)
  pub index_no_dots : (f.index ≢ b'.' ∷ []) × (f.index ≢ b'.' ∷ b'.' ∷ [])
  pub byte_limits : (1 ≤ f.max_file_bytes) × (f.max_file_bytes ≤ f.max_total_bytes)
  pub mode_given : ModeFits f.mode f.dist
  pub seeded : is_empty f.site.seed ≡ false

abbrev pub IsFlow : UserConfig → Type 0
IsFlow user = (user.flow ≡ []) ⊎ (user.flow ≡ vision)

err_ok : {A : Type 0} {x : ConfigError} {a : A} → ◌≡◌ {A = Result ConfigError A} (err x) (ok a) → ⊥
err_ok e = cc

ok_inj : {A : Type 0} {a b : A} → ◌≡◌ {A = Result ConfigError A} (ok a) (ok b) → a ≡ b
ok_inj e = cc

flow_known : (flow : Bytes) → known_flow flow ≡ true → (flow ≡ []) ⊎ (flow ≡ vision)
flow_known [] e = inl refl
flow_known (b ∷ flow) e = inr (bytes_eq-eq (b ∷ flow) vision e)

pub validate_users-All : (users : List UserConfig) → validate_users users ≡ ok tt → All IsFlow users
unfolding validate_users
validate_users-All [] e = tt
validate_users-All (user ∷ users) e = elim (Bool-cases (known_flow user.flow)) [
  | inl known ↦ (
    flow_known user.flow known,
    validate_users-All users
        (sym (ap (λ b. if b then validate_users users else err unsupported_flow) known) ∙ e),
  )
  | inr other ↦
      absurd (
        err_ok (sym (ap (λ b. if b then validate_users users else err unsupported_flow) other) ∙ e))
]

placement_key :
    (p : UplinkDataPlacement) (key : Bytes)
    → not (not (is_body p) && is_empty key) ≡ true
    → (p ≡ body) ⊎ (is_empty key ≡ false)
placement_key body key e = inl refl
placement_key header key e = inr (ground (arith, e))
placement_key cookie key e = inr (ground (arith, e))
placement_key auto key e = inr (ground (arith, e))

-- The settings of XHTTP, parsed and normalised.
pub xhttp-XhttpValid :
    (raw : XhttpSettings) (parsed x : XhttpConfig)
    → parse_xhttp raw ≡ ok parsed
    → normalize_xhttp parsed ≡ ok x
    → XhttpValid x
unfolding parse_xhttp normalize_xhttp
xhttp-XhttpValid raw parsed x e e' =
    let (range, in_range, made) = bind_inv (parse_range raw.x_padding_bytes) _ parsed e in
    let bounds = parse_range-InRange raw.x_padding_bytes range in_range in
    let (limits, rest) =
      guard_inv (not (parsed.max_each_post_bytes == 0 || parsed.max_buffered_posts == 0))
        zero_post_limits _ x e' in
    let (key, rest') =
      guard_inv
        (not (not (is_body parsed.uplink_data_placement) && is_empty parsed.uplink_data_key))
        data_key_required _ x rest in
    let same = ok_inj made in
    subst XhttpValid (ok_inj rest') (record {
      path_normal = normal_path-IsNormal parsed.path;
      post_limits = (ground (arith, limits), ground (arith, limits));
      padding = subst (λ p. InRange (p.padding_from, p.padding_to)) same bounds;
      data_key = placement_key parsed.uplink_data_placement parsed.uplink_data_key key;
    })

pub validate_server-ServerValid :
    (s : ServerConfig)
    → validate_server s ≡ ok tt
    → ServerValid s.backlog s.graceful_shutdown_seconds s.limits
unfolding validate_server
validate_server-ServerValid s e =
    let (g1, e1) = guard_inv (at_least_one s.backlog) backlog_too_small _ tt e in
    let (g2, e2) =
      guard_inv (not (s.graceful_shutdown_seconds == 0 || ltb 300 s.graceful_shutdown_seconds))
        shutdown_out_of_range _ tt e1 in
    let (g3, _) =
      guard_inv
        (not (
          s.limits.handshake_timeout_seconds == 0
          || s.limits.target_connect_seconds == 0
          || s.limits.max_sessions == 0
          || s.limits.max_concurrent_target_conns == 0
          || s.limits.global_buffer_bytes == 0))
        zero_limit (ok tt) tt e2 in
    record {
      backlog_positive = g1;
      shutdown_bounds = (ground (arith, g2), ground (arith, g2));
      timeouts = (ground (arith, g3), ground (arith, g3));
      counts = (ground (arith, g3), ground (arith, g3), ground (arith, g3));
    }

mode_fits-ModeFits :
    (mode : FallbackMode) (dist : Option Bytes) → mode_fits mode dist ≡ ok tt → ModeFits mode dist
mode_fits-ModeFits builtin none e = refl
mode_fits-ModeFits builtin (some d) e = absurd (err_ok e)
mode_fits-ModeFits directory none e = absurd (err_ok e)
mode_fits-ModeFits directory (some d) e = refl

seed_of-nonempty :
    (seed host path : Bytes) → is_empty path ≡ false → is_empty (seed_of seed host path) ≡ false
seed_of-nonempty [] [] path h = h
seed_of-nonempty [] (b ∷ host) path h = refl
seed_of-nonempty (b ∷ seed) host path h = refl

starts_nonempty : (path : Bytes) → IsNormal path → is_empty path ≡ false
starts_nonempty [] (start, ends) = absurd cc
starts_nonempty (b ∷ path) n = refl

pub validate_fallback-FallbackValid :
    (raw f : FallbackConfig) (x : XhttpConfig)
    → IsNormal x.path
    → validate_fallback raw x ≡ ok f
    → FallbackValid f
unfolding validate_fallback
validate_fallback-FallbackValid raw f x normal e =
    let index = raw.index in
    let (g1, e1) =
      guard_inv
        (not (
          is_empty index
          || contains index b'/'
          || contains index 92
          || bytes_eq index (b'.' ∷ [])
          || bytes_eq index (b'.' ∷ b'.' ∷ [])))
        unsafe_index _ f e in
    let (g2, e2) =
      guard_inv (not (raw.max_file_bytes == 0 || ltb raw.max_total_bytes raw.max_file_bytes))
        invalid_byte_limits _ f e1 in
    let (_, g3, e3) = bind_inv (mode_fits raw.mode raw.dist) _ f e2 in
    let one_dot : bytes_eq index (b'.' ∷ []) ≡ false = ground (arith, g1) in
    let two_dots : bytes_eq index (b'.' ∷ b'.' ∷ []) ≡ false = ground (arith, g1) in
    subst FallbackValid (ok_inj e3) (record {
      index_named = ground (arith, g1);
      index_single = (ground (arith, g1), ground (arith, g1));
      index_no_dots = (
        (λ same. true_false (sym (ap (λ i. bytes_eq i (b'.' ∷ [])) same) ∙ one_dot)),
        (λ same. true_false (sym (ap (λ i. bytes_eq i (b'.' ∷ b'.' ∷ [])) same) ∙ two_dots)),
      );
      byte_limits = (ground (arith, g2), ground (arith, g2));
      mode_given = mode_fits-ModeFits raw.mode raw.dist g3;
      seeded = seed_of-nonempty raw.site.seed x.host x.path (starts_nonempty x.path normal);
    })
  where
    true_false : true ≡ false → ⊥
    true_false e = cc
