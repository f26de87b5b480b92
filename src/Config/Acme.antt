-- ===== src/Config/Acme.antt =====
-- src/config.rs: what an accepted ACME object satisfies.
use rust_xhttp.Common.{
  ◌≤◌, ◌<◌, ◌≡◌, ◌≢◌, inl, inr, ap, sym, ◌∙◌, true, false, not, ◌||◌, ◌==◌, leb, List, [], ◌∷◌,
  Bytes, All, Result, ok, err, if◌then◌else◌, bind_inv, guard_inv, arith, Bool-cases,
}
use rust_xhttp.Config.{
  AcmeConfig, ConfigError, invalid_dns_name, terms_not_accepted, no_domains, zero_challenge_port,
  invalid_email, directory_not_https, renew_before_days_out_of_range, zero_renew_check_hours,
}
use rust_xhttp.Config.Text.{contains, starts_with}
use rust_xhttp.Config.Stream.{bad_domain, validate_domains, https, no_domain, validate_acme}

-- An ACME object that is accepted.
pub record AcmeValid (acme : AcmeConfig) : Type 0 where
  pub terms : acme.accept_terms ≡ true
  pub some_domain : no_domain acme.domains ≡ false
  pub challenge_port : acme.challenge_listen.port ≢ 0
  pub domains_good : All (λ d. bad_domain d ≡ false) acme.domains
  pub email_good : contains acme.email b'@' ≡ true
  pub directory_https : starts_with acme.directory_url https ≡ true
  pub renew_days : (1 ≤ acme.renew_before_days) × (acme.renew_before_days < 90)
  pub check_hours : 1 ≤ acme.renew_check_hours

validate_domains-All :
    (domains : List Bytes)
    → validate_domains domains ≡ ok tt
    → All (λ d. bad_domain d ≡ false) domains
unfolding validate_domains
validate_domains-All [] e = tt
validate_domains-All (d ∷ domains) e = elim (Bool-cases (bad_domain d)) [
  | inl bad ↦ absurd (
      err_ok (sym (ap (λ b. if b then err invalid_dns_name else validate_domains domains) bad) ∙ e))
  | inr good ↦ (
    good,
    validate_domains-All domains
        (sym (ap (λ b. if b then err invalid_dns_name else validate_domains domains) good) ∙ e),
  )
]
  where
    err_ok : {x : ConfigError} → ◌≡◌ {A = Result ConfigError (Unit {0})} (err x) (ok tt) → ⊥
    err_ok e = cc

pub validate_acme-AcmeValid : (acme : AcmeConfig) → validate_acme acme ≡ ok tt → AcmeValid acme
unfolding validate_acme
validate_acme-AcmeValid acme e =
    let (g1, e1) = guard_inv acme.accept_terms terms_not_accepted _ tt e in
    let (g2, e2) = guard_inv (not (no_domain acme.domains)) no_domains _ tt e1 in
    let (g3, e3) = guard_inv (not (acme.challenge_listen.port == 0)) zero_challenge_port _ tt e2 in
    let (_, g4, e4) = bind_inv (validate_domains acme.domains) _ tt e3 in
    let (g5, e5) = guard_inv (contains acme.email b'@') invalid_email _ tt e4 in
    let (g6, e6) = guard_inv (starts_with acme.directory_url https) directory_not_https _ tt e5 in
    let (g7, e7) =
      guard_inv (not (acme.renew_before_days == 0 || leb 90 acme.renew_before_days))
        renew_before_days_out_of_range _ tt e6 in
    let (g8, _) = guard_inv (not (acme.renew_check_hours == 0)) zero_renew_check_hours _ tt e7 in
    record {
      terms = g1;
      some_domain = ground arith;
      challenge_port = ground arith;
      domains_good = validate_domains-All acme.domains g4;
      email_good = g5;
      directory_https = g6;
      renew_days = (ground arith, ground arith);
      check_hours = ground arith;
    }
