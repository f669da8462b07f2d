-- ===== src/Config/Policy/Validation.antt =====
-- Validate of a policy, in config/policy.go, with the files and the libraries as an argument.
pub mod Rules
use pomerium.Prelude.{
  Bytes, Bool, true, false, ◌&&◌, ◌||◌, not, List, [], ◌∷◌, Option, none, some, if◌then◌else◌,
}
use pomerium.Strings.{codes, bytes_eq, is_empty}
use pomerium.Urlutil.Hosts.{Url, parse_and_validate_url}
use pomerium.Config.Weights.{
  ConfigError, bad_source, source_with_path, either_to_or_redirect_required, public_with_whitelists,
  any_user_with_whitelists, certificate_or_key_missing, bad_certificate, bad_ca, missing_ca_file,
  bad_downstream_ca, missing_downstream_ca_file, two_tokens, missing_token_file, two_rewrites,
  UrlText, WeightedUrl, validate_weighted_url,
}
use pomerium.Config.Policy.{Access, Policy}

-- pkg/cryptutil's certificates, encoding/base64, os.Stat and ioutil.ReadFile
pub record Files : Type 0 where
  pub certificate_from_base64 : Bytes → Bytes → Option Bytes
  pub certificate_from_file : Bytes → Bytes → Option Bytes
  pub decode_base64 : Bytes → Option Bytes
  pub encode_base64 : Bytes → Bytes
  pub exists : Bytes → Bool
  pub read_file : Bytes → Option Bytes

module _ {A : Type 0} where
  abbrev pub is_set : Option A → Bool
  is_set none = false
  is_set (some a) = true

  abbrev pub none_left : List A → Bool
  none_left [] = true
  none_left (a ∷ l) = false

abbrev pub is_web : Url → Bool
is_web u = bytes_eq u.scheme (codes "http") || bytes_eq u.scheme (codes "https")

abbrev pub has_path : Url → Bool
has_path u = not (is_empty u.path || bytes_eq u.path (codes "/"))

unfoldable pub invalid_url : UrlText → List WeightedUrl → Option ConfigError
unfolding validate_weighted_url
invalid_url L [] = none
invalid_url L (u ∷ urls) =
    let rest = invalid_url L urls in
    elim (validate_weighted_url L u) [ some e ↦ some e | none ↦ rest ]

abbrev pub one_missing : Bytes → Bytes → Bool
one_missing cert key =
    (is_empty cert && not (is_empty key)) || (not (is_empty cert) && is_empty key)

-- The policy as a part of Validate leaves it, and the error that ends it.
abbrev pub Checked : Type 0 → Type 0
Checked V = Policy V × Option ConfigError

module _ {V : Type 0} where
  abbrev pub and_then : Checked V → (Policy V → Checked V) → Checked V
  and_then (p, some e) next = (p, some e)
  and_then (p, none) next = next p

  abbrev pub fail_if : Bool → ConfigError → Policy V → Checked V
  fail_if bad e p = if bad then (p, some e) else (p, none)

  unfoldable pub check_source : UrlText → Policy V → Checked V
  unfolding parse_and_validate_url
  check_source L p = elim (parse_and_validate_url L.parse p.from) [
    | none ↦ (p, some bad_source)
    | some source ↦
        if is_web source && has_path source
        then (p, some source_with_path)
        else (record p { source = some source }, none)
  ]

  unfoldable pub check_to : UrlText → Policy V → Checked V
  unfolding invalid_url
  check_to L p =
      if none_left p.to && not (is_set p.redirect)
      then (p, some either_to_or_redirect_required)
      else (p, invalid_url L p.to)

  -- AllowedDomains, AllowedGroups or AllowedUsers is not nil
  abbrev pub has_whitelists : Access V → Bool
  has_whitelists a = is_set a.allowed_domains || (is_set a.allowed_groups || is_set a.allowed_users)

  unfoldable pub check_access : Policy V → Checked V
  check_access p =
      let a = p.access in
      and_then
        (fail_if
          (a.allow_public_unauthenticated_access
            && (a.allow_any_authenticated_user || has_whitelists a))
          public_with_whitelists p)
        (fail_if (a.allow_any_authenticated_user && has_whitelists a) any_user_with_whitelists)

  abbrev pub with_certificate : Policy V → Option Bytes → Checked V
  with_certificate p none =
      (record p { tls = record p.tls { client_certificate = none } }, some bad_certificate)
  with_certificate p (some c) =
      (record p { tls = record p.tls { client_certificate = some c } }, none)

  unfoldable pub check_certificate : Files → Policy V → Checked V
  check_certificate F p =
      let t = p.tls in
      if one_missing t.tls_client_cert t.tls_client_key
        || one_missing t.tls_client_cert_file t.tls_client_key_file
      then (p, some certificate_or_key_missing)
      else if not (is_empty t.tls_client_cert) && not (is_empty t.tls_client_key)
      then with_certificate p (F.certificate_from_base64 t.tls_client_cert t.tls_client_key)
      else if not (is_empty t.tls_client_cert_file) && not (is_empty t.tls_client_key_file)
      then with_certificate p (F.certificate_from_file t.tls_client_cert_file t.tls_client_key_file)
      else (p, none)

  unfoldable pub check_custom_ca : Files → Policy V → Checked V
  check_custom_ca F p =
      let t = p.tls in
      if not (is_empty t.tls_custom_ca)
      then fail_if (not (is_set (F.decode_base64 t.tls_custom_ca))) bad_ca p
      else if not (is_empty t.tls_custom_ca_file)
      then fail_if (not (F.exists t.tls_custom_ca_file)) missing_ca_file p
      else (p, none)

  abbrev pub with_downstream_ca : Files → Policy V → Option Bytes → Checked V
  with_downstream_ca F p none = (p, some missing_downstream_ca_file)
  with_downstream_ca F p (some bs) =
      (record p { tls = record p.tls { tls_downstream_client_ca = F.encode_base64 bs } }, none)

  unfoldable pub check_downstream_ca : Files → Policy V → Checked V
  check_downstream_ca F p =
      let t = p.tls in
      and_then
        (fail_if
          (not (is_empty t.tls_downstream_client_ca)
            && not (is_set (F.decode_base64 t.tls_downstream_client_ca)))
          bad_downstream_ca p)
        (λ p'.
          if is_empty t.tls_downstream_client_ca_file
          then (p', none)
          else with_downstream_ca F p' (F.read_file t.tls_downstream_client_ca_file))

  abbrev pub with_token : Policy V → Option Bytes → Checked V
  with_token p none = (p, some missing_token_file)
  with_token p (some token) = (record p { kubernetes_service_account_token = token }, none)

  unfoldable pub check_token : Files → Policy V → Checked V
  check_token F p =
      if is_empty p.kubernetes_service_account_token_file
      then (p, none)
      else if is_empty p.kubernetes_service_account_token
      then with_token p (F.read_file p.kubernetes_service_account_token_file)
      else (p, some two_tokens)

  unfoldable pub check_rewrites : Policy V → Checked V
  check_rewrites p =
      fail_if
        (not (is_empty p.rewrites.prefix_rewrite)
          && not (is_empty p.rewrites.regex_rewrite_pattern))
        two_rewrites p

  -- Validate; the policy is changed as well.
  unfoldable pub validate : UrlText → Files → Policy V → Checked V
  unfolding check_source check_to check_access check_certificate check_custom_ca check_downstream_ca
      check_token check_rewrites
  validate L F p =
      and_then
        (and_then
          (and_then
            (and_then
              (and_then (and_then (and_then (check_source L p) (check_to L)) check_access)
                (check_certificate F))
              (check_custom_ca F))
            (check_downstream_ca F))
          (check_token F))
        check_rewrites
