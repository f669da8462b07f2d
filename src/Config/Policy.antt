-- ===== src/Config/Policy.antt =====
-- config/policy.go: the policies and which URLs they match. A nil slice of strings is none.
pub mod Validation
pub mod Values
pub mod Messages
use pomerium.Prelude.{
  ℕ, ℤ, Bytes, Bool, true, false, ◌&&◌, List, [], ◌∷◌, Option, none, some, ◌++◌, map, if◌then◌else◌,
}
use pomerium.Strings.{codes, bytes_eq, has_prefix, is_empty}
use pomerium.Storage.{Result, ok, err}
use pomerium.GoMap.{GoMap}
use pomerium.Urlutil.Hosts.{Url}
use pomerium.Config.Weights.{
  ConfigError, either_to_or_redirect_required, unhashable, UrlText, WeightedUrl, flatten,
}

pub record RewriteHeader : Type 0 where
  pub header : Bytes
  pub prefix : Bytes
  pub value : Bytes

-- FlattenedClaims, of some type of values; nil is none
abbrev pub Claims : Type 0 → Type 0
Claims V = Option (GoMap Bytes (List V))

pub record SubPolicy (V : Type 0) : Type 0 where
  pub id : Bytes
  pub name : Bytes
  pub allowed_users : Option (List Bytes)
  pub allowed_groups : Option (List Bytes)
  pub allowed_domains : Option (List Bytes)
  pub allowed_idp_claims : Claims V
  pub rego : Option (List Bytes)

pub record PolicyRedirect : Type 0 where
  pub https_redirect : Option Bool
  pub scheme_redirect : Option Bytes
  pub host_redirect : Option Bytes
  pub port_redirect : Option ℕ
  pub path_redirect : Option Bytes
  pub prefix_rewrite : Option Bytes
  pub response_code : Option ℤ
  pub strip_query : Option Bool

-- A message envoy.config.cluster.v3.Cluster: its name and the rest.
pub record EnvoyCluster : Type 0 where
  pub name : Bytes
  pub rest : Bytes

-- The access settings of a policy.
pub record Access (V : Type 0) : Type 0 where
  pub allowed_users : Option (List Bytes)
  pub allowed_groups : Option (List Bytes)
  pub allowed_domains : Option (List Bytes)
  pub allowed_idp_claims : Claims V
  pub cors_allow_preflight : Bool
  pub allow_public_unauthenticated_access : Bool
  pub allow_any_authenticated_user : Bool
  pub sub_policies : List (SubPolicy V)

-- The TLS settings of a policy; a tls.Certificate is bytes.
pub record Tls : Type 0 where
  pub tls_skip_verify : Bool
  pub tls_server_name : Bytes
  pub tls_custom_ca : Bytes
  pub tls_custom_ca_file : Bytes
  pub tls_client_cert : Bytes
  pub tls_client_key : Bytes
  pub tls_client_cert_file : Bytes
  pub tls_client_key_file : Bytes
  pub client_certificate : Option Bytes
  pub tls_downstream_client_ca : Bytes
  pub tls_downstream_client_ca_file : Bytes

-- How a policy rewrites what it forwards.
pub record Rewrites : Type 0 where
  pub prefix_rewrite : Bytes
  pub regex_rewrite_pattern : Bytes
  pub regex_rewrite_substitution : Bytes
  pub host_rewrite : Bytes
  pub host_rewrite_header : Bytes
  pub host_path_regex_rewrite_pattern : Bytes
  pub host_path_regex_rewrite_substitution : Bytes
  pub set_request_headers : Option (GoMap Bytes Bytes)
  pub remove_request_headers : Option (List Bytes)
  pub preserve_host_header : Bool
  pub pass_identity_headers : Bool
  pub rewrite_response_headers : List RewriteHeader

-- The struct Policy, with its settings grouped.
pub record Policy (V : Type 0) : Type 0 where
  pub from : Bytes
  pub to : List WeightedUrl
  pub lb_weights : List ℕ
  pub redirect : Option PolicyRedirect
  pub access : Access V
  pub source : Option Url
  pub prefix : Bytes
  pub path : Bytes
  pub regex : Bytes
  pub rewrites : Rewrites
  pub upstream_timeout : ℤ
  pub allow_websockets : Bool
  pub allow_spdy : Bool
  pub tls : Tls
  pub kubernetes_service_account_token : Bytes
  pub kubernetes_service_account_token_file : Bytes
  pub enable_google_cloud_serverless_authentication : Bool
  pub envoy_opts : Option EnvoyCluster

-- What regexp.Compile and MatchString on the text of a URL give; none where it does not compile.
abbrev pub regex_allows : Option Bool → Bool
regex_allows none = true
regex_allows (some matched) = matched

module _ {V : Type 0} where
  -- Matches, given what regexp makes of the policy's regex and the URL
  unfoldable pub matches : (Bytes → Url → Option Bool) → Policy V → Url → Bool
  matches match_regex p request_url = elim p.source [
    | none ↦ false
    | some source ↦
        if bytes_eq source.host request_url.host
        then (if is_empty p.prefix then true else has_prefix request_url.path p.prefix)
          && ((if is_empty p.path then true else bytes_eq request_url.path p.path)
              && (if is_empty p.regex
                  then true
                  else regex_allows (match_regex p.regex request_url)))
        else false
  ]

-- The struct routeID.
pub record RouteId : Type 0 where
  pub source : Option Url
  pub to : List Bytes
  pub prefix : Bytes
  pub path : Bytes
  pub regex : Bytes
  pub redirect : Option PolicyRedirect

abbrev pub hashed : Option ℕ → Result ConfigError ℕ
hashed none = err unhashable
hashed (some n) = ok n

module _ {V : Type 0} (L : UrlText) (hash : RouteId → Option ℕ) where
  -- RouteID, given hashutil.Hash on a routeID
  unfoldable pub route_id : Policy V → Result ConfigError ℕ
  unfolding flatten
  route_id p = elim p.to [
    | u ∷ urls ↦ elim (flatten L (u ∷ urls)) [
      | err e ↦ err e
      | ok (dst, weights) ↦ hashed (
          hash (record {
            source = p.source;
            to = dst;
            prefix = p.prefix;
            path = p.path;
            regex = p.regex;
            redirect = none;
          }))
    ]
    | [] ↦ elim p.redirect [
      | none ↦ err either_to_or_redirect_required
      | some redirect ↦ hashed (
          hash (record {
            source = p.source;
            to = [];
            prefix = p.prefix;
            path = p.path;
            regex = p.regex;
            redirect = some redirect;
          }))
    ]
  ]
