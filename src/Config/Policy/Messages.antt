-- ===== src/Config/Policy/Messages.antt =====
-- NewPolicyFromProto and ToProto of config/policy.go, and the messages of
-- pkg/grpc/config/config.pb.go.
pub mod Surviving
use pomerium.Prelude.{
  ℕ, ℤ, pos, Bytes, Bool, true, false, ◌||◌, List, [], ◌∷◌, Option, none, some, if◌then◌else◌,
}
use pomerium.Strings.{is_empty}
use pomerium.Storage.{Result, ok, err}
use pomerium.GoMap.{GoMap}
use pomerium.Config.Weights.{ConfigError, UrlText, WeightedUrl, flatten, parse_weighted_urls}
use pomerium.Config.Policy.{
  RewriteHeader, Claims, SubPolicy, PolicyRedirect, EnvoyCluster, Policy, RouteId, route_id,
}
use pomerium.Config.Policy.Values.{GoValue, Json, ClaimsMessage, claims_to_pb, claims_from_pb}
use pomerium.Config.Policy.Validation.{Files, Checked, is_set, validate}

pub record PolicyMessage : Type 0 where
  pub id : Bytes
  pub name : Bytes
  pub allowed_users : Option (List Bytes)
  pub allowed_groups : Option (List Bytes)
  pub allowed_domains : Option (List Bytes)
  pub allowed_idp_claims : ClaimsMessage
  pub rego : Option (List Bytes)

-- Route; a nil timeout is none, and RouteRedirect and RouteRewriteHeader have the fields of
-- PolicyRedirect and RewriteHeader.
pub record RouteMessage : Type 0 where
  pub name : Bytes
  pub from : Bytes
  pub to : List Bytes
  pub load_balancing_weights : List ℕ
  pub redirect : Option PolicyRedirect
  pub allowed_users : Option (List Bytes)
  pub allowed_groups : Option (List Bytes)
  pub allowed_domains : Option (List Bytes)
  pub allowed_idp_claims : ClaimsMessage
  pub prefix : Bytes
  pub path : Bytes
  pub regex : Bytes
  pub prefix_rewrite : Bytes
  pub regex_rewrite_pattern : Bytes
  pub regex_rewrite_substitution : Bytes
  pub cors_allow_preflight : Bool
  pub allow_public_unauthenticated_access : Bool
  pub allow_any_authenticated_user : Bool
  pub timeout : Option ℤ
  pub allow_websockets : Bool
  pub tls_skip_verify : Bool
  pub tls_server_name : Bytes
  pub tls_custom_ca : Bytes
  pub tls_custom_ca_file : Bytes
  pub tls_client_cert : Bytes
  pub tls_client_key : Bytes
  pub tls_client_cert_file : Bytes
  pub tls_client_key_file : Bytes
  pub tls_downstream_client_ca : Bytes
  pub tls_downstream_client_ca_file : Bytes
  pub set_request_headers : Option (GoMap Bytes Bytes)
  pub remove_request_headers : Option (List Bytes)
  pub preserve_host_header : Bool
  pub pass_identity_headers : Bool
  pub kubernetes_service_account_token : Bytes
  pub policies : List (PolicyMessage)
  pub envoy_opts : Option EnvoyCluster
  pub rewrite_response_headers : List RewriteHeader

-- IsSet of pkg/grpc/config/config.go
unfoldable pub redirect_is_set : Option PolicyRedirect → Bool
redirect_is_set none = false
redirect_is_set (some r) =
    is_set r.strip_query
    || (is_set r.response_code
        || (is_set r.prefix_rewrite
            || (is_set r.path_redirect
                || (is_set r.port_redirect
                    || (is_set r.host_redirect
                        || (is_set r.scheme_redirect || is_set r.https_redirect))))))

-- What claims' JSON depends on; hashutil.Hash; fmt.Sprint of what RouteID returns.
pub record Conversions : Type 0 where
  pub json : Json
  pub hash : RouteId → Option ℕ
  pub sprint_id : Result ConfigError ℕ → Bytes

module _ (C : Conversions) where
  unfoldable pub sub_policies_to_pb : List (SubPolicy GoValue) → List (PolicyMessage)
  unfolding claims_to_pb
  sub_policies_to_pb [] = []
  sub_policies_to_pb (sp ∷ sps) =
      record {
        id = sp.id;
        name = sp.name;
        allowed_users = sp.allowed_users;
        allowed_groups = sp.allowed_groups;
        allowed_domains = sp.allowed_domains;
        allowed_idp_claims = claims_to_pb C.json sp.allowed_idp_claims;
        rego = sp.rego;
      }
      ∷ sub_policies_to_pb sps

  unfoldable pub sub_policies_from_pb : List (PolicyMessage) → List (SubPolicy GoValue)
  unfolding claims_from_pb
  sub_policies_from_pb [] = []
  sub_policies_from_pb (sp ∷ sps) =
      record {
        id = sp.id;
        name = sp.name;
        allowed_users = sp.allowed_users;
        allowed_groups = sp.allowed_groups;
        allowed_domains = sp.allowed_domains;
        allowed_idp_claims = claims_from_pb C.json sp.allowed_idp_claims;
        rego = sp.rego;
      }
      ∷ sub_policies_from_pb sps

  -- The message without its target.
  unfoldable pub base_to_proto : UrlText → Policy GoValue → RouteMessage
  unfolding claims_to_pb sub_policies_to_pb route_id
  base_to_proto L p = record {
    name = C.sprint_id (route_id L C.hash p);
    from = p.from;
    to = [];
    load_balancing_weights = [];
    redirect = none;
    allowed_users = p.access.allowed_users;
    allowed_groups = p.access.allowed_groups;
    allowed_domains = p.access.allowed_domains;
    allowed_idp_claims = claims_to_pb C.json p.access.allowed_idp_claims;
    prefix = p.prefix;
    path = p.path;
    regex = p.regex;
    prefix_rewrite = p.rewrites.prefix_rewrite;
    regex_rewrite_pattern = p.rewrites.regex_rewrite_pattern;
    regex_rewrite_substitution = p.rewrites.regex_rewrite_substitution;
    cors_allow_preflight = p.access.cors_allow_preflight;
    allow_public_unauthenticated_access = p.access.allow_public_unauthenticated_access;
    allow_any_authenticated_user = p.access.allow_any_authenticated_user;
    timeout = some p.upstream_timeout;
    allow_websockets = p.allow_websockets;
    tls_skip_verify = p.tls.tls_skip_verify;
    tls_server_name = p.tls.tls_server_name;
    tls_custom_ca = p.tls.tls_custom_ca;
    tls_custom_ca_file = p.tls.tls_custom_ca_file;
    tls_client_cert = p.tls.tls_client_cert;
    tls_client_key = p.tls.tls_client_key;
    tls_client_cert_file = p.tls.tls_client_cert_file;
    tls_client_key_file = p.tls.tls_client_key_file;
    tls_downstream_client_ca = p.tls.tls_downstream_client_ca;
    tls_downstream_client_ca_file = p.tls.tls_downstream_client_ca_file;
    set_request_headers = p.rewrites.set_request_headers;
    remove_request_headers = p.rewrites.remove_request_headers;
    preserve_host_header = p.rewrites.preserve_host_header;
    pass_identity_headers = p.rewrites.pass_identity_headers;
    kubernetes_service_account_token = p.kubernetes_service_account_token;
    policies = sub_policies_to_pb p.access.sub_policies;
    envoy_opts = none;
    rewrite_response_headers = p.rewrites.rewrite_response_headers;
  }

  -- The target of a policy in its message: the redirect, or else the URLs.
  unfoldable pub with_target :
      UrlText
      → RouteMessage
      → Option PolicyRedirect
      → List WeightedUrl
      → Result ConfigError RouteMessage
  unfolding flatten
  with_target L pb (some r) urls = ok (record pb { redirect = some r })
  with_target L pb none urls = elim (flatten L urls) [
    | err e ↦ err e
    | ok (to, weights) ↦ ok (record pb { to = to; load_balancing_weights = weights })
  ]

  -- ToProto
  unfoldable pub to_proto : UrlText → Policy GoValue → Result ConfigError RouteMessage
  unfolding base_to_proto with_target
  to_proto L p = with_target L (base_to_proto L p) p.redirect p.to

  abbrev pub or_zero : Option ℤ → ℤ
  or_zero none = pos 0
  or_zero (some t) = t

  abbrev pub named : Bytes → EnvoyCluster → EnvoyCluster
  named name c = if is_empty c.name then record c { name = name } else c

  abbrev pub opts_of : Bytes → Option EnvoyCluster → EnvoyCluster
  opts_of name none = named name (record { name = []; rest = [] })
  opts_of name (some c) = named name c

  -- The policy without its target.
  unfoldable pub base_from_proto : RouteMessage → Policy GoValue
  unfolding claims_from_pb sub_policies_from_pb
  base_from_proto pb = record {
    from = pb.from;
    to = [];
    lb_weights = [];
    redirect = none;
    access = record {
      allowed_users = pb.allowed_users;
      allowed_groups = pb.allowed_groups;
      allowed_domains = pb.allowed_domains;
      allowed_idp_claims = claims_from_pb C.json pb.allowed_idp_claims;
      cors_allow_preflight = pb.cors_allow_preflight;
      allow_public_unauthenticated_access = pb.allow_public_unauthenticated_access;
      allow_any_authenticated_user = pb.allow_any_authenticated_user;
      sub_policies = sub_policies_from_pb pb.policies;
    };
    source = none;
    prefix = pb.prefix;
    path = pb.path;
    regex = pb.regex;
    rewrites = record {
      prefix_rewrite = pb.prefix_rewrite;
      regex_rewrite_pattern = pb.regex_rewrite_pattern;
      regex_rewrite_substitution = pb.regex_rewrite_substitution;
      host_rewrite = [];
      host_rewrite_header = [];
      host_path_regex_rewrite_pattern = [];
      host_path_regex_rewrite_substitution = [];
      set_request_headers = pb.set_request_headers;
      remove_request_headers = pb.remove_request_headers;
      preserve_host_header = pb.preserve_host_header;
      pass_identity_headers = pb.pass_identity_headers;
      rewrite_response_headers = pb.rewrite_response_headers;
    };
    upstream_timeout = or_zero pb.timeout;
    allow_websockets = pb.allow_websockets;
    allow_spdy = false;
    tls = record {
      tls_skip_verify = pb.tls_skip_verify;
      tls_server_name = pb.tls_server_name;
      tls_custom_ca = pb.tls_custom_ca;
      tls_custom_ca_file = pb.tls_custom_ca_file;
      tls_client_cert = pb.tls_client_cert;
      tls_client_key = pb.tls_client_key;
      tls_client_cert_file = pb.tls_client_cert_file;
      tls_client_key_file = pb.tls_client_key_file;
      client_certificate = none;
      tls_downstream_client_ca = pb.tls_downstream_client_ca;
      tls_downstream_client_ca_file = pb.tls_downstream_client_ca_file;
    };
    kubernetes_service_account_token = pb.kubernetes_service_account_token;
    kubernetes_service_account_token_file = [];
    enable_google_cloud_serverless_authentication = false;
    envoy_opts = some (opts_of pb.name pb.envoy_opts);
  }

  -- NewPolicyFromProto: an error and no policy, or the policy and what Validate says of it.
  unfoldable pub new_policy_from_proto :
      UrlText → Files → RouteMessage → Result ConfigError (Checked GoValue)
  unfolding base_from_proto redirect_is_set parse_weighted_urls validate
  new_policy_from_proto L F pb =
      if redirect_is_set pb.redirect
      then ok (validate L F (record (base_from_proto pb) { redirect = pb.redirect }))
      else elim (parse_weighted_urls L pb.to) [
        | err e ↦ err e
        | ok to ↦ ok (validate L F (record (base_from_proto pb) { to = to }))
      ]
