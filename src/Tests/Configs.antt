-- ===== src/Tests/Configs.antt =====
-- Policies, and what is outside the program for them and their routes.
use pomerium.Prelude.{
  ℕ, ℤ, pos, negsuc, Bytes, true, false, ◌≡◌, refl, [], ◌∷◌, ◌++◌, Option, none, some, arith, drop,
  inr, if◌then◌else◌,
}
use pomerium.Strings.{codes, bytes_eq, has_prefix}
use pomerium.Storage.{ok}
use pomerium.Urlutil.Hosts.{Url}
use pomerium.Config.Weights.{flatten, UrlText}
use pomerium.Config.Policy.{Policy, route_id, Access, Tls, Rewrites}
use pomerium.Config.Policy.Values.{
  GoValue, go_integer, go_float, go_string, Json, read_lists, claims_to_pb, claims_from_pb, to_list,
  are_made_of, to_struct, go_value, slice_of, flatten_claims, flatten_onto, flatten_claim,
}
use pomerium.GoMap
use pomerium.Config.Policy.Validation.{Files, validate}
use pomerium.Config.Policy.Messages.{
  Conversions, RouteMessage, base_to_proto, with_target, to_proto, new_policy_from_proto,
}
use pomerium.Config.Policy.Messages.Surviving.{carried, new_policy_from_proto-to_proto}
use pomerium.Config.Policy.Validation.Rules.{IsAccepted, validate-IsAccepted}

abbrev pub https_url : Bytes → Url
https_url host = record {
  scheme = codes "https";
  host = host;
  path = [];
  raw_query = [];
  others = [];
}

-- URLs of https without a path.
abbrev pub text : UrlText
text = record {
  parse = λ s. if has_prefix s (codes "https://") then some (https_url (drop 8 s)) else none;
  show = λ u. codes "https://" ++ u.host;
  hostname = λ u. u.host;
  parse_uint = λ s. none;
}

abbrev pub no_files : Files
no_files = record {
  certificate_from_base64 = λ c k. none;
  certificate_from_file = λ c k. none;
  decode_base64 = some;
  encode_base64 = λ b. b;
  exists = λ f. false;
  read_file = λ f. none;
}

abbrev pub no_access : Access GoValue
no_access = record {
  allowed_users = none;
  allowed_groups = none;
  allowed_domains = some (codes "x.y" ∷ []);
  allowed_idp_claims = none;
  cors_allow_preflight = false;
  allow_public_unauthenticated_access = false;
  allow_any_authenticated_user = false;
  sub_policies = [];
}

abbrev pub no_rewrites : Rewrites
no_rewrites = record {
  prefix_rewrite = [];
  regex_rewrite_pattern = [];
  regex_rewrite_substitution = [];
  host_rewrite = [];
  host_rewrite_header = [];
  host_path_regex_rewrite_pattern = [];
  host_path_regex_rewrite_substitution = [];
  set_request_headers = none;
  remove_request_headers = none;
  preserve_host_header = true;
  pass_identity_headers = false;
  rewrite_response_headers = [];
}

abbrev pub no_tls : Tls
no_tls = record {
  tls_skip_verify = false;
  tls_server_name = [];
  tls_custom_ca = [];
  tls_custom_ca_file = [];
  tls_client_cert = [];
  tls_client_key = [];
  tls_client_cert_file = [];
  tls_client_key_file = [];
  client_certificate = none;
  tls_downstream_client_ca = [];
  tls_downstream_client_ca_file = [];
}

-- A policy from https://x.y to https://z, for a prefix and a path, with its source.
abbrev pub policy_for : Bytes → Bytes → Option Url → Policy GoValue
policy_for prefix path source = record {
  from = codes "https://x.y";
  to = record { url = https_url (codes "z"); lb_weight = 0 } ∷ [];
  lb_weights = [];
  redirect = none;
  access = no_access;
  source = source;
  prefix = prefix;
  path = path;
  regex = [];
  rewrites = no_rewrites;
  upstream_timeout = pos 0;
  allow_websockets = false;
  allow_spdy = false;
  tls = no_tls;
  kubernetes_service_account_token = [];
  kubernetes_service_account_token_file = [];
  enable_google_cloud_serverless_authentication = false;
  envoy_opts = none;
}

abbrev pub x_y : Option Url
x_y = some (https_url (codes "x.y"))

validate-IsAccepted_example : IsAccepted (policy_for (codes "/a") [] x_y)
unfolding validate has_prefix bytes_eq
validate-IsAccepted_example =
    validate-IsAccepted text no_files (policy_for (codes "/a") [] none)
      (policy_for (codes "/a") [] x_y) refl

-- A float64 that stands for an integer, here by the integer itself.
abbrev to_float : ℤ → ℕ
to_float (pos n) = n
to_float (negsuc n) = n

abbrev json : Json
json = record {
  to_float = to_float;
  is_finite = λ x. true;
  is_utf8 = λ s. true;
  reread = λ m. some (read_lists m);
  reread_plain = λ m plain. refl;
}

abbrev conversions : Conversions
conversions = record { json = json; hash = λ r. some 7; sprint_id = λ r. codes "7" }

-- A policy with a claim of an integer and a text.
abbrev claiming : Policy GoValue
claiming = record (policy_for (codes "/a") [] none) {
  access = record no_access {
    allowed_idp_claims = some ((codes "n", go_integer (pos 5) ∷ go_string (codes "x") ∷ []) ∷ []);
  };
}

abbrev sent_message : RouteMessage
sent_message = record (base_to_proto conversions text claiming) {
  to = codes "https://z" ∷ [];
  load_balancing_weights = [];
}

new_policy_from_proto-to_proto_example :
    new_policy_from_proto conversions text no_files sent_message
    ≡ ok (validate text no_files (carried json (codes "7") claiming))
unfolding to_proto with_target flatten has_prefix route_id to_list are_made_of to_struct
new_policy_from_proto-to_proto_example =
    new_policy_from_proto-to_proto conversions text no_files claiming sent_message
      (((tt, tt), (refl, tt)), tt) ((refl, omega arith), tt) (inr refl) refl

-- The integer comes back as a float.
read_back :
    claims_from_pb json (claims_to_pb json claiming.access.allowed_idp_claims)
    ≡ some ((codes "n", go_float 5 ∷ go_string (codes "x") ∷ []) ∷ [])
unfolding claims_from_pb claims_to_pb to_list to_struct flatten_claims flatten_onto flatten_claim
    read_lists go_value slice_of GoMap.insert
read_back = refl
