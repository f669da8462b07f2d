-- ===== src/ControlPlane/Routes.antt =====
-- The routes that the control plane gives envoy, in internal/controlplane/xds_routes.go: envoy's
-- messages, and the parts of a policy's route.
pub mod Pomerium
pub mod Policies
pub mod Hosts
pub mod Envoy
pub mod Agreement
pub mod Protection
use pomerium.Prelude.{
  ℕ, ℤ, pos, bytes_order, Bytes, Bool, true, false, ◌||◌, not, List, [], ◌∷◌, ◌++◌, Option, none,
  some, if◌then◌else◌,
}
use pomerium.Strings.{codes, is_empty}
use pomerium.Strings.Sorting.{sort_strings}
use pomerium.GoMap.{GoMap, lookup}
use pomerium.Urlutil.Hosts.{is_tcp, Url}
use pomerium.Config.Weights.{WeightedUrl}
use pomerium.Config.Policy.{Policy, PolicyRedirect, RewriteHeader, Rewrites, EnvoyCluster}
use pomerium.Config.Options.{Options}

-- The oneof path_specifier of a RouteMatch
pub data PathSpecifier : Type 0 where
  connect_matcher : PathSpecifier
  safe_regex exact_path path_prefix : Bytes → PathSpecifier

-- A RouteMatch, with the query parameters that must be present.
pub record RouteMatch : Type 0 where
  pub path_specifier : PathSpecifier
  pub grpc : Bool
  pub query_parameters : List Bytes

pub data SchemeRewrite : Type 0 where
  no_scheme_rewrite : SchemeRewrite
  https_redirect : Bool → SchemeRewrite
  scheme_redirect : Bytes → SchemeRewrite

pub data PathRewrite : Type 0 where
  no_path_rewrite : PathRewrite
  path_redirect prefix_rewrite : Bytes → PathRewrite

pub record RedirectAction : Type 0 where
  pub scheme_rewrite : SchemeRewrite
  pub host_redirect : Bytes
  pub port_redirect : ℕ
  pub path_rewrite : PathRewrite
  pub response_code : ℤ
  pub strip_query : Bool

-- A RegexMatchAndSubstitute
pub record RegexRewrite : Type 0 where
  pub pattern : Bytes
  pub substitution : Bytes

pub data HostRewrite : Type 0 where
  auto_host_rewrite : Bool → HostRewrite
  host_rewrite_literal host_rewrite_header : Bytes → HostRewrite
  host_rewrite_path_regex : RegexRewrite → HostRewrite

pub record RouteAction : Type 0 where
  pub cluster : Bytes
  pub upgrade_configs : List (Bytes × Bool)
  pub host_rewrite : Option HostRewrite
  pub timeout : Option ℤ
  pub idle_timeout : Option ℤ
  pub prefix_rewrite : Bytes
  pub regex_rewrite : Option RegexRewrite

pub data Action : Type 0 where
  route_to : RouteAction → Action
  redirect_to : RedirectAction → Action

-- The metadata for the filter envoy.filters.http.lua.
pub record LuaMetadata : Type 0 where
  pub rewrite_response_headers : List RewriteHeader
  pub remove_pomerium_cookie : Option Bytes
  pub remove_pomerium_authorization : Option Bool
  pub remove_impersonate_headers : Option Bool

-- A Route; ext_authz_disabled stands for the entry disableExtAuthz of its filters' configuration.
pub record Route : Type 0 where
  pub name : Bytes
  pub match_on : RouteMatch
  pub action : Action
  pub metadata : Option LuaMetadata
  pub request_headers_to_add : List (Bytes × Bytes)
  pub request_headers_to_remove : List Bytes
  pub ext_authz_disabled : Bool

-- A RouteAction that names a cluster and sets nothing else.
abbrev pub to_cluster : Bytes → Action
to_cluster cluster = route_to (record {
  cluster = cluster;
  upgrade_configs = [];
  host_rewrite = none;
  timeout = none;
  idle_timeout = none;
  prefix_rewrite = [];
  regex_rewrite = none;
})

abbrev pub or_zero : {A : Type 0} → Option A → A → A
or_zero none zero_value = zero_value
or_zero (some a) zero_value = a

abbrev pub or_else : {A : Type 0} → Option A → Option A → Option A
or_else none other = other
or_else (some a) other = some a

module _ {K V : Type 0} where
  abbrev pub keys : GoMap K V → List K
  keys [] = []
  keys ((k, v) ∷ m) = k ∷ keys m

  abbrev pub values : GoMap K V → List V
  values [] = []
  values ((k, v) ∷ m) = v ∷ values m

abbrev pub headers_for : GoMap Bytes Bytes → List Bytes → List (Bytes × Bytes)
headers_for headers [] = []
headers_for headers (k ∷ ks) =
    (k, or_zero (lookup bytes_order k headers) []) ∷ headers_for headers ks

-- toEnvoyHeaders, with mkEnvoyHeader
unfoldable pub to_envoy_headers : GoMap Bytes Bytes → List (Bytes × Bytes)
unfolding sort_strings lookup
to_envoy_headers headers = headers_for headers (sort_strings (keys headers))

abbrev pub scheme_rewrite_of : Option Bool → Option Bytes → SchemeRewrite
scheme_rewrite_of (some https) scheme = https_redirect https
scheme_rewrite_of none (some scheme) = scheme_redirect scheme
scheme_rewrite_of none none = no_scheme_rewrite

abbrev pub path_rewrite_of : Option Bytes → Option Bytes → PathRewrite
path_rewrite_of (some path) prefix = path_redirect path
path_rewrite_of none (some prefix) = prefix_rewrite prefix
path_rewrite_of none none = no_path_rewrite

-- buildPolicyRouteRedirectAction
unfoldable pub build_policy_route_redirect_action : PolicyRedirect → RedirectAction
build_policy_route_redirect_action r = record {
  scheme_rewrite = scheme_rewrite_of r.https_redirect r.scheme_redirect;
  host_redirect = or_zero r.host_redirect [];
  port_redirect = or_zero r.port_redirect 0;
  path_rewrite = path_rewrite_of r.path_redirect r.prefix_rewrite;
  response_code = or_zero r.response_code (pos 0);
  strip_query = or_zero r.strip_query false;
}

abbrev pub first_path : List WeightedUrl → Bytes
first_path [] = []
first_path (u ∷ to) = u.url.path

-- getRewriteOptions
unfoldable pub get_rewrite_options : Rewrites → List WeightedUrl → Bytes × Option RegexRewrite
get_rewrite_options r to =
    if not (is_empty r.prefix_rewrite)
    then (r.prefix_rewrite, none)
    else if not (is_empty r.regex_rewrite_pattern)
    then (
      [],
      some (record {
        pattern = r.regex_rewrite_pattern;
        substitution = r.regex_rewrite_substitution;
      }),
    )
    else (first_path to, none)

-- setHostRewriteOptions
unfoldable pub host_rewrite_options : Rewrites → HostRewrite
host_rewrite_options r =
    if not (is_empty r.host_rewrite)
    then host_rewrite_literal r.host_rewrite
    else if not (is_empty r.host_rewrite_header)
    then host_rewrite_header r.host_rewrite_header
    else if not (is_empty r.host_path_regex_rewrite_pattern)
    then host_rewrite_path_regex (record {
      pattern = r.host_path_regex_rewrite_pattern;
      substitution = r.host_path_regex_rewrite_substitution;
    })
    else auto_host_rewrite (not r.preserve_host_header)
