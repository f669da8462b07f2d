-- ===== src/ControlPlane/Routes/Policies.antt =====
-- The routes of the policies: buildPolicyRoutes of internal/controlplane/xds_routes.go.
pub mod Each
use pomerium.Prelude.{
  ℕ, zero, suc, ◌+◌, ◌/◌, ◌%◌, ℤ, pos, Bytes, Bool, true, false, ◌||◌, not, List, [], ◌∷◌, ◌++◌,
  Option, none, some, ltb, same, time_order, map, if◌then◌else◌,
}
use pomerium.Strings.{codes, is_empty}
use pomerium.Strings.Decimal.{itoa}
use pomerium.Storage.{Result, ok, err}
use pomerium.Urlutil.Hosts.{Url, Net, is_tcp, host_matches_domain}
use pomerium.Config.{is_authenticate}
use pomerium.Config.Weights.{UrlText}
use pomerium.Config.Policy.{Policy, PolicyRedirect, EnvoyCluster, RouteId, route_id}
use pomerium.Config.Options.{Options, get_authenticate_url, get_all_policies}
use pomerium.ControlPlane.Routes.{
  connect_matcher, safe_regex, exact_path, path_prefix, RouteMatch, RouteAction, Action, route_to,
  redirect_to, LuaMetadata, Route, or_zero, values, to_envoy_headers,
  build_policy_route_redirect_action, get_rewrite_options, host_rewrite_options,
}

-- A URL among the options that is not valid, or a nil pointer that is followed.
pub data RouteError : Type 0 where
  bad_url nil_source : RouteError

-- What routes depend on outside the program: url.Parse and the other functions on texts of URLs,
-- net's on hosts, and hashutil.Hash.
pub record Outside : Type 0 where
  pub text : UrlText
  pub net : Net
  pub hash : RouteId → Option ℕ

-- The verb %x on a number
unfoldable pub hex_digits : ℕ → ℕ → Bytes
hex_digits zero n = []
hex_digits (suc fuel) n =
    let high = hex_digits fuel (n / 16) in
    let digit = if ltb (n % 16) 10 then 48 + n % 16 else 87 + n % 16 in
    if ltb n 16 then digit ∷ [] else high ++ digit ∷ []

abbrev pub id_or_zero : {E : Type 0} → Result E ℕ → ℕ
id_or_zero (err e) = 0
id_or_zero (ok id) = id

-- getClusterStatsName
abbrev pub get_cluster_stats_name : Option EnvoyCluster → Bytes
get_cluster_stats_name none = []
get_cluster_stats_name (some cluster) = cluster.name

abbrev pub action_of : Option PolicyRedirect → RouteAction → Action
action_of none a = route_to a
action_of (some r) a = redirect_to (build_policy_route_redirect_action r)

abbrev pub cons_route : Route → Result RouteError (List Route) → Result RouteError (List Route)
cons_route r (err e) = err e
cons_route r (ok routes) = ok (r ∷ routes)

abbrev pub route_before :
    (Bool → Route) → Option Bool → Result RouteError (List Route) → Result RouteError (List Route)
route_before route none rest = err bad_url
route_before route (some fronting) rest = cons_route (route fronting) rest

module _ (X : Outside) where
  module _ {V : Type 0} where
    -- getClusterID
    unfoldable pub get_cluster_id : Policy V → Bytes
    unfolding route_id hex_digits
    get_cluster_id p =
        let stats_name = get_cluster_stats_name p.envoy_opts in
        let id = id_or_zero (route_id X.text X.hash p) in
        (if is_empty stats_name then codes "route" else stats_name)
        ++ codes "-"
        ++ hex_digits (suc id) id

module _ {V : Type 0} where
  -- mkRouteMatch of a policy with the source given
  unfoldable pub mk_route_match : Url → Policy V → RouteMatch
  unfolding is_tcp
  mk_route_match source p = record {
    path_specifier =
        if is_tcp source
        then connect_matcher
        else if not (is_empty p.regex)
        then safe_regex p.regex
        else if not (is_empty p.path)
        then exact_path p.path
        else if not (is_empty p.prefix)
        then path_prefix p.prefix
        else path_prefix (codes "/");
    grpc = false;
    query_parameters = [];
  }

  -- getRequestHeadersToRemove, with PomeriumJWTHeaderName
  unfoldable pub get_request_headers_to_remove : Options V → Policy V → List Bytes
  get_request_headers_to_remove o p =
      or_zero p.rewrites.remove_request_headers []
      ++ (if p.rewrites.pass_identity_headers
          then []
          else codes "x-pomerium-jwt-assertion"
            ∷ map (λ claim. codes "x-pomerium-claim-" ++ claim) (values o.jwt_claims_headers))

  -- getRouteTimeout
  unfoldable pub get_route_timeout : Options V → Url → Policy V → Option ℤ
  unfolding is_tcp
  get_route_timeout o source p =
      if not (same time_order p.upstream_timeout (pos 0))
      then some p.upstream_timeout
      else if p.allow_websockets || is_tcp source
      then some (pos 0)
      else some o.default_upstream_timeout

  -- getRouteIdleTimeout
  unfoldable pub get_route_idle_timeout : Url → Policy V → Option ℤ
  unfolding is_tcp
  get_route_idle_timeout source p =
      if p.allow_websockets || is_tcp source then some (pos 0) else none

module _ (X : Outside) where
  module _ {V : Type 0} where
    -- buildPolicyRouteRouteAction
    unfoldable pub build_policy_route_route_action : Options V → Url → Policy V → RouteAction
    unfolding get_cluster_id is_tcp host_rewrite_options get_route_timeout get_route_idle_timeout
        get_rewrite_options
    build_policy_route_route_action o source p =
        let rewrite = get_rewrite_options p.rewrites p.to in
        record {
          cluster = get_cluster_id X p;
          upgrade_configs =
              (codes "websocket", p.allow_websockets)
              ∷ (codes "spdy/3.1", p.allow_spdy)
              ∷ (if is_tcp source then (codes "CONNECT", true) ∷ [] else []);
          host_rewrite = some (host_rewrite_options p.rewrites);
          timeout = get_route_timeout o source p;
          idle_timeout = get_route_idle_timeout source p;
          prefix_rewrite = rewrite.0;
          regex_rewrite = rewrite.1;
        }

    abbrev pub lua_metadata : Options V → Policy V → Bool → LuaMetadata
    lua_metadata o p is_fronting_authenticate =
        let with_token =
          not (is_empty p.kubernetes_service_account_token_file)
          || not (is_empty p.kubernetes_service_account_token) in
        record {
          rewrite_response_headers = p.rewrites.rewrite_response_headers;
          remove_pomerium_cookie = if is_fronting_authenticate then none else some o.cookie_name;
          remove_pomerium_authorization = if is_fronting_authenticate then none else some true;
          remove_impersonate_headers = if is_fronting_authenticate then none else some with_token;
        }

    -- The body of the loop of buildPolicyRoutes
    unfoldable pub policy_route : Options V → Bool → ℕ → Url → Policy V → Route
    unfolding mk_route_match build_policy_route_redirect_action build_policy_route_route_action
        get_request_headers_to_remove to_envoy_headers itoa
    policy_route o is_fronting_authenticate i source p = record {
      name = codes "policy-" ++ itoa i;
      match_on = mk_route_match source p;
      action = action_of p.redirect (build_policy_route_route_action o source p);
      metadata = some (lua_metadata o p is_fronting_authenticate);
      request_headers_to_add = to_envoy_headers (or_zero p.rewrites.set_request_headers []);
      request_headers_to_remove = get_request_headers_to_remove o p;
      ext_authz_disabled = is_fronting_authenticate;
    }

    -- isProxyFrontingAuthenticate
    unfoldable pub is_proxy_fronting_authenticate : Options V → Bytes → Option Bool
    unfolding is_authenticate get_authenticate_url host_matches_domain
    is_proxy_fronting_authenticate o domain = elim (get_authenticate_url X.text.parse o) [
      | none ↦ none
      | some u ↦
          some (if is_authenticate o.services then false else host_matches_domain X.net u domain)
    ]

    -- The loop of buildPolicyRoutes, from the i-th policy
    unfoldable pub policy_routes_from :
        Options V → Bytes → ℕ → List (Policy V) → Result RouteError (List Route)
    unfolding host_matches_domain policy_route is_proxy_fronting_authenticate
    policy_routes_from o domain i [] = ok []
    policy_routes_from o domain i (p ∷ policies) =
        let rest = policy_routes_from o domain (suc i) policies in
        let fronting = is_proxy_fronting_authenticate o domain in
        elim p.source [
          | none ↦ err nil_source
          | some source ↦
              if host_matches_domain X.net source domain
              then route_before (λ f. policy_route o f i source p) fronting rest
              else rest
        ]

    -- buildPolicyRoutes
    unfoldable pub build_policy_routes : Options V → Bytes → Result RouteError (List Route)
    unfolding policy_routes_from get_all_policies
    build_policy_routes o domain = policy_routes_from o domain 0 (get_all_policies o)
