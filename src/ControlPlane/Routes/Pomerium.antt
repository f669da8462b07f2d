-- ===== src/ControlPlane/Routes/Pomerium.antt =====
-- The routes of the program's own pages: buildPomeriumHTTPRoutes and what it calls, in
-- internal/controlplane/xds_routes.go.
use pomerium.Prelude.{
  Bytes, Bool, true, false, ◌&&◌, not, List, [], ◌∷◌, ◌++◌, Option, none, some, any_of,
  if◌then◌else◌,
}
use pomerium.Strings.{codes}
use pomerium.Storage.{Result, ok, err}
use pomerium.Urlutil.Hosts.{Url, Net, host_matches_domain}
use pomerium.Config.{is_authenticate, is_proxy}
use pomerium.Config.Policy.{matches}
use pomerium.Config.Options.{Options, get_authenticate_url, get_forward_auth_url, get_all_policies}
use pomerium.ControlPlane.Routes.{
  PathSpecifier, exact_path, path_prefix, RouteMatch, Route, to_cluster,
}
use pomerium.ControlPlane.Routes.Policies.{
  RouteError, bad_url, Outside, is_proxy_fronting_authenticate,
}

abbrev pub plain_match : PathSpecifier → RouteMatch
plain_match path = record { path_specifier = path; grpc = false; query_parameters = [] }

-- A route to a cluster of the control plane.
abbrev pub control_plane_route : Bytes → RouteMatch → Bytes → Bool → Route
control_plane_route name match_on cluster protected = record {
  name = name;
  match_on = match_on;
  action = to_cluster cluster;
  metadata = none;
  request_headers_to_add = [];
  request_headers_to_remove = [];
  ext_authz_disabled = not protected;
}

abbrev http_cluster : Bytes
http_cluster = codes "pomerium-control-plane-http"

-- buildGRPCRoutes
abbrev pub grpc_route : Route
grpc_route =
    control_plane_route (codes "pomerium-grpc")
      (record { path_specifier = path_prefix (codes "/"); grpc = true; query_parameters = [] })
      (codes "pomerium-control-plane-grpc") false

abbrev pub grpc_routes : List Route
grpc_routes = grpc_route ∷ []

-- buildControlPlanePathRoute
abbrev pub path_route : Bytes → Bool → Route
path_route path protected =
    control_plane_route (codes "pomerium-path-" ++ path) (plain_match (exact_path path))
      http_cluster protected

-- buildControlPlanePrefixRoute
abbrev pub prefix_route : Bytes → Bool → Route
prefix_route prefix protected =
    control_plane_route (codes "pomerium-prefix-" ++ prefix) (plain_match (path_prefix prefix))
      http_cluster protected

-- buildControlPlaneProtectedPrefixRoute
abbrev pub protected_prefix_route : Bytes → Route
protected_prefix_route prefix =
    control_plane_route (codes "pomerium-protected-prefix-" ++ prefix)
      (plain_match (path_prefix prefix)) http_cluster true

-- buildControlPlanePathAndQueryRoute
abbrev pub path_and_query_route : Bytes → List Bytes → Route
path_and_query_route path queryparams =
    control_plane_route (codes "pomerium-path-and-query" ++ path)
      (record { path_specifier = exact_path path; grpc = false; query_parameters = queryparams })
      http_cluster false

module _ {V : Type 0} where
  -- hasPublicPolicyMatchingURL
  unfoldable pub has_public_policy_matching_url :
      (Bytes → Url → Option Bool) → Options V → Url → Bool
  unfolding get_all_policies matches
  has_public_policy_matching_url match_regex o request_url =
      any_of
        (λ p. p.access.allow_public_unauthenticated_access && matches match_regex p request_url)
        (get_all_policies o)

-- The routes that a proxy does not have in front of authenticate, before robots.txt.
abbrev pub page_routes : List Route
page_routes =
    path_route (codes "/.pomerium/jwt") true
    ∷ path_route (codes "/ping") false
    ∷ path_route (codes "/healthz") false
    ∷ path_route (codes "/.pomerium") false
    ∷ prefix_route (codes "/.pomerium/") false
    ∷ path_route (codes "/.well-known/pomerium") false
    ∷ prefix_route (codes "/.well-known/pomerium/") false
    ∷ []

abbrev pub forward_auth_params : List Bytes
forward_auth_params =
    codes "uri" ∷ codes "pomerium_session_encrypted" ∷ codes "pomerium_redirect_uri" ∷ []

-- The routes of the forward-auth URL.
abbrev pub forward_auth_routes : List Route
forward_auth_routes =
    path_and_query_route (codes "/verify") forward_auth_params
    ∷ path_and_query_route (codes "/") forward_auth_params
    ∷ path_and_query_route (codes "/") (codes "uri" ∷ [])
    ∷ protected_prefix_route (codes "/")
    ∷ []

abbrev pub robots_url : Bytes → Url
robots_url domain = record {
  scheme = codes "https";
  host = domain;
  path = codes "/robots.txt";
  raw_query = [];
  others = [];
}

-- hostMatchesDomain of a URL that may be nil
abbrev pub nil_matches_domain : Net → Option Url → Bytes → Bool
nil_matches_domain N none domain = false
nil_matches_domain N (some u) domain = host_matches_domain N u domain

module _ (X : Outside) (match_regex : Bytes → Url → Option Bool) {V : Type 0} where
  unfoldable pub own_routes : Options V → Bytes → Bool → List Route
  unfolding has_public_policy_matching_url
  own_routes o domain is_fronting_authenticate =
      if is_fronting_authenticate
      then []
      else page_routes
        ++ (if has_public_policy_matching_url match_regex o (robots_url domain)
            then []
            else path_route (codes "/robots.txt") false ∷ [])

  -- buildPomeriumHTTPRoutes
  unfoldable pub build_pomerium_http_routes : Options V → Bytes → Result RouteError (List Route)
  unfolding own_routes is_proxy_fronting_authenticate get_authenticate_url get_forward_auth_url
      is_authenticate is_proxy host_matches_domain
  build_pomerium_http_routes o domain = elim (is_proxy_fronting_authenticate X o domain) [
    | none ↦ err bad_url
    | some fronting ↦ elim (get_authenticate_url X.text.parse o) [
      | none ↦ err bad_url
      | some u ↦ elim (get_forward_auth_url X.text.parse o) [
        | none ↦ err bad_url
        | some forward ↦ ok (
            own_routes o domain fronting
            ++ (if is_authenticate o.services && host_matches_domain X.net u domain
                then path_route o.authenticate_callback_path false ∷ []
                else [])
            ++ (if is_proxy o.services && nil_matches_domain X.net forward domain
                then forward_auth_routes
                else []))
      ]
    ]
  ]
