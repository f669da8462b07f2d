-- ===== src/ControlPlane/Routes/Hosts.antt =====
-- The domains that are routed, with the virtual host of each, in internal/controlplane/xds_listeners.go.
pub mod Served
use pomerium.Prelude.{
  Bytes, Bool, true, false, ◌&&◌, ◌||◌, List, [], ◌∷◌, ◌++◌, Option, none, some, any_of, keep_if,
  if◌then◌else◌,
}
use pomerium.Strings.{bytes_eq}
use pomerium.Strings.Sorting.{sort_strings, has}
use pomerium.Storage.{Result, ok, err}
use pomerium.Urlutil.Hosts.{Url, Net, strip_port, get_domains_for_url, host_matches_domain}
use pomerium.Config.{is_authenticate, is_authorize, is_proxy, is_data_broker}
use pomerium.Config.Policy.{Policy}
use pomerium.Config.Options.{
  Options, get_authenticate_url, get_authorize_urls, get_data_broker_urls, get_forward_auth_url,
  get_all_policies,
}
use pomerium.ControlPlane.Routes.{Route, to_envoy_headers}
use pomerium.ControlPlane.Routes.Policies.{
  RouteError, bad_url, nil_source, Outside, build_policy_routes,
}
use pomerium.ControlPlane.Routes.Pomerium.{
  grpc_routes, nil_matches_domain, build_pomerium_http_routes,
}

-- lookup[h] = struct{}{} for each h, where the map is a list without duplicates
unfoldable pub add_all : List Bytes → List Bytes → List Bytes
add_all [] lookup = lookup
add_all (h ∷ hs) lookup =
    let added = add_all hs (h ∷ lookup) in
    let kept = add_all hs lookup in if has h lookup then kept else added

module _ (N : Net) where
  unfoldable pub add_domains : List Url → List Bytes → List Bytes
  unfolding add_all get_domains_for_url
  add_domains [] lookup = lookup
  add_domains (u ∷ urls) lookup = add_domains urls (add_all (get_domains_for_url N u) lookup)

  -- hostsMatchDomain
  unfoldable pub hosts_match_domain : List Url → Bytes → Bool
  unfolding host_matches_domain
  hosts_match_domain urls host = any_of (λ u. host_matches_domain N u host) urls

abbrev cons_source : Option Url → Option (List Url) → Option (List Url)
cons_source none rest = none
cons_source (some u) none = none
cons_source (some u) (some urls) = some (u ∷ urls)

abbrev pub nil_urls : Option Url → List Url
nil_urls none = []
nil_urls (some u) = u ∷ []

-- The sources of the policies; none if one is nil, which would be followed.
unfoldable pub sources : {V : Type 0} → List (Policy V) → Option (List Url)
sources [] = some []
sources (p ∷ policies) = cons_source p.source (sources policies)

abbrev pub host_part : Option (Bytes × Bytes) → Bytes → Bytes
host_part none domain = domain
host_part (some (d, port)) domain = d

-- net.SplitHostPort's host of each domain, or the domain
unfoldable pub host_parts : Net → List Bytes → List Bytes
host_parts N [] = []
host_parts N (hp ∷ domains) = host_part (N.split_host_port hp) hp ∷ host_parts N domains

module _ (X : Outside) {V : Type 0} where
  -- The second half of getAllRouteableDomains: all URLs that are served at the address.
  unfoldable pub served_urls :
      Options V → Bytes → Url → List Url → List Url → Option Url → List Url → List Url
  unfolding is_authenticate is_authorize is_data_broker is_proxy
  served_urls o addr authenticate authorize data_broker forward_auth policies =
      (if is_authenticate o.services && bytes_eq addr o.addr then authenticate ∷ [] else [])
      ++ (if is_authorize o.services && bytes_eq addr o.grpc_addr then authorize else [])
      ++ (if is_data_broker o.services && bytes_eq addr o.grpc_addr then data_broker else [])
      ++ (if is_proxy o.services && bytes_eq addr o.addr
          then policies ++ nil_urls forward_auth
          else [])

  -- getAllRouteableDomains
  unfoldable pub get_all_routeable_domains : Options V → Bytes → Result RouteError (List Bytes)
  unfolding get_authenticate_url get_authorize_urls get_data_broker_urls get_forward_auth_url
      get_all_policies served_urls sources add_domains sort_strings is_proxy
  get_all_routeable_domains o addr = elim (get_authenticate_url X.text.parse o) [
    | none ↦ err bad_url
    | some authenticate ↦ elim (get_authorize_urls X.text.parse o) [
      | none ↦ err bad_url
      | some authorize ↦ elim (get_data_broker_urls X.text.parse o) [
        | none ↦ err bad_url
        | some data_broker ↦ elim (get_forward_auth_url X.text.parse o) [
          | none ↦ err bad_url
          | some forward_auth ↦
              elim (if is_proxy o.services && bytes_eq addr o.addr
                then sources (get_all_policies o)
                else some []) [
                  | none ↦ err nil_source
                  | some policies ↦ ok (
                      sort_strings (
                        add_domains X.net
                          (served_urls o addr authenticate authorize data_broker forward_auth
                            policies)
                          []))
                ]
        ]
      ]
    ]
  ]

  -- getAllTLSDomains
  unfoldable pub get_all_tls_domains : Options V → Bytes → Result RouteError (List Bytes)
  unfolding get_all_routeable_domains host_parts add_all sort_strings
  get_all_tls_domains o addr = elim (get_all_routeable_domains o addr) [
    | err e ↦ err e
    | ok domains ↦ ok (sort_strings (add_all (host_parts X.net domains) []))
  ]

  -- getRouteableDomainsForTLSDomain
  unfoldable pub get_routeable_domains_for_tls_domain :
      Options V → Bytes → Bytes → Result RouteError (List Bytes)
  unfolding get_all_routeable_domains strip_port
  get_routeable_domains_for_tls_domain o addr tls_domain = elim (get_all_routeable_domains o addr) [
    | err e ↦ err e
    | ok domains ↦ ok (keep_if (λ d. bytes_eq (strip_port d) tls_domain) domains)
  ]

-- getPoliciesForDomain
unfoldable pub get_policies_for_domain : {V : Type 0} → Net → Options V → Bytes → List (Policy V)
unfolding get_all_policies host_matches_domain
get_policies_for_domain N o domain =
    keep_if (λ p. nil_matches_domain N p.source domain) (get_all_policies o)

-- A VirtualHost of one domain.
pub record VirtualHost : Type 0 where
  pub domain : Bytes
  pub routes : List Route
  pub response_headers_to_add : List (Bytes × Bytes)

abbrev pub followed_by :
    Result RouteError (List Route) → Result RouteError (List Route) → Result RouteError (List Route)
followed_by (err e) rs = err e
followed_by (ok routes) (err e) = err e
followed_by (ok routes) (ok rs) = ok (routes ++ rs)

module _ (X : Outside) (match_regex : Bytes → Url → Option Bool) {V : Type 0} where
  -- Whether the domain is one of a gRPC service.
  unfoldable pub is_grpc_domain : Options V → List Url → List Url → Bytes → Bool
  unfolding is_authorize is_data_broker hosts_match_domain
  is_grpc_domain o authorize data_broker domain =
      bytes_eq o.addr o.grpc_addr
      && ((is_authorize o.services && hosts_match_domain X.net authorize domain)
          || (is_data_broker o.services && hosts_match_domain X.net data_broker domain))

  -- The routes of a domain, in the loop of buildMainHTTPConnectionManagerFilter
  unfoldable pub domain_routes :
      Options V → List Url → List Url → Bytes → Result RouteError (List Route)
  unfolding is_grpc_domain is_proxy build_pomerium_http_routes build_policy_routes
  domain_routes o authorize data_broker domain =
      followed_by (ok (if is_grpc_domain o authorize data_broker domain then grpc_routes else [])) (
        followed_by (build_pomerium_http_routes X match_regex o domain)
          (if is_proxy o.services then build_policy_routes X o domain else ok []))

  abbrev pub cons_host :
      Options V
      → Bytes
      → Result RouteError (List Route)
      → Result RouteError (List VirtualHost)
      → Result RouteError (List VirtualHost)
  cons_host o domain (err e) rest = err e
  cons_host o domain (ok rs) (err e) = err e
  cons_host o domain (ok []) (ok hosts) = ok hosts
  cons_host o domain (ok (r ∷ rs)) (ok hosts) = ok (
      record {
        domain = domain;
        routes = r ∷ rs;
        response_headers_to_add =
            if is_proxy o.services || is_authenticate o.services
            then to_envoy_headers o.headers
            else [];
      }
      ∷ hosts)

  unfoldable pub virtual_hosts :
      Options V → List Url → List Url → List Bytes → Result RouteError (List VirtualHost)
  unfolding domain_routes is_proxy is_authenticate to_envoy_headers
  virtual_hosts o authorize data_broker [] = ok []
  virtual_hosts o authorize data_broker (domain ∷ domains) =
      cons_host o domain (domain_routes o authorize data_broker domain)
        (virtual_hosts o authorize data_broker domains)
