-- ===== src/Tests/Routes.antt =====
-- The routes of two policies of one host, and of a third one on a port.
use pomerium.Prelude.{
  ℕ, suc, pos, Bytes, Bool, true, false, ◌&&◌, not, ◌≡◌, refl, List, [], ◌∷◌, ◌++◌, Option, none,
  some, arith, take, drop, inl, inr, if◌then◌else◌,
}
use pomerium.Strings.{codes, bytes_eq, has_prefix, index_byte}
use pomerium.Strings.Splitting.{
  index_byte-append, index_byte_lacking, take-length-append, drop-length-append,
}
use pomerium.Storage.{ok}
use pomerium.Urlutil.Hosts.{Url, Net, IsPlain, is_tcp, host_matches_domain}
use pomerium.Urlutil.Hosts.Domains.{IsCanonical, host_matches-eq}
use pomerium.Config.{is_authenticate}
use pomerium.Config.Policy.Values.{GoValue}
use pomerium.Config.Options.{
  Options, local_url, get_authenticate_url, get_authorize_urls, get_data_broker_urls,
  get_forward_auth_url, get_all_policies,
}
use pomerium.Authorize.Requests.{strip_query_string, get_matching_policy}
use pomerium.ControlPlane.Routes.{
  PathSpecifier, connect_matcher, safe_regex, exact_path, path_prefix, RouteMatch, Route,
}
use pomerium.ControlPlane.Routes.Policies.{
  Outside, policy_route, is_proxy_fronting_authenticate, build_policy_routes,
}
use pomerium.ControlPlane.Routes.Pomerium.{page_routes, path_route}
use pomerium.ControlPlane.Routes.Hosts.{
  served_urls, sources, get_all_routeable_domains, hosts_match_domain, domain_routes,
}
use pomerium.ControlPlane.Routes.Hosts.Served.{get_all_routeable_domains-matched}
use pomerium.ControlPlane.Routes.Protection.{first_route-protected}
use pomerium.ControlPlane.Routes.Envoy.{Envoy, first_route}
use pomerium.ControlPlane.Routes.Agreement.{first_route-get_matching_policy, request_url, route_of}
use pomerium.Tests.Configs.{https_url, text, policy_for, x_y}

abbrev split_at : Bytes → Option ℕ → Option (Bytes × Bytes)
split_at s none = none
split_at s (some i) = some (take i s, drop (suc i) s)

abbrev host_before : Bytes → Option ℕ → Bytes
host_before s none = s
host_before s (some i) = take i s

-- Hosts and ports that a colon separates.
abbrev split_host_port : Bytes → Option (Bytes × Bytes)
split_host_port s = split_at s (index_byte s 58)

abbrev net : Net
net = record {
  split_host_port = split_host_port;
  hostname = λ s. host_before s (index_byte s 58);
  join_host_port = λ h p. h ++ 58 ∷ p;
  is_port = λ p. true;
  split_plain = λ h l. rw (index_byte_lacking h 58 l.0) refl;
  split_port = λ h p l m.
      rw (index_byte-append h p 58 l.0, take-length-append h (58 ∷ p), drop-length-append h p 58)
        refl;
  hostname_plain = λ h l. rw (index_byte_lacking h 58 l.0) refl;
  hostname_port = λ h p l m. rw (index_byte-append h p 58 l.0) (take-length-append h (58 ∷ p));
  join_plain = λ h p l. refl;
  is_port_http = refl;
  is_port_https = refl;
}

abbrev pub outside : Outside
outside = record { text = text; net = net; hash = λ r. some 7 }

abbrev HttpRequest : Type 0
HttpRequest = Bytes × Bool

abbrev takes_path : PathSpecifier → Bytes → Bool
takes_path connect_matcher path = false
takes_path (safe_regex e) path = false
takes_path (exact_path p) path = bytes_eq path p
takes_path (path_prefix p) path = has_prefix path p

abbrev takes : RouteMatch → HttpRequest → Bool
takes m r =
    if m.grpc && not r.1 then false else takes_path m.path_specifier (strip_query_string r.0)

abbrev envoy : Envoy
envoy = record {
  Request = HttpRequest;
  path = λ r. r.0;
  is_grpc = λ r. r.1;
  takes = takes;
  takes_prefix = λ p r. refl;
  takes_path = λ p r. refl;
  takes_grpc = λ m r g h. rw (g, h) refl;
}

abbrev no_regex : Bytes → Url → Option Bool
no_regex e u = none

abbrev pub options : Options GoValue
options = record {
  addr = codes ":443";
  grpc_addr = codes ":5443";
  services = codes "all";
  policies = policy_for (codes "/a") [] x_y ∷ policy_for [] (codes "/b") x_y ∷ [];
  additional_policies = policy_for [] [] (some (https_url (codes "x.y:8443"))) ∷ [];
  authenticate_url_string = codes "https://auth";
  authenticate_callback_path = codes "/oauth2/callback";
  authorize_url_string = [];
  authorize_url_strings = [];
  data_broker_url_string = [];
  data_broker_url_strings = [];
  forward_auth_url_string = [];
  cookie_name = codes "_pomerium";
  jwt_claims_headers = [];
  headers = [];
  default_upstream_timeout = pos 30;
  client_ca = [];
  client_ca_file = [];
}

x_y-IsPlain : IsPlain (codes "x.y")
x_y-IsPlain = omega arith

-- A request for the path of the second policy of x.y.
abbrev request : HttpRequest
request = (codes "/b?c", false)

not_fronting : is_proxy_fronting_authenticate outside options (codes "x.y") ≡ some false
unfolding is_proxy_fronting_authenticate is_authenticate has_prefix bytes_eq
not_fronting = refl

on_port : IsCanonical net (codes "443") (codes "x.y:8443")
unfolding bytes_eq
on_port = inr (codes "x.y", codes "8443", refl, x_y-IsPlain, omega arith, refl)

first_route-get_matching_policy_example :
    (routes : List Route) × (build_policy_routes outside options (codes "x.y") ≡ ok routes)
    × (j : ℕ) × (first_route envoy routes request
        ≡ route_of outside envoy no_regex options false j
            (get_matching_policy no_regex options (request_url net envoy (codes "x.y") request)))
unfolding get_all_policies is_tcp bytes_eq
first_route-get_matching_policy_example =
    first_route-get_matching_policy outside envoy no_regex options (codes "x.y") false request
      (codes "b?c") not_fronting (inl x_y-IsPlain) refl
      (
        (https_url (codes "x.y"), refl, refl, refl, inl x_y-IsPlain, refl, inr refl),
        (
          (https_url (codes "x.y"), refl, refl, refl, inl x_y-IsPlain, refl, inl refl),
          ((https_url (codes "x.y:8443"), refl, refl, refl, on_port, refl, inl refl), tt),
        ),
      )

host_matches-eq_example :
    host_matches_domain net (https_url (codes "x.y:8443")) (codes "x.y")
    ≡ bytes_eq (codes "x.y:8443") (codes "x.y")
unfolding bytes_eq
host_matches-eq_example =
    host_matches-eq net (https_url (codes "x.y:8443")) (codes "x.y") on_port (inl x_y-IsPlain)

abbrev auth_url : Url
auth_url = https_url (codes "auth")

-- The route that envoy takes for the request, the first policy's being for another path.
abbrev second_route : Route
second_route =
    policy_route outside options false 1 (https_url (codes "x.y")) (policy_for [] (codes "/b") x_y)

abbrev x_y_routes : List Route
x_y_routes =
    page_routes
    ++ path_route (codes "/robots.txt") false
      ∷ policy_route outside options false 0 (https_url (codes "x.y"))
          (policy_for (codes "/a") [] x_y)
      ∷ second_route
      ∷ []

first_route-protected_example : second_route.ext_authz_disabled ≡ false
unfolding domain_routes bytes_eq has_prefix strip_query_string index_byte first_route
first_route-protected_example =
    first_route-protected outside envoy no_regex options (local_url ∷ []) (local_url ∷ [])
      (codes "x.y") auth_url none request x_y_routes second_route refl refl not_fronting refl refl
      refl refl refl

abbrev served_urls_here : List Url
served_urls_here =
    auth_url ∷ https_url (codes "x.y") ∷ https_url (codes "x.y") ∷ https_url (codes "x.y:8443") ∷ []

get_all_routeable_domains-matched_example :
    hosts_match_domain net served_urls_here (codes "x.y:443") ≡ true
unfolding served_urls get_authenticate_url has_prefix get_authorize_urls get_data_broker_urls
    get_forward_auth_url bytes_eq sources get_all_policies get_all_routeable_domains index_byte
get_all_routeable_domains-matched_example =
    get_all_routeable_domains-matched outside options (codes ":443") auth_url (local_url ∷ [])
      (local_url ∷ [])
      (https_url (codes "x.y") ∷ https_url (codes "x.y") ∷ https_url (codes "x.y:8443") ∷ []) none
      (codes "auth" ∷ codes "auth:443" ∷ codes "x.y" ∷ codes "x.y:443" ∷ codes "x.y:8443" ∷ [])
      (codes "x.y:443") refl refl refl refl refl
      (
        inl (omega arith),
        (
          inl x_y-IsPlain,
          (
            inl x_y-IsPlain,
            (inr (codes "x.y", codes "8443", refl, x_y-IsPlain, omega arith, refl), tt),
          ),
        ),
      )
      refl refl
