-- ===== src/Tests/Clusters.antt =====
-- The clusters and the policy routes of one policy.
use pomerium.Prelude.{Bytes, true, false, ◌≡◌, refl, List, [], ◌∷◌, none, All}
use pomerium.Strings.{codes, bytes_eq, has_prefix, index_byte}
use pomerium.Strings.Sorting.{IsDistinct}
use pomerium.Urlutil.Hosts.{Url}
use pomerium.Config.{is_authenticate, is_proxy}
use pomerium.Config.Policy.Values.{GoValue}
use pomerium.Config.Options.{Options, local_url, get_all_policies}
use pomerium.ControlPlane.Routes.{Route}
use pomerium.ControlPlane.Routes.Policies.{
  policy_route, is_proxy_fronting_authenticate, build_policy_routes,
}
use pomerium.ControlPlane.Clusters.{
  ClusterLibrary, InternalTls, Cluster, made_cluster, build_policy_endpoints, internal_endpoints,
  build_clusters,
}
use pomerium.ControlPlane.Clusters.Named.{build_clusters-build_policy_routes, names_of, is_served}
use pomerium.Tests.Configs.{https_url, policy_for, x_y, no_tls}
use pomerium.Tests.Routes.{outside, options}

abbrev library : ClusterLibrary
library = record {
  atoi = λ p. none;
  supports_ipv6 = false;
  is_ip = λ h. false;
  replace_localhost = λ h. h;
  digest = λ ts. ts.sni;
  root_ca = none;
  decode_base64 = λ b. b;
  is_valid = λ c. true;
}

abbrev internal_tls : InternalTls
internal_tls = record { override_certificate_name = []; ca = []; ca_file = [] }

-- Options with the first policy only.
abbrev one_policy : Options GoValue
one_policy = record options {
  policies = policy_for (codes "/a") [] x_y ∷ [];
  additional_policies = [];
}

abbrev http_url : Bytes → Url
http_url host = record {
  scheme = codes "http";
  host = host;
  path = [];
  raw_query = [];
  others = [];
}

abbrev first_policy_route : Route
first_policy_route =
    policy_route outside one_policy false 0 (https_url (codes "x.y"))
      (policy_for (codes "/a") [] x_y)

-- The clusters of the control plane, of authorize and of the policy.
abbrev clusters_here : List Cluster
clusters_here =
    made_cluster outside library [] (codes "pomerium-control-plane-grpc")
      (internal_endpoints outside library internal_tls (http_url (codes "a:1") ∷ []))
    ∷ made_cluster outside library [] (codes "pomerium-control-plane-http")
        (internal_endpoints outside library internal_tls (http_url (codes "a:2") ∷ []))
    ∷ made_cluster outside library [] (codes "pomerium-authorize")
        (internal_endpoints outside library internal_tls (local_url ∷ []))
    ∷ made_cluster outside library [] (codes "route-7")
        (build_policy_endpoints outside library no_tls (policy_for (codes "/a") [] x_y).to)
    ∷ []

build_clusters-build_policy_routes_example :
    All (λ r. is_served (names_of clusters_here) r.action ≡ true) (first_policy_route ∷ [])
    × IsDistinct (names_of clusters_here)
unfolding build_clusters is_proxy get_all_policies is_proxy_fronting_authenticate is_authenticate
    has_prefix bytes_eq build_policy_routes index_byte
build_clusters-build_policy_routes_example =
    build_clusters-build_policy_routes outside library internal_tls (http_url (codes "a:1"))
      (http_url (codes "a:2")) one_policy (codes "x.y") false clusters_here
      (first_policy_route ∷ []) refl (refl, tt) refl refl refl
