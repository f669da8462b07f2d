-- ===== src/ControlPlane/Clusters.antt =====
-- The clusters that the control plane gives envoy, in internal/controlplane/xds_clusters.go: their
-- names, endpoints and transport sockets. The settings of DNS, timeouts and HTTP are left out.
pub mod Named
use pomerium.Prelude.{
  ℕ, Bytes, Bool, true, false, ◌&&◌, ◌==◌, not, List, [], ◌∷◌, ◌++◌, Option, none, some,
  if◌then◌else◌,
}
use pomerium.Strings.{codes, bytes_eq, is_empty}
use pomerium.Strings.Sorting.{has}
use pomerium.Storage.{Result, ok, err}
use pomerium.Urlutil.Hosts.{Url, strip_port}
use pomerium.Config.{is_proxy}
use pomerium.Config.Weights.{WeightedUrl}
use pomerium.Config.Policy.{Policy, Tls, EnvoyCluster}
use pomerium.Config.Options.{Options, get_authorize_urls, get_all_policies}
use pomerium.ControlPlane.Routes.Policies.{Outside, get_cluster_id, get_cluster_stats_name}

pub data ClusterError : Type 0 where
  bad_urls no_endpoints invalid_cluster name_not_unique : ClusterError

pub data DataSource : Type 0 where
  no_source : DataSource
  file_source bytes_source : Bytes → DataSource

-- A transport socket named "tls": its UpstreamTlsContext, where a certificate is bytes.
pub record TlsSocket : Type 0 where
  pub sni : Bytes
  pub exact_name : Bytes
  pub trusted_ca : DataSource
  pub accept_untrusted : Bool
  pub certificates : List Bytes
  pub has_tls_params : Bool

-- An Endpoint; a weight of nil is none.
pub record Endpoint : Type 0 where
  pub url : Url
  pub transport_socket : Option TlsSocket
  pub load_balancer_weight : Option ℕ

-- An LbEndpoint with its socket address; its metadata is the name of a transport socket.
pub record LbEndpoint : Type 0 where
  pub address : Bytes
  pub port : ℕ
  pub weight : Option ℕ
  pub socket_match : Option Bytes

pub record Cluster : Type 0 where
  pub name : Bytes
  pub alt_stat_name : Bytes
  pub endpoints : List LbEndpoint
  pub transport_socket_matches : List (Bytes × TlsSocket)
  pub transport_socket : Option TlsSocket
  pub is_static : Bool

-- What clusters depend on outside the program: strconv.Atoi, as a uint32, nettest.SupportsIPv6 and
-- net.ParseIP; strings.Replace of localhost by 127.0.0.1; HashProto of a socket in base 36; the
-- system's root certificates, the bytes that base64 gives, and the generated Validate of a cluster.
pub record ClusterLibrary : Type 0 where
  pub atoi : Bytes → Option ℕ
  pub supports_ipv6 : Bool
  pub is_ip : Bytes → Bool
  pub replace_localhost : Bytes → Bytes
  pub digest : TlsSocket → Bytes
  pub root_ca : Option Bytes
  pub decode_base64 : Bytes → Bytes
  pub is_valid : Cluster → Bool

-- The options that the control plane's own sockets depend on.
pub record InternalTls : Type 0 where
  pub override_certificate_name : Bytes
  pub ca : Bytes
  pub ca_file : Bytes

-- NewEndpoint
abbrev pub new_endpoint : Url → Option TlsSocket → ℕ → Endpoint
new_endpoint u ts weight = record {
  url = u;
  transport_socket = ts;
  load_balancer_weight = if weight == 0 then none else some weight;
}

abbrev pub root_source : Option Bytes → DataSource
root_source none = no_source
root_source (some file) = file_source file

module _ (X : Outside) (L : ClusterLibrary) where
  -- The choice of the trusted CA
  abbrev pub trusted_ca_of : Bytes → Bytes → DataSource
  trusted_ca_of ca_file ca =
      if not (is_empty ca_file)
      then file_source ca_file
      else if not (is_empty ca)
      then bytes_source (L.decode_base64 ca)
      else root_source L.root_ca

  abbrev name_or : Bytes → Bytes → Bytes
  name_or override hostname = if is_empty override then hostname else override

  -- buildInternalTransportSocket
  unfoldable pub build_internal_transport_socket : InternalTls → Url → Option TlsSocket
  build_internal_transport_socket o endpoint =
      let sni = name_or o.override_certificate_name (X.text.hostname endpoint) in
      if bytes_eq endpoint.scheme (codes "https")
      then some (record {
        sni = sni;
        exact_name = sni;
        trusted_ca = trusted_ca_of o.ca_file o.ca;
        accept_untrusted = false;
        certificates = [];
        has_tls_params = false;
      })
      else none

  abbrev certificates_of : Option Bytes → List Bytes
  certificates_of none = []
  certificates_of (some c) = c ∷ []

  -- buildPolicyTransportSocket, with buildPolicyValidationContext
  unfoldable pub build_policy_transport_socket : Tls → Url → Option TlsSocket
  build_policy_transport_socket t dst =
      let sni = name_or t.tls_server_name (X.text.hostname dst) in
      if bytes_eq dst.scheme (codes "https")
      then some (record {
        sni = sni;
        exact_name = sni;
        trusted_ca = trusted_ca_of t.tls_custom_ca_file t.tls_custom_ca;
        accept_untrusted = t.tls_skip_verify;
        certificates = certificates_of t.client_certificate;
        has_tls_params = true;
      })
      else none

  -- buildPolicyEndpoints
  unfoldable pub build_policy_endpoints : Tls → List WeightedUrl → List Endpoint
  unfolding build_policy_transport_socket
  build_policy_endpoints t [] = []
  build_policy_endpoints t (dst ∷ to) =
      new_endpoint dst.url (build_policy_transport_socket t dst.url) dst.lb_weight
      ∷ build_policy_endpoints t to

  -- The loop of buildInternalCluster
  unfoldable pub internal_endpoints : InternalTls → List Url → List Endpoint
  unfolding build_internal_transport_socket
  internal_endpoints o [] = []
  internal_endpoints o (dst ∷ dsts) =
      new_endpoint dst (build_internal_transport_socket o dst) 1 ∷ internal_endpoints o dsts

  -- TransportSocketName, of a socket that is not nil
  abbrev pub transport_socket_name : TlsSocket → Bytes
  transport_socket_name ts = codes "ts-" ++ L.digest ts

  abbrev pub port_or : Option ℕ → ℕ → ℕ
  port_or none default_port = default_port
  port_or (some port) default_port = port

  abbrev any_address : Bytes
  any_address = if L.supports_ipv6 then codes "::" else codes "0.0.0.0"

  abbrev address_of : Option (Bytes × Bytes) → Bytes → ℕ → Bytes × ℕ
  address_of none hostport default_port = (hostport, default_port)
  address_of (some (host, port)) hostport default_port = (host, port_or (L.atoi port) default_port)

  -- buildAddress of internal/controlplane/xds.go: the host and the port
  unfoldable pub build_address : Bytes → ℕ → Bytes × ℕ
  build_address hostport default_port =
      let (host, port) = address_of (X.net.split_host_port hostport) hostport default_port in
      (if is_empty host then any_address else host, port)

  abbrev name_of : Option TlsSocket → Option Bytes
  name_of none = none
  name_of (some ts) = some (transport_socket_name ts)

  abbrev socket_port : Option TlsSocket → ℕ
  socket_port none = 80
  socket_port (some ts) = 443

  -- The body of the loop of buildLbEndpoints
  unfoldable pub lb_endpoint : Endpoint → LbEndpoint
  unfolding build_address
  lb_endpoint e =
      let host =
        if bytes_eq (X.text.hostname e.url) (codes "localhost")
        then L.replace_localhost e.url.host
        else e.url.host in
      let (address, port) = build_address host (socket_port e.transport_socket) in
      record {
        address = address;
        port = port;
        weight = e.load_balancer_weight;
        socket_match = name_of e.transport_socket;
      }

  -- buildLbEndpoints
  unfoldable pub build_lb_endpoints : List Endpoint → List LbEndpoint
  unfolding lb_endpoint
  build_lb_endpoints [] = []
  build_lb_endpoints (e ∷ endpoints) = lb_endpoint e ∷ build_lb_endpoints endpoints

  -- buildTransportSocketMatches, with the names that have been seen
  unfoldable pub build_transport_socket_matches :
      List Bytes → List Endpoint → List (Bytes × TlsSocket)
  build_transport_socket_matches seen [] = []
  build_transport_socket_matches seen (e ∷ endpoints) = elim e.transport_socket [
    | none ↦ build_transport_socket_matches seen endpoints
    | some ts ↦
        let nm = transport_socket_name ts in
        let others = build_transport_socket_matches seen endpoints in
        let more = build_transport_socket_matches (nm ∷ seen) endpoints in
        if has nm seen then others else (nm, ts) ∷ more
  ]

  abbrev first_socket : List (Bytes × TlsSocket) → Option TlsSocket
  first_socket [] = none
  first_socket (x ∷ l) = some x.1

  abbrev all_ip : List LbEndpoint → Bool
  all_ip [] = true
  all_ip (e ∷ l) = let rest = all_ip l in if L.is_ip (strip_port e.address) then rest else false

  abbrev pub made_cluster : Bytes → Bytes → List Endpoint → Cluster
  made_cluster alt_stat_name name endpoints =
      let matches = build_transport_socket_matches [] endpoints in
      let lb_endpoints = build_lb_endpoints endpoints in
      record {
        name = name;
        alt_stat_name = alt_stat_name;
        endpoints = lb_endpoints;
        transport_socket_matches = matches;
        transport_socket = first_socket matches;
        is_static = all_ip lb_endpoints;
      }

  -- buildCluster, of a cluster without a transport socket
  unfoldable pub build_cluster : Bytes → Bytes → List Endpoint → Result ClusterError Cluster
  unfolding build_lb_endpoints build_transport_socket_matches strip_port
  build_cluster alt_stat_name name [] = err no_endpoints
  build_cluster alt_stat_name name (e ∷ endpoints) =
      let c = made_cluster alt_stat_name name (e ∷ endpoints) in
      if L.is_valid c then ok c else err invalid_cluster

  -- buildInternalCluster
  unfoldable pub build_internal_cluster :
      InternalTls → Bytes → List Url → Result ClusterError Cluster
  unfolding internal_endpoints build_cluster
  build_internal_cluster t name dsts = build_cluster [] name (internal_endpoints t dsts)

  abbrev pub cons_cluster :
      Result ClusterError Cluster
      → Result ClusterError (List Cluster)
      → Result ClusterError (List Cluster)
  cons_cluster (err e) rest = err e
  cons_cluster (ok c) (err e) = err e
  cons_cluster (ok c) (ok clusters) = ok (c ∷ clusters)

  -- A policy without URLs has no cluster.
  abbrev pub add_cluster :
      List WeightedUrl
      → Result ClusterError Cluster
      → Result ClusterError (List Cluster)
      → Result ClusterError (List Cluster)
  add_cluster [] made rest = rest
  add_cluster (dst ∷ to) made rest = cons_cluster made rest

  abbrev with_opts : Option EnvoyCluster → EnvoyCluster
  with_opts none = record { name = []; rest = [] }
  with_opts (some opts) = opts

  module _ {V : Type 0} where
    -- buildPolicyCluster, of a policy that buildClusters has given its options
    unfoldable pub build_policy_cluster : Policy V → Result ClusterError Cluster
    unfolding get_cluster_id build_policy_endpoints build_cluster
    build_policy_cluster p =
        build_cluster (get_cluster_stats_name p.envoy_opts) (get_cluster_id X p)
          (build_policy_endpoints p.tls p.to)

    abbrev pub with_default_opts : Policy V → Policy V
    with_default_opts p = record p { envoy_opts = some (with_opts p.envoy_opts) }

    -- The loop of buildClusters over the policies
    unfoldable pub policy_clusters : List (Policy V) → Result ClusterError (List Cluster)
    unfolding build_policy_cluster
    policy_clusters [] = ok []
    policy_clusters (p ∷ policies) =
        add_cluster p.to (build_policy_cluster (with_default_opts p)) (policy_clusters policies)

  -- validateClusters, with the names that are there
  unfoldable pub validate_clusters : List Bytes → List Cluster → Bool
  validate_clusters names [] = true
  validate_clusters names (c ∷ clusters) =
      let rest = validate_clusters (c.name ∷ names) clusters in
      if has c.name names then false else rest

  abbrev pub checked_clusters :
      Result ClusterError (List Cluster) → Result ClusterError (List Cluster)
  checked_clusters (err e) = err e
  checked_clusters (ok clusters) =
      if validate_clusters [] clusters then ok clusters else err name_not_unique

  module _ {V : Type 0} where
    -- buildClusters, with the URLs of the control plane's listeners
    unfoldable pub build_clusters :
        InternalTls → Url → Url → Options V → Result ClusterError (List Cluster)
    unfolding get_authorize_urls build_internal_cluster policy_clusters validate_clusters is_proxy
        get_all_policies
    build_clusters t grpc_url http_url o = elim (get_authorize_urls X.text.parse o) [
      | none ↦ err bad_urls
      | some authz_urls ↦ checked_clusters (
          cons_cluster
            (build_internal_cluster t (codes "pomerium-control-plane-grpc") (grpc_url ∷ []))
            (cons_cluster
              (build_internal_cluster t (codes "pomerium-control-plane-http") (http_url ∷ []))
              (cons_cluster (build_internal_cluster t (codes "pomerium-authorize") authz_urls)
                (if is_proxy o.services then policy_clusters (get_all_policies o) else ok []))))
    ]
