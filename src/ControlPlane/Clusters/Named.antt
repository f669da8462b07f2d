-- ===== src/ControlPlane/Clusters/Named.antt =====
-- The clusters that routes name.
use pomerium.Prelude.{
  Bytes, Bool, true, false, ◌&&◌, not, ◌≡◌, refl, ap, sym, ◌∙◌, subst, List, [], ◌∷◌, Option, none,
  some, All, arith, Bool-cases, Option-cases, inl, inr,
}
use pomerium.Strings.Splitting.{bytes_eq_refl}
use pomerium.Strings.Sorting.{has, IsDistinct}
use pomerium.Storage.{Result, ok, err, ok-injective}
use pomerium.Urlutil.Hosts.{Url}
use pomerium.Urlutil.Hosts.Domains.{bytes_eq_comm}
use pomerium.Config.{is_proxy}
use pomerium.Config.Weights.{WeightedUrl}
use pomerium.Config.Policy.{Policy, PolicyRedirect}
use pomerium.Config.Policy.Validation.{is_set, none_left}
use pomerium.Config.Options.{Options, get_authorize_urls, get_all_policies}
use pomerium.ControlPlane.Routes.{Action, route_to, redirect_to, Route, RouteAction}
use pomerium.ControlPlane.Routes.Policies.{
  Outside, get_cluster_id, action_of, build_policy_route_route_action, policy_route,
  is_proxy_fronting_authenticate, build_policy_routes,
}
use pomerium.ControlPlane.Routes.Policies.Each.{policy_routes_from-All}
use pomerium.ControlPlane.Clusters.{
  ClusterError, Cluster, ClusterLibrary, Endpoint, InternalTls, made_cluster, build_cluster,
  cons_cluster, with_default_opts, add_cluster, build_policy_cluster, policy_clusters,
  validate_clusters, checked_clusters, build_clusters,
}

abbrev pub names_of : List Cluster → List Bytes
names_of [] = []
names_of (c ∷ clusters) = c.name ∷ names_of clusters

-- The cluster that an action routes to is there.
abbrev pub is_served : List Bytes → Action → Bool
is_served names (route_to a) = has a.cluster names
is_served names (redirect_to r) = true

first_of_names : (id n : Bytes) (names : List Bytes) → n ≡ id → has id (n ∷ names) ≡ true
first_of_names id n names e = rw (e, bytes_eq_refl id) refl

module _ (X : Outside) (L : ClusterLibrary) where
  build_cluster-name :
      (stat_name name : Bytes) (endpoints : List Endpoint) (c : Cluster)
      → build_cluster X L stat_name name endpoints ≡ ok c
      → c.name ≡ name
  unfolding build_cluster
  build_cluster-name stat_name name [] c h = cc
  build_cluster-name stat_name name (e ∷ endpoints) c h =
      elim (Bool-cases (L.is_valid (made_cluster X L stat_name name (e ∷ endpoints)))) [
        | inl v ↦
            let made : build_cluster X L stat_name name (e ∷ endpoints)
                ≡ ok (made_cluster X L stat_name name (e ∷ endpoints)) =
              rw v refl in
            ap (λ x. x.name)
              (sym (ok-injective (build_cluster X L stat_name name (e ∷ endpoints)) made h))
        | inr v ↦ cc (rw (build_cluster, v) at h)
      ]

  module _ {V : Type 0} where
    get_cluster_id-default :
        (p : Policy V) → get_cluster_id X (with_default_opts X L p) ≡ get_cluster_id X p
    unfolding get_cluster_id
    get_cluster_id-default p = elim (Option-cases p.envoy_opts) [
      | inl e ↦ simp e
      | inr (c, e) ↦ simp e
    ]

    -- A policy with URLs has its cluster among those with the names.
    abbrev HasCluster : List Bytes → Policy V → Type 0
    HasCluster names p = none_left p.to ≡ false → has (get_cluster_id X p) names ≡ true

    built-name :
        (p : Policy V) (c : Cluster)
        → build_policy_cluster X L p ≡ ok c
        → c.name ≡ get_cluster_id X p
    unfolding build_policy_cluster
    built-name p c h = build_cluster-name _ _ _ c h

    weaken :
        (names : List Bytes) (n : Bytes) (policies : List (Policy V))
        → All (HasCluster names) policies
        → All (HasCluster (n ∷ names)) policies
    weaken names n [] all = tt
    weaken names n (p ∷ policies) (h, all) = (λ e. ground (arith, h e), weaken names n policies all)

    -- The clusters with that of one more policy
    added :
        (p : Policy V) (policies : List (Policy V)) (made : Result ClusterError Cluster)
        (to : List WeightedUrl) (rest : Result ClusterError (List Cluster))
        (clusters : List Cluster)
        → build_policy_cluster X L (with_default_opts X L p) ≡ made
        → add_cluster X L to made rest ≡ ok clusters
        → ((cs : List Cluster) → rest ≡ ok cs → All (HasCluster (names_of cs)) policies)
        → (none_left to ≡ false → has (get_cluster_id X p) (names_of clusters) ≡ true)
          × All (HasCluster (names_of clusters)) policies
    added p policies made [] rest clusters m h all = ((λ left. cc left), all clusters h)
    added p policies (err x) (u ∷ to) rest clusters m h all = cc h
    added p policies (ok c) (u ∷ to) (err x) clusters m h all = cc h
    added p policies (ok c) (u ∷ to) (ok cs) clusters m h all =
        let name = built-name (with_default_opts X L p) c m ∙ get_cluster_id-default p in
        subst
          (λ l.
            (none_left (u ∷ to) ≡ false → has (get_cluster_id X p) (names_of l) ≡ true)
            × All (HasCluster (names_of l)) policies)
          (ok-injective (ok (c ∷ cs)) refl h)
          (
            (λ left. first_of_names (get_cluster_id X p) c.name (names_of cs) name),
            weaken (names_of cs) c.name policies (all cs refl),
          )

    policy_clusters-HasCluster :
        (policies : List (Policy V)) (clusters : List Cluster)
        → policy_clusters X L policies ≡ ok clusters
        → All (HasCluster (names_of clusters)) policies
    unfolding policy_clusters
    policy_clusters-HasCluster [] clusters h = tt
    policy_clusters-HasCluster (p ∷ policies) clusters h =
        added p policies (build_policy_cluster X L (with_default_opts X L p)) p.to
          (policy_clusters X L policies) clusters refl h (policy_clusters-HasCluster policies)

apart_from_others :
    (n : Bytes) (names others : List Bytes)
    → All (λ m. has m (n ∷ others) ≡ false) names
    → (has n names ≡ false) × All (λ m. has m others ≡ false) names
apart_from_others n [] others all = (refl, tt)
apart_from_others n (m ∷ names) others (h, all) =
    let (apart, rest) = apart_from_others n names others all in
    (ground (arith, h, apart, bytes_eq_comm n m), (ground (arith, h), rest))

validate_clusters-IsDistinct :
    (X : Outside) (L : ClusterLibrary) (names : List Bytes) (clusters : List Cluster)
    → validate_clusters X L names clusters ≡ true
    → All (λ n. has n names ≡ false) (names_of clusters) × IsDistinct (names_of clusters)
unfolding validate_clusters
validate_clusters-IsDistinct X L names [] h = (tt, tt)
validate_clusters-IsDistinct X L names (c ∷ clusters) h = elim (Bool-cases (has c.name names)) [
  | inl e ↦ cc (rw e at h)
  | inr e ↦
      let (new, distinct) =
        validate_clusters-IsDistinct X L (c.name ∷ names) clusters (rw e at h) in
      let (apart, others) = apart_from_others c.name (names_of clusters) names new in
      ((e, others), (apart, distinct))
]

module _ (X : Outside) (L : ClusterLibrary) where
  cons_cluster-ok :
      (c : Result ClusterError Cluster) (rest : Result ClusterError (List Cluster))
      (l : List Cluster)
      → cons_cluster X L c rest ≡ ok l
      → (n : Bytes) × (cs : List Cluster) × (rest ≡ ok cs) × (names_of l ≡ n ∷ names_of cs)
  cons_cluster-ok (err e) rest l h = cc h
  cons_cluster-ok (ok c) (err e) l h = cc h
  cons_cluster-ok (ok c) (ok cs) l h =
      (c.name, cs, refl, ap names_of (sym (ok-injective (ok (c ∷ cs)) refl h)))

  checked_clusters-ok :
      (r : Result ClusterError (List Cluster)) (l : List Cluster)
      → checked_clusters X L r ≡ ok l
      → (r ≡ ok l) × (validate_clusters X L [] l ≡ true)
  checked_clusters-ok (err e) l h = cc h
  checked_clusters-ok (ok cs) l h = elim (Bool-cases (validate_clusters X L [] cs)) [
    | inr v ↦ cc (rw v at h)
    | inl v ↦
        let same = ok-injective (ok cs) refl (rw v at h) in
        (ap ok same, subst (λ x. validate_clusters X L [] x ≡ true) same v)
  ]

  module _ {V : Type 0} where
    -- A policy has a URL or a redirect, as Validate checks.
    abbrev pub HasTarget : Policy V → Type 0
    HasTarget p = none_left p.to && not (is_set p.redirect) ≡ false

    both :
        (names : List Bytes) (policies : List (Policy V))
        → All (HasCluster X L names) policies
        → All HasTarget policies
        → All (λ p. HasCluster X L names p × HasTarget p) policies
    both names [] a b = tt
    both names (p ∷ policies) (x, a) (y, b) = ((x, y), both names policies a b)

    action_of-is_served :
        (names : List Bytes) (p : Policy V) (redirect : Option PolicyRedirect) (a : RouteAction)
        → (none_left p.to ≡ false → has a.cluster names ≡ true)
        → none_left p.to && not (is_set redirect) ≡ false
        → is_served names (action_of redirect a) ≡ true
    action_of-is_served names p (some r) a h target = refl
    action_of-is_served names p none a h target = h (ground (arith, target))

    names_of-clusters :
        (t : InternalTls) (grpc_url http_url : Url) (o : Options V) (clusters : List Cluster)
        → is_proxy o.services ≡ true
        → build_clusters X L t grpc_url http_url o ≡ ok clusters
        → All (HasCluster X L (names_of clusters)) (get_all_policies o)
          × IsDistinct (names_of clusters)
    unfolding build_clusters
    names_of-clusters t grpc_url http_url o clusters proxy h =
        elim (Option-cases (get_authorize_urls X.text.parse o)) [
          | inl e ↦ cc (rw (build_clusters, e) at h)
          | inr (urls, e) ↦
              let policies = get_all_policies o in
              let (made, valid) =
                checked_clusters-ok _ clusters (rw (build_clusters, e, proxy) at h) in
              let (n, cs, second, names) = cons_cluster-ok _ _ clusters made in
              let (m, ds, third, other_names) = cons_cluster-ok _ _ cs second in
              let (k, es, fourth, last_names) = cons_cluster-ok _ _ ds third in
              let rest = names_of es in
              let all = weaken X L (m ∷ k ∷ rest) n policies (
                weaken X L (k ∷ rest) m policies (
                  weaken X L rest k policies
                    (policy_clusters-HasCluster X L policies es fourth))) in
              let same : names_of clusters ≡ n ∷ m ∷ k ∷ rest =
                names ∙ ap (◌∷◌ n) (other_names ∙ ap (◌∷◌ m) last_names) in
              (
                subst (λ ns. All (HasCluster X L ns) policies) (sym same) all,
                (validate_clusters-IsDistinct X L [] clusters valid).1,
              )
        ]

    -- The clusters that a proxy is given have names of their own, and, where each policy has a URL or
    -- a redirect, every policy route that is not a redirect names one of them.
    pub build_clusters-build_policy_routes :
        (t : InternalTls) (grpc_url http_url : Url) (o : Options V) (d : Bytes) (fronting : Bool)
        (clusters : List Cluster) (routes : List Route)
        → is_proxy o.services ≡ true
        → All HasTarget (get_all_policies o)
        → is_proxy_fronting_authenticate X o d ≡ some fronting
        → build_clusters X L t grpc_url http_url o ≡ ok clusters
        → build_policy_routes X o d ≡ ok routes
        → All (λ r. is_served (names_of clusters) r.action ≡ true) routes
          × IsDistinct (names_of clusters)
    unfolding build_policy_routes build_policy_route_route_action policy_route
    build_clusters-build_policy_routes t grpc_url http_url o d fronting clusters routes proxy
          targets f made built =
        let names = names_of clusters in
        let (all, distinct) = names_of-clusters t grpc_url http_url o clusters proxy made in
        (
          policy_routes_from-All X o d fronting (λ p. HasCluster X L names p × HasTarget p)
              (λ r. is_served names r.action ≡ true)
              (λ i u p h.
                action_of-is_served names p p.redirect (build_policy_route_route_action X o u p) h.0
                  h.1)
              0 (get_all_policies o) routes f (both names (get_all_policies o) all targets) built,
          distinct,
        )
