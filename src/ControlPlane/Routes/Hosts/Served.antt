-- ===== src/ControlPlane/Routes/Hosts/Served.antt =====
-- The domains that are routed are those of the URLs that are served.
use pomerium.Prelude.{
  Bytes, Bool, true, ◌&&◌, ◌||◌, ◌≡◌, refl, sym, ◌∙◌, subst, List, [], ◌∷◌, Option, some, All,
  any_of, arith, Bool-cases, inl, inr, if◌then◌else◌,
}
use pomerium.Strings.{bytes_eq}
use pomerium.Strings.Splitting.{bytes_eq→eq}
use pomerium.Strings.Sorting.{
  has, sort_strings, has-sort_strings, IsAscending, IsDistinct, sort_strings-IsAscending,
}
use pomerium.Storage.{ok, ok-injective}
use pomerium.Urlutil.Hosts.{Url, Net, get_domains_for_url, host_matches_domain}
use pomerium.Urlutil.Hosts.Domains.{IsHost, host_matches-get_domains}
use pomerium.Config.{is_proxy}
use pomerium.Config.Options.{
  Options, get_authenticate_url, get_authorize_urls, get_data_broker_urls, get_forward_auth_url,
  get_all_policies,
}
use pomerium.ControlPlane.Routes.Policies.{Outside}
use pomerium.ControlPlane.Routes.Hosts.{
  add_all, add_domains, hosts_match_domain, sources, served_urls, get_all_routeable_domains,
}

has-add_all :
    (d : Bytes) (hs lookup : List Bytes) → has d (add_all hs lookup) ≡ (has d hs || has d lookup)
unfolding add_all
has-add_all d [] lookup = refl
has-add_all d (h ∷ hs) lookup = elim (Bool-cases (has h lookup)) [
  | inl e ↦ elim (Bool-cases (bytes_eq d h)) [
    | inl same ↦
        let there = subst (λ x. has x lookup ≡ true) (sym (bytes_eq→eq d h same)) e in
        rw (e, same) (has-add_all d hs lookup ∙ ground (arith, there))
    | inr other ↦ rw (e, other) (has-add_all d hs lookup)
  ]
  | inr e ↦ rw e (has-add_all d hs (h ∷ lookup) ∙ ground arith)
]

add_all-IsDistinct : (hs lookup : List Bytes) → IsDistinct lookup → IsDistinct (add_all hs lookup)
unfolding add_all
add_all-IsDistinct [] lookup d = d
add_all-IsDistinct (h ∷ hs) lookup d = elim (Bool-cases (has h lookup)) [
  | inl e ↦ rw e (add_all-IsDistinct hs lookup d)
  | inr e ↦ rw e (add_all-IsDistinct hs (h ∷ lookup) (e, d))
]

module _ (N : Net) where
  abbrev pub is_domain_of : Bytes → List Url → Bool
  is_domain_of d urls = any_of (λ u. has d (get_domains_for_url N u)) urls

  has-add_domains :
      (d : Bytes) (urls : List Url) (lookup : List Bytes)
      → has d (add_domains N urls lookup) ≡ (is_domain_of d urls || has d lookup)
  unfolding add_domains
  has-add_domains d [] lookup = refl
  has-add_domains d (u ∷ urls) lookup = ground (
    arith,
    has-add_domains d urls (add_all (get_domains_for_url N u) lookup),
    has-add_all d (get_domains_for_url N u) lookup,
  )

  add_domains-IsDistinct :
      (urls : List Url) (lookup : List Bytes)
      → IsDistinct lookup
      → IsDistinct (add_domains N urls lookup)
  unfolding add_domains
  add_domains-IsDistinct [] lookup d = d
  add_domains-IsDistinct (u ∷ urls) lookup d =
      add_domains-IsDistinct urls _ (add_all-IsDistinct (get_domains_for_url N u) lookup d)

  has-host_matches :
      (u : Url) (d : Bytes) (domains : List Bytes)
      → All (λ x. host_matches_domain N u x ≡ true) domains
      → has d domains ≡ true
      → host_matches_domain N u d ≡ true
  has-host_matches u d [] all h = cc
  has-host_matches u d (x ∷ domains) (m, all) h = elim (Bool-cases (bytes_eq d x)) [
    | inl e ↦ subst (λ y. host_matches_domain N u y ≡ true) (sym (bytes_eq→eq d x e)) m
    | inr e ↦ has-host_matches u d domains all (rw e at h)
  ]

  domain_of-matches :
      (d : Bytes) (urls : List Url)
      → All (λ u. IsHost N u.host) urls
      → is_domain_of d urls ≡ true
      → hosts_match_domain N urls d ≡ true
  unfolding hosts_match_domain
  domain_of-matches d [] hosts h = cc
  domain_of-matches d (u ∷ urls) (host, hosts) h =
      elim (Bool-cases (has d (get_domains_for_url N u))) [
        | inl e ↦
            rw
              (has-host_matches u d (get_domains_for_url N u) (host_matches-get_domains N u host) e)
              refl
        | inr e ↦ ground (arith, domain_of-matches d urls hosts (rw e at h))
      ]

module _ (X : Outside) {V : Type 0} where
  -- The sources of the policies, where a proxy serves them.
  abbrev pub served_sources : Options V → Bytes → Option (List Url)
  served_sources o addr =
      if is_proxy o.services && bytes_eq addr o.addr then sources (get_all_policies o) else some []

  pub get_all_routeable_domains-served :
      (o : Options V) (addr : Bytes) (authenticate : Url)
      (authorize data_broker policies : List Url) (forward_auth : Option Url)
      → get_authenticate_url X.text.parse o ≡ some authenticate
      → get_authorize_urls X.text.parse o ≡ some authorize
      → get_data_broker_urls X.text.parse o ≡ some data_broker
      → get_forward_auth_url X.text.parse o ≡ some forward_auth
      → served_sources o addr ≡ some policies
      → (domains : List Bytes) × (get_all_routeable_domains X o addr ≡ ok domains)
        × IsAscending domains
        × ((d : Bytes)
            → has d domains
              ≡ is_domain_of X.net d
                  (served_urls X o addr authenticate authorize data_broker forward_auth policies))
  unfolding get_all_routeable_domains
  get_all_routeable_domains-served o addr authenticate authorize data_broker policies forward_auth a
        b c e f =
      let urls = served_urls X o addr authenticate authorize data_broker forward_auth policies in
      (
        sort_strings (add_domains X.net urls []),
        rw (get_all_routeable_domains, a, b, c, e, f) refl,
        sort_strings-IsAscending (add_domains X.net urls [])
            (add_domains-IsDistinct X.net urls [] tt),
        λ d.
            has-sort_strings d (add_domains X.net urls [])
            ∙ has-add_domains X.net d urls []
            ∙ ground arith,
      )

  -- Where moreover no URL has an IPv6 literal as its host, each domain that is routed is one that some
  -- served URL matches.
  pub get_all_routeable_domains-matched :
      (o : Options V) (addr : Bytes) (authenticate : Url)
      (authorize data_broker policies : List Url) (forward_auth : Option Url) (domains : List Bytes)
      (d : Bytes)
      → get_authenticate_url X.text.parse o ≡ some authenticate
      → get_authorize_urls X.text.parse o ≡ some authorize
      → get_data_broker_urls X.text.parse o ≡ some data_broker
      → get_forward_auth_url X.text.parse o ≡ some forward_auth
      → served_sources o addr ≡ some policies
      → All
          (λ u. IsHost X.net u.host)
          (served_urls X o addr authenticate authorize data_broker forward_auth policies)
      → get_all_routeable_domains X o addr ≡ ok domains
      → has d domains ≡ true
      → hosts_match_domain X.net
          (served_urls X o addr authenticate authorize data_broker forward_auth policies)
          d
        ≡ true
  get_all_routeable_domains-matched o addr authenticate authorize data_broker policies forward_auth
        domains d a b c e f hosts built h =
      let (all, made, ascending, served) =
        get_all_routeable_domains-served o addr authenticate authorize data_broker policies
          forward_auth a b c e f in
      domain_of-matches X.net d _ hosts (
        sym (served d)
        ∙ subst (λ l. has d l ≡ true)
            (sym (ok-injective (get_all_routeable_domains X o addr) made built)) h)
