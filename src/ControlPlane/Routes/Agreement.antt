-- ===== src/ControlPlane/Routes/Agreement.antt =====
-- Envoy and authorize take the same policy for a request.
use pomerium.Prelude.{
  ℕ, suc, Bytes, Bool, true, false, ◌&&◌, ◌≡◌, ◌⊎◌, refl, ap, ◌∙◌, List, [], ◌∷◌, Option, none,
  some, All, arith, Bool-cases, inl, inr, if◌then◌else◌,
}
use pomerium.Strings.{codes, bytes_eq, has_prefix, is_empty, index_byte}
use pomerium.Storage.{ok}
use pomerium.Urlutil.Hosts.{
  Url, Net, is_tcp, default_port, first_domain, get_domains_for_url, host_matches_domain,
}
use pomerium.Urlutil.Hosts.Domains.{IsCanonical, host_matches-eq}
use pomerium.Config.Policy.{Policy, matches}
use pomerium.Config.Options.{Options, get_all_policies}
use pomerium.Authorize.Requests.{
  strip_query_string, get_check_request_url, first_match, get_matching_policy,
}
use pomerium.ControlPlane.Routes.{Route, path_prefix}
use pomerium.ControlPlane.Routes.Pomerium.{plain_match}
use pomerium.ControlPlane.Routes.Policies.{
  Outside, mk_route_match, policy_route, is_proxy_fronting_authenticate, policy_routes_from,
  build_policy_routes,
}
use pomerium.ControlPlane.Routes.Envoy.{Envoy, first_route}

abbrev https : Bytes
https = codes "443"

-- A domain as envoy has it in a virtual host.
module _ (N : Net) where
  first_domain_canonical :
      (d : Bytes)
      → IsCanonical N https d
      → first_domain N
          (record { scheme = codes "https"; host = d; path = []; raw_query = []; others = [] })
        ≡ d
  unfolding first_domain get_domains_for_url is_tcp bytes_eq
  first_domain_canonical d (inl h) = rw (N.split_plain d h, N.hostname_plain d h) refl
  first_domain_canonical d (inr (n, p, e, ln, lp, o)) = rw (e, N.split_port n p ln lp, o) refl

slash_first : (s : Bytes) → has_prefix (strip_query_string (47 ∷ s)) (codes "/") ≡ true
unfolding strip_query_string index_byte has_prefix
slash_first s = ground arith

-- The URL that authorize makes of an https request to a domain.
abbrev pub request_url : (N : Net) (E : Envoy) → Bytes → E.Request → Url
request_url N E d r =
    get_check_request_url N (record { scheme = codes "https"; host = d; path = E.path r })

module _ (X : Outside) (E : Envoy) (match_regex : Bytes → Url → Option Bool) {V : Type 0} where
  -- A policy of the web at the default scheme, whose host is without the default port, that has no
  -- regex, and of a prefix and a path only one.
  abbrev pub IsOrdinary : Policy V → Type 0
  IsOrdinary p =
      (u : Url) × (p.source ≡ some u)
      × (is_tcp u ≡ false)
      × (bytes_eq u.scheme (codes "http") ≡ false)
      × IsCanonical X.net https u.host
      × (is_empty p.regex ≡ true)
      × ((is_empty p.prefix ≡ true) ⊎ (is_empty p.path ≡ true))

  -- The path test of Matches
  abbrev path_matches : Policy V → Bytes → Bool
  path_matches p path =
      (if is_empty p.prefix then true else has_prefix path p.prefix)
      && (if is_empty p.path then true else bytes_eq path p.path)

  takes_policy :
      (p : Policy V) (u : Url) (r : E.Request) (s : Bytes)
      → E.path r ≡ 47 ∷ s
      → is_tcp u ≡ false
      → is_empty p.regex ≡ true
      → (is_empty p.prefix ≡ true) ⊎ (is_empty p.path ≡ true)
      → E.takes (mk_route_match u p) r ≡ path_matches p (strip_query_string (E.path r))
  unfolding mk_route_match
  takes_policy p u r s e t x either =
      let root : E.takes (plain_match (path_prefix (codes "/"))) r ≡ true =
        E.takes_prefix (codes "/") r
        ∙ ap (λ w. has_prefix (strip_query_string w) (codes "/")) e
        ∙ slash_first s in
      elim (Bool-cases (is_empty p.prefix)) [
        | inl a ↦ elim (Bool-cases (is_empty p.path)) [
          | inl b ↦ rw (t, x, a, b) root
          | inr b ↦ rw (t, x, a, b) (E.takes_path p.path r)
        ]
        | inr a ↦ elim (Bool-cases (is_empty p.path)) [
          | inl b ↦ rw (t, x, a, b) (E.takes_prefix p.prefix r ∙ ground arith)
          | inr b ↦ absurd (ground (arith, either))
        ]
      ]

  -- Matches, where the host is that of the request
  matches_policy :
      (p : Policy V) (u : Url) (d : Bytes) (r : E.Request)
      → IsCanonical X.net https d
      → p.source ≡ some u
      → is_empty p.regex ≡ true
      → matches match_regex p (request_url X.net E d r)
        ≡ (bytes_eq u.host d && path_matches p (strip_query_string (E.path r)))
  unfolding matches get_check_request_url
  matches_policy p u d r c e x = rw (e, x, first_domain_canonical X.net d c) (ground arith)

  -- The route of the policy that authorize takes, as the j-th.
  abbrev pub route_of : Options V → Bool → ℕ → Option (Policy V) → Option Route
  route_of o fronting j none = none
  route_of o fronting j (some p) = elim p.source [
    | none ↦ none
    | some u ↦ some (policy_route X o fronting j u p)
  ]

  one_more :
      (o : Options V) (d : Bytes) (fronting : Bool) (r : E.Request) (s : Bytes) (i : ℕ)
      (p : Policy V) (policies : List (Policy V))
      → is_proxy_fronting_authenticate X o d ≡ some fronting
      → IsCanonical X.net https d
      → E.path r ≡ 47 ∷ s
      → IsOrdinary p
      → (routes : List Route) × (policy_routes_from X o d (suc i) policies ≡ ok routes)
        × (j : ℕ) × (first_route E routes r
            ≡ route_of o fronting j (first_match match_regex (request_url X.net E d r) policies))
      → (routes : List Route) × (policy_routes_from X o d i (p ∷ policies) ≡ ok routes)
        × (j : ℕ) × (first_route E routes r
            ≡ route_of o fronting j
                (first_match match_regex (request_url X.net E d r) (p ∷ policies)))
  unfolding policy_routes_from first_match first_route
  one_more o d fronting r s i p policies f c e (u, source, t, h, k, x, either)
        (routes, built, j, same) =
      let port : default_port u ≡ https = rw h refl in
      let host : host_matches_domain X.net u d ≡ bytes_eq u.host d =
        host_matches-eq X.net u d (rw port k) (rw port c) in
      let m = matches_policy p u d r c source x in
      let taken = takes_policy p u r s e t x either in
      elim (Bool-cases (bytes_eq u.host d)) [
        | inr b ↦ (routes, rw (source, host, b) built, j, rw (m, b) same)
        | inl b ↦ elim (Bool-cases (path_matches p (strip_query_string (E.path r)))) [
          | inl y ↦ (
            policy_route X o fronting i u p ∷ routes,
            simp (source, host, b, f, built),
            i,
            simp (m, b, y, taken, source),
          )
          | inr y ↦ (
            policy_route X o fronting i u p ∷ routes,
            simp (source, host, b, f, built),
            j,
            rw (m, b, taken, y) same,
          )
        ]
      ]

  agreement_from :
      (o : Options V) (d : Bytes) (fronting : Bool) (r : E.Request) (s : Bytes) (i : ℕ)
      (policies : List (Policy V))
      → is_proxy_fronting_authenticate X o d ≡ some fronting
      → IsCanonical X.net https d
      → E.path r ≡ 47 ∷ s
      → All IsOrdinary policies
      → (routes : List Route) × (policy_routes_from X o d i policies ≡ ok routes)
        × (j : ℕ) × (first_route E routes r
            ≡ route_of o fronting j (first_match match_regex (request_url X.net E d r) policies))
  unfolding policy_routes_from first_match first_route
  agreement_from o d fronting r s i [] f c e all = ([], refl, 0, refl)
  agreement_from o d fronting r s i (p ∷ policies) f c e (ordinary, all) =
      one_more o d fronting r s i p policies f c e ordinary
        (agreement_from o d fronting r s (suc i) policies f c e all)

  -- On a domain without the default port, of ordinary policies, the first policy route that takes an
  -- https request for an absolute path is that of the policy that authorize takes for the request, if
  -- there is one, and otherwise there is no such route.
  pub first_route-get_matching_policy :
      (o : Options V) (d : Bytes) (fronting : Bool) (r : E.Request) (s : Bytes)
      → is_proxy_fronting_authenticate X o d ≡ some fronting
      → IsCanonical X.net https d
      → E.path r ≡ 47 ∷ s
      → All IsOrdinary (get_all_policies o)
      → (routes : List Route) × (build_policy_routes X o d ≡ ok routes)
        × (j : ℕ) × (first_route E routes r
            ≡ route_of o fronting j (get_matching_policy match_regex o (request_url X.net E d r)))
  unfolding build_policy_routes get_matching_policy
  first_route-get_matching_policy o d fronting r s f c e all =
      agreement_from o d fronting r s 0 (get_all_policies o) f c e all
