-- ===== src/ControlPlane/Routes/Protection.antt =====
-- Which requests skip the authorization, on a domain's routes.
use mathlib.Core.Option.{some-injective}
use mathlib.Core.List.{append-nil, append_assoc}
use pomerium.Prelude.{
  Bytes, Bool, true, false, ◌&&◌, ◌||◌, not, ◌≡◌, refl, ap, sym, ◌∙◌, subst, List, [], ◌∷◌, ◌++◌,
  Option, some, All, arith, Bool-cases, inl, inr, if◌then◌else◌,
}
use pomerium.Strings.{codes, bytes_eq, has_prefix}
use pomerium.Storage.{ok, ok-injective, Result-cases}
use pomerium.Urlutil.Hosts.{Url, host_matches_domain}
use pomerium.Config.{is_authenticate, is_proxy}
use pomerium.Config.Options.{Options, get_authenticate_url, get_forward_auth_url, get_all_policies}
use pomerium.Authorize.Requests.{strip_query_string}
use pomerium.ControlPlane.Routes.{Route}
use pomerium.ControlPlane.Routes.Pomerium.{
  nil_matches_domain, has_public_policy_matching_url, robots_url, page_routes, path_route,
  prefix_route, own_routes, grpc_route, grpc_routes, build_pomerium_http_routes,
}
use pomerium.ControlPlane.Routes.Policies.{
  Outside, is_proxy_fronting_authenticate, build_policy_routes,
}
use pomerium.ControlPlane.Routes.Policies.Each.{policy_routes_from-All}
use pomerium.ControlPlane.Routes.Hosts.{is_grpc_domain, domain_routes}
use pomerium.ControlPlane.Routes.Envoy.{Envoy, first_route}

-- The paths that the program's own pages have, but for /.pomerium/jwt.
abbrev pub is_page : Bytes → Bool
is_page path =
    not (bytes_eq path (codes "/.pomerium/jwt"))
    && (bytes_eq path (codes "/ping")
        || (bytes_eq path (codes "/healthz")
            || (bytes_eq path (codes "/.pomerium")
                || (has_prefix path (codes "/.pomerium/")
                    || (bytes_eq path (codes "/.well-known/pomerium")
                        || (has_prefix path (codes "/.well-known/pomerium/")
                            || bytes_eq path (codes "/robots.txt")))))))

abbrev robots : List Route
robots = path_route (codes "/robots.txt") false ∷ []

abbrev pages_and_robots : Bool → List Route
pages_and_robots public = page_routes ++ (if public then [] else robots)

module _ (E : Envoy) (r : E.Request) where
  -- A route without authorization does not take the request.
  abbrev Skips : Route → Type 0
  Skips route = route.ext_authz_disabled ≡ true → E.takes route.match_on r ≡ false

  first_route-Skips :
      (routes : List Route) (route : Route)
      → All Skips routes
      → first_route E routes r ≡ some route
      → route.ext_authz_disabled ≡ false
  unfolding first_route
  first_route-Skips [] route all h = cc
  first_route-Skips (x ∷ routes) route (skips, all) h = elim (Bool-cases (E.takes x.match_on r)) [
    | inl t ↦ elim (Bool-cases x.ext_authz_disabled) [
      | inl e ↦ cc (t, skips e)
      | inr e ↦ ap (λ x. x.ext_authz_disabled) (sym (some-injective x route (rw t at h))) ∙ e
    ]
    | inr t ↦ first_route-Skips routes route all (rw t at h)
  ]

  Skips-append : (xs ys : List Route) → All Skips xs → All Skips ys → All Skips (xs ++ ys)
  Skips-append [] ys a b = b
  Skips-append (x ∷ xs) ys a b = (a.0, Skips-append xs ys a.1 b)

  abbrev path_of : Bytes
  path_of = strip_query_string (E.path r)

  path_route-Skips :
      (path : Bytes) (protected : Bool)
      → bytes_eq path_of path ≡ false
      → Skips (path_route path protected)
  path_route-Skips path protected h e = E.takes_path path r ∙ h

  prefix_route-Skips :
      (prefix : Bytes) (protected : Bool)
      → has_prefix path_of prefix ≡ false
      → Skips (prefix_route prefix protected)
  prefix_route-Skips prefix protected h e = E.takes_prefix prefix r ∙ h

  page_routes-Skips :
      bytes_eq path_of (codes "/.pomerium/jwt") ≡ false
      → is_page path_of ≡ false
      → All Skips page_routes × All Skips robots
  page_routes-Skips j h =
      let jwt = path_route-Skips (codes "/.pomerium/jwt") true j in
      let ping = path_route-Skips (codes "/ping") false (ground (arith, h, j)) in
      let healthz = path_route-Skips (codes "/healthz") false (ground (arith, h, j)) in
      let page = path_route-Skips (codes "/.pomerium") false (ground (arith, h, j)) in
      let pages = prefix_route-Skips (codes "/.pomerium/") false (ground (arith, h, j)) in
      let known = path_route-Skips (codes "/.well-known/pomerium") false (ground (arith, h, j)) in
      let below =
        prefix_route-Skips (codes "/.well-known/pomerium/") false (ground (arith, h, j)) in
      let no_robots = path_route-Skips (codes "/robots.txt") false (ground (arith, h, j)) in
      ((jwt, (ping, (healthz, (page, (pages, (known, (below, tt))))))), (no_robots, tt))

  unless_Skips :
      (b : Bool) (routes : List Route) → All Skips routes → All Skips (if b then [] else routes)
  unless_Skips true routes all = tt
  unless_Skips false routes all = all

  when_Skips :
      (b : Bool) (routes : List Route)
      → (b ≡ true → All Skips routes)
      → All Skips (if b then routes else [])
  when_Skips true routes all = all refl
  when_Skips false routes all = tt

  protected_Skips :
      (routes : List Route)
      → All (λ route. route.ext_authz_disabled ≡ false) routes
      → All Skips routes
  protected_Skips [] all = tt
  protected_Skips (x ∷ routes) (h, all) = (λ e. cc (h, e), protected_Skips routes all)

  -- A route that takes the request after no other has the authorization on.
  abbrev IsGuarded : List Route → Type 0
  IsGuarded routes =
      (route : Route) → first_route E routes r ≡ some route → route.ext_authz_disabled ≡ false

  own_routes-IsGuarded :
      (public : Bool) (rest : List Route)
      → is_page path_of ≡ false
      → All Skips rest
      → IsGuarded (pages_and_robots public ++ rest)
  unfolding first_route
  own_routes-IsGuarded public rest h all route found =
      elim (Bool-cases (bytes_eq path_of (codes "/.pomerium/jwt"))) [
        | inl j ↦
            let taken = E.takes_path (codes "/.pomerium/jwt") r ∙ j in
            ap (λ x. x.ext_authz_disabled) (sym (some-injective _ route (rw taken at found)))
        | inr j ↦
            let (pages, no_robots) = page_routes-Skips j h in
            first_route-Skips (pages_and_robots public ++ rest) route
              (Skips-append (pages_and_robots public) rest
                (Skips-append page_routes _ pages (unless_Skips public robots no_robots)) all)
              found
      ]

  grpc-IsGuarded :
      (b : Bool) (routes : List Route)
      → E.is_grpc r ≡ false
      → IsGuarded routes
      → IsGuarded ((if b then grpc_routes else []) ++ routes)
  unfolding first_route
  grpc-IsGuarded false routes g guarded = guarded
  grpc-IsGuarded true routes g guarded =
      λ route found. guarded route (rw (E.takes_grpc (grpc_route.match_on) r refl g) at found)

every : {A : Type 0} (l : List A) → All {0, 0} (λ a. Unit) l
every [] = tt
every (a ∷ l) = (tt, every l)

module _ (X : Outside) (E : Envoy) (match_regex : Bytes → Url → Option Bool) {V : Type 0} where
  -- The pages, and on authenticate's own domain its callback.
  abbrev pub is_open : Options V → Bytes → Url → Bytes → Bool
  is_open o d authenticate path =
      is_page path
      || ((is_authenticate o.services && host_matches_domain X.net authenticate d)
          && bytes_eq path o.authenticate_callback_path)

  http_routes-IsGuarded :
      (o : Options V) (d : Bytes) (u : Url) (forward : Option Url) (r : E.Request)
      (routes rest : List Route)
      → get_authenticate_url X.text.parse o ≡ some u
      → get_forward_auth_url X.text.parse o ≡ some forward
      → is_proxy_fronting_authenticate X o d ≡ some false
      → (is_proxy o.services && nil_matches_domain X.net forward d) ≡ false
      → is_open o d u (strip_query_string (E.path r)) ≡ false
      → build_pomerium_http_routes X match_regex o d ≡ ok routes
      → All (λ route. route.ext_authz_disabled ≡ false) rest
      → IsGuarded E r (routes ++ rest)
  unfolding build_pomerium_http_routes own_routes
  http_routes-IsGuarded o d u forward r routes rest a w f n h built all =
      let public = has_public_policy_matching_url match_regex o (robots_url d) in
      let own = is_authenticate o.services && host_matches_domain X.net u d in
      let callback = path_route o.authenticate_callback_path false ∷ [] in
      let own_callback = if own then callback else [] in
      let made : build_pomerium_http_routes X match_regex o d
          ≡ ok (pages_and_robots public ++ own_callback ++ []) =
        rw (build_pomerium_http_routes, f, a, w, n) refl in
      let all_skip : All (Skips E r) (own_callback ++ rest) =
        Skips-append E r own_callback rest
          (when_Skips E r own callback (λ e.
            (path_route-Skips E r o.authenticate_callback_path false (ground (arith, h, e)), tt)))
          (protected_Skips E r rest all) in
      subst (λ rs. IsGuarded E r (rs ++ rest))
        (ok-injective (build_pomerium_http_routes X match_regex o d) made built)
        (subst (IsGuarded E r)
          (sym (
            ap (λ l. l ++ rest) (append-nil (pages_and_robots public ++ own_callback))
            ∙ append_assoc (pages_and_robots public) own_callback rest))
          (own_routes-IsGuarded E r public (own_callback ++ rest) (ground (arith, h)) all_skip))

  proxied :
      (o : Options V) (d : Bytes) (b : Bool) (routes : List Route)
      → is_proxy_fronting_authenticate X o d ≡ some false
      → (if b then build_policy_routes X o d else ok []) ≡ ok routes
      → All (λ route. route.ext_authz_disabled ≡ false) routes
  unfolding build_policy_routes
  proxied o d true routes f h =
      policy_routes_from-All X o d false (λ p. Unit) (λ route. route.ext_authz_disabled ≡ false)
        (λ i u p unit. refl) 0 (get_all_policies o) routes f (every (get_all_policies o)) h
  proxied o d false routes f h = subst (All _) (ok-injective (ok []) refl h) tt

  -- On a domain where the proxy does not front authenticate and that is not the forward-auth URL's, a
  -- request that is not gRPC, for none of the program's own pages and not for authenticate's callback
  -- there, is authorized: the first route that takes it has the external authorization on. So has
  -- that of /.pomerium/jwt.
  pub first_route-protected :
      (o : Options V) (authorize data_broker : List Url) (d : Bytes) (u : Url)
      (forward : Option Url) (r : E.Request) (routes : List Route) (route : Route)
      → get_authenticate_url X.text.parse o ≡ some u
      → get_forward_auth_url X.text.parse o ≡ some forward
      → is_proxy_fronting_authenticate X o d ≡ some false
      → (is_proxy o.services && nil_matches_domain X.net forward d) ≡ false
      → E.is_grpc r ≡ false
      → is_open o d u (strip_query_string (E.path r)) ≡ false
      → domain_routes X match_regex o authorize data_broker d ≡ ok routes
      → first_route E routes r ≡ some route
      → route.ext_authz_disabled ≡ false
  unfolding domain_routes
  first_route-protected o authorize data_broker d u forward r routes route a w f n g h built found =
      let policies = if is_proxy o.services then build_policy_routes X o d else ok [] in
      let grpc = is_grpc_domain X match_regex o authorize data_broker d in
      elim (Result-cases (build_pomerium_http_routes X match_regex o d)) [
        | inl (e, b) ↦ cc (rw (domain_routes, b) at built)
        | inr (http, b) ↦ elim (Result-cases policies) [
          | inl (e, p) ↦ cc (rw (domain_routes, b, p) at built)
          | inr (rest, p) ↦
              let made : domain_routes X match_regex o authorize data_broker d
                  ≡ ok ((if grpc then grpc_routes else []) ++ (http ++ rest)) =
                rw (b, p) refl in
              subst (IsGuarded E r)
                (ok-injective (domain_routes X match_regex o authorize data_broker d) made built)
                (grpc-IsGuarded E r grpc (http ++ rest) g (
                  http_routes-IsGuarded o d u forward r http rest a w f n h b
                    (proxied o d (is_proxy o.services) rest f p)))
                route found
        ]
      ]
