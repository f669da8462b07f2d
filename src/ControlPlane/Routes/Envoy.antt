-- ===== src/ControlPlane/Routes/Envoy.antt =====
-- What is used of envoy: how it matches a request, other than CONNECT, to the routes of a domain.
use pomerium.Prelude.{
  Bytes, Bool, true, false, ◌≡◌, List, [], ◌∷◌, Option, none, some, if◌then◌else◌,
}
use pomerium.Strings.{bytes_eq, has_prefix}
use pomerium.Authorize.Requests.{strip_query_string}
use pomerium.ControlPlane.Routes.{exact_path, path_prefix, RouteMatch, Route}
use pomerium.ControlPlane.Routes.Pomerium.{plain_match}

-- The documented behaviour: a prefix and a path are compared with the path before the query string,
-- and a route for gRPC takes no other requests.
pub record Envoy : Type 1 where
  pub Request : Type 0
  pub path : Request → Bytes
  pub is_grpc : Request → Bool
  pub takes : RouteMatch → Request → Bool
  pub takes_prefix :
      (p : Bytes) (r : Request)
      → takes (plain_match (path_prefix p)) r ≡ has_prefix (strip_query_string (path r)) p
  pub takes_path :
      (p : Bytes) (r : Request)
      → takes (plain_match (exact_path p)) r ≡ bytes_eq (strip_query_string (path r)) p
  pub takes_grpc :
      (m : RouteMatch) (r : Request) → m.grpc ≡ true → is_grpc r ≡ false → takes m r ≡ false

-- The first of the routes that takes a request.
unfoldable pub first_route : (E : Envoy) → List Route → E.Request → Option Route
first_route E [] r = none
first_route E (route ∷ routes) r =
    let rest = first_route E routes r in if E.takes route.match_on r then some route else rest
