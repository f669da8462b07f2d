-- ===== src/ControlPlane/Routes/Policies/Each.antt =====
-- What holds of the route of each policy.
use pomerium.Prelude.{
  ℕ, suc, Bytes, Bool, ◌≡◌, refl, subst, List, [], ◌∷◌, some, All, Bool-cases, Option-cases, inl,
  inr,
}
use pomerium.Storage.{ok, ok-injective, Result-cases}
use pomerium.Urlutil.Hosts.{Url, host_matches_domain}
use pomerium.Config.Policy.{Policy}
use pomerium.Config.Options.{Options}
use pomerium.ControlPlane.Routes.{Route}
use pomerium.ControlPlane.Routes.Policies.{
  Outside, policy_route, is_proxy_fronting_authenticate, policy_routes_from,
}

module _ (X : Outside) {V : Type 0} where
  pub policy_routes_from-All :
      (o : Options V) (d : Bytes) (fronting : Bool) (P : Policy V → Type 0) (Q : Route → Type 0)
      → ((i : ℕ) (u : Url) (p : Policy V) → P p → Q (policy_route X o fronting i u p))
      → (i : ℕ) (policies : List (Policy V)) (routes : List Route)
      → is_proxy_fronting_authenticate X o d ≡ some fronting
      → All P policies
      → policy_routes_from X o d i policies ≡ ok routes
      → All Q routes
  unfolding policy_routes_from
  policy_routes_from-All o d fronting P Q step i [] routes f all h =
      subst (All Q) (ok-injective (policy_routes_from X o d i []) refl h) tt
  policy_routes_from-All o d fronting P Q step i (p ∷ policies) routes f (holds, all) h =
      elim (Option-cases p.source) [
        | inl e ↦ cc (simp e at h)
        | inr (u, e) ↦ elim (Bool-cases (host_matches_domain X.net u d)) [
          | inr m ↦
              policy_routes_from-All o d fronting P Q step (suc i) policies routes f all
                (simp (e, m) at h)
          | inl m ↦ elim (Result-cases (policy_routes_from X o d (suc i) policies)) [
            | inl (x, n) ↦ cc (simp (e, m, f, n) at h)
            | inr (rs, n) ↦
                let built : policy_routes_from X o d i (p ∷ policies)
                    ≡ ok (policy_route X o fronting i u p ∷ rs) =
                  simp (e, m, f, n) in
                subst (All Q) (ok-injective (policy_routes_from X o d i (p ∷ policies)) built h) (
                  step i u p holds,
                  policy_routes_from-All o d fronting P Q step (suc i) policies rs f all n,
                )
          ]
        ]
      ]
