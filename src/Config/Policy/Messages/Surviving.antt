-- ===== src/Config/Policy/Messages/Surviving.antt =====
-- What of a policy comes back from its message.
use pomerium.Prelude.{
  ℕ, Bytes, Bool, true, false, ◌≡◌, ◌⊎◌, refl, ap, ◌∙◌, sym, List, [], ◌∷◌, Option, none, some, All,
  arith, Option-cases, Bool-cases, inl, inr, if◌then◌else◌, ◌==◌,
}
use pomerium.Strings.{is_empty}
use pomerium.Strings.Splitting.{Lacks, index_byte_lacking}
use pomerium.Storage.{Result, Result-cases, ok, err}
use pomerium.Config.Weights.{
  ConfigError, UrlText, WeightedUrl, validate_weighted_url, weighted_string, parse_weighted_url,
  weights_of, all_or_none, validate_weighted_urls, parse_each, parse_weighted_urls, url_texts,
  weights, flatten,
}
use pomerium.Config.Policy.{PolicyRedirect, Access, SubPolicy, Policy, route_id}
use pomerium.Config.Policy.Values.{GoValue, Json}
use pomerium.Config.Policy.Values.Reading.{claims_as_read, IsReadable, claims_from_pb-claims_to_pb}
use pomerium.Config.Policy.Validation.{Files, Checked, validate}
use pomerium.Config.Policy.Messages.{
  RouteMessage, redirect_is_set, Conversions, sub_policies_to_pb, sub_policies_from_pb,
  base_to_proto, with_target, to_proto, base_from_proto, new_policy_from_proto,
}

abbrev pub unweighted : List WeightedUrl → List WeightedUrl
unweighted [] = []
unweighted (u ∷ urls) = record { url = u.url; lb_weight = 0 } ∷ unweighted urls

abbrev pub carried_urls : Option PolicyRedirect → List WeightedUrl → List WeightedUrl
carried_urls none urls = unweighted urls
carried_urls (some r) urls = []

abbrev pub with_claims : Json → List (SubPolicy GoValue) → List (SubPolicy GoValue)
with_claims J [] = []
with_claims J (sp ∷ sps) =
    record sp { allowed_idp_claims = claims_as_read J sp.allowed_idp_claims } ∷ with_claims J sps

-- What a message carries of a policy: not its weights, nor its host rewrites, SPDY, the file of the
-- Kubernetes token, the authentication with Google and the settings of Envoy's cluster, whose name
-- becomes the one given; the claims as they are read after their JSON; of the target, the redirect if there is one.
abbrev pub carried : Json → Bytes → Policy GoValue → Policy GoValue
carried J name p = record p {
  to = carried_urls p.redirect p.to;
  lb_weights = [];
  access = record p.access {
    allowed_idp_claims = claims_as_read J p.access.allowed_idp_claims;
    sub_policies = with_claims J p.access.sub_policies;
  };
  source = none;
  rewrites = record p.rewrites {
    host_rewrite = [];
    host_rewrite_header = [];
    host_path_regex_rewrite_pattern = [];
    host_path_regex_rewrite_substitution = [];
  };
  allow_spdy = false;
  tls = record p.tls { client_certificate = none };
  kubernetes_service_account_token_file = [];
  enable_google_cloud_serverless_authentication = false;
  envoy_opts = some (record { name = name; rest = [] });
}

module _ (L : UrlText) where
  -- The texts of the URLs are parsed as they were, and none is taken for a URL with a weight.
  abbrev pub HasTexts : List WeightedUrl → Type 0
  HasTexts = All (λ u. (L.parse (L.show u.url) ≡ some u.url) × Lacks 44 (L.show u.url))

  abbrev AreValid : List WeightedUrl → Type 0
  AreValid = All (λ u. is_empty (L.hostname u.url) ≡ false × (is_empty u.url.scheme ≡ false))

  validate_weighted_url-none :
      (u : WeightedUrl)
      → validate_weighted_url L u ≡ none
      → (is_empty (L.hostname u.url) ≡ false) × (is_empty u.url.scheme ≡ false)
  unfolding validate_weighted_url
  validate_weighted_url-none u h = ground (arith, h)

  weights_of-AreValid :
      (urls : List WeightedUrl) (a b : Bool) (r : Bool × Bool)
      → weights_of L urls a b ≡ ok r
      → AreValid urls
  unfolding weights_of
  weights_of-AreValid [] a b r h = tt
  weights_of-AreValid (u ∷ urls) a b r h = elim (Option-cases (validate_weighted_url L u)) [
    | inr (e, x) ↦ absurd (ground (arith, x, h))
    | inl x ↦ elim (Bool-cases (u.lb_weight == 0)) [
      | inl z ↦ (
        validate_weighted_url-none u x,
        weights_of-AreValid urls true b r (rw (x, z, weights_of) at h),
      )
      | inr z ↦ (
        validate_weighted_url-none u x,
        weights_of-AreValid urls a true r (rw (x, z, weights_of) at h),
      )
    ]
  ]

  all_or_none-AreValid :
      (urls : List WeightedUrl) (a b w : Bool)
      → all_or_none (weights_of L urls a b) ≡ ok w
      → AreValid urls
  all_or_none-AreValid urls a b w h = elim (Result-cases (weights_of L urls a b)) [
    | inl (e, r) ↦ absurd (ground (arith, r, h))
    | inr (x, r) ↦ weights_of-AreValid urls a b x r
  ]

  weights_of-unweighted :
      (urls : List WeightedUrl) (a b : Bool)
      → AreValid urls
      → weights_of L (unweighted urls) true b ≡ ok (true, b)
  unfolding weights_of validate_weighted_url
  weights_of-unweighted [] a b h = refl
  weights_of-unweighted (u ∷ urls) a b h =
      ground (arith, h.0, weights_of-unweighted urls true b h.1)

  weighted_string_plain : (s : Bytes) → Lacks 44 s → weighted_string L s ≡ ok (s, 0)
  unfolding weighted_string
  weighted_string_plain s h = rw (weighted_string, index_byte_lacking s 44 h) refl

  parse_weighted_url-show :
      (u : WeightedUrl)
      → (L.parse (L.show u.url) ≡ some u.url) × Lacks 44 (L.show u.url)
      → is_empty (L.hostname u.url) ≡ false
      → parse_weighted_url L (L.show u.url) ≡ ok (record { url = u.url; lb_weight = 0 })
  unfolding parse_weighted_url
  parse_weighted_url-show u t v =
      rw (parse_weighted_url, weighted_string_plain (L.show u.url) t.1, t.0, v) refl

  parse_each-url_texts :
      (urls : List WeightedUrl)
      → HasTexts urls
      → AreValid urls
      → parse_each L (url_texts L urls) ≡ ok (unweighted urls)
  unfolding parse_each
  parse_each-url_texts [] t v = refl
  parse_each-url_texts (u ∷ urls) t v =
      rw (parse_each, parse_weighted_url-show u t.0 v.0.0, parse_each-url_texts urls t.1 v.1) refl

  parse_weighted_urls-url_texts :
      (urls : List WeightedUrl) (w : Bool)
      → HasTexts urls
      → validate_weighted_urls L urls ≡ ok w
      → parse_weighted_urls L (url_texts L urls) ≡ ok (unweighted urls)
  unfolding parse_weighted_urls validate_weighted_urls
  parse_weighted_urls-url_texts [] w t h = absurd (ground arith)
  parse_weighted_urls-url_texts (u ∷ urls) w t h =
      let v = all_or_none-AreValid (u ∷ urls) false false w h in
      rw
        (
          parse_weighted_urls,
          parse_each-url_texts (u ∷ urls) t v,
          validate_weighted_urls,
          weights_of-unweighted (u ∷ urls) false false v,
        )
        refl

-- The claims of the policy and of those within it can be read after their JSON.
abbrev pub HasReadableClaims : Json → Access GoValue → Type 0
HasReadableClaims J a =
    IsReadable J a.allowed_idp_claims
    × All (λ (sp : SubPolicy GoValue). IsReadable J sp.allowed_idp_claims) a.sub_policies

module _ (C : Conversions) where
  sub_policies_from_pb-sub_policies_to_pb :
      (sps : List (SubPolicy GoValue))
      → All (λ (sp : SubPolicy GoValue). IsReadable C.json sp.allowed_idp_claims) sps
      → sub_policies_from_pb C (sub_policies_to_pb C sps) ≡ with_claims C.json sps
  unfolding sub_policies_from_pb sub_policies_to_pb
  sub_policies_from_pb-sub_policies_to_pb [] h = refl
  sub_policies_from_pb-sub_policies_to_pb (sp ∷ sps) (h, all) =
      rw
        (
          claims_from_pb-claims_to_pb C.json sp.allowed_idp_claims h,
          sub_policies_from_pb-sub_policies_to_pb sps all,
        )
        refl

  abbrev reread :
      UrlText → Files → Result ConfigError RouteMessage → Result ConfigError (Checked GoValue)
  reread L F (err e) = err e
  reread L F (ok m) = new_policy_from_proto C L F m

  -- What is read back of a policy's message but its target.
  base_back :
      (L : UrlText) (p : Policy GoValue) (redirect : Option PolicyRedirect)
      (urls : List WeightedUrl)
      → HasReadableClaims C.json p.access
      → (record (base_from_proto C (base_to_proto C L p)) { redirect = redirect; to = urls })
        ≡ record (carried C.json (C.sprint_id (route_id L C.hash p)) p) {
          redirect = redirect;
          to = urls;
        }
  unfolding base_to_proto base_from_proto
  base_back L p redirect urls h =
      rw
        (
          claims_from_pb-claims_to_pb C.json p.access.allowed_idp_claims h.0,
          sub_policies_from_pb-sub_policies_to_pb p.access.sub_policies h.1,
        )
        refl

  reread_redirect :
      (L : UrlText) (F : Files) (p : Policy GoValue) (r : PolicyRedirect)
      → HasReadableClaims C.json p.access
      → redirect_is_set (some r) ≡ true
      → new_policy_from_proto C L F (record (base_to_proto C L p) { redirect = some r })
        ≡ ok (
            validate L F (record (carried C.json (C.sprint_id (route_id L C.hash p)) p) {
              redirect = some r;
              to = [];
            }))
  unfolding base_to_proto new_policy_from_proto validate
  reread_redirect L F p r h set =
      rw (new_policy_from_proto, set) (ap (λ q. ok (validate L F q)) (base_back L p (some r) [] h))

  reread_urls :
      (L : UrlText) (F : Files) (p : Policy GoValue) (urls : List WeightedUrl) (w : Bool)
      (ws : List ℕ)
      → HasReadableClaims C.json p.access
      → HasTexts L urls
      → validate_weighted_urls L urls ≡ ok w
      → new_policy_from_proto C L F
          (record (base_to_proto C L p) { to = url_texts L urls; load_balancing_weights = ws })
        ≡ ok (
            validate L F (record (carried C.json (C.sprint_id (route_id L C.hash p)) p) {
              redirect = none;
              to = unweighted urls;
            }))
  unfolding base_to_proto redirect_is_set new_policy_from_proto validate
  reread_urls L F p urls w ws h t v =
      rw (new_policy_from_proto, parse_weighted_urls-url_texts L urls w t v)
        (ap (λ q. ok (validate L F q)) (base_back L p none (unweighted urls) h))

  -- The target of a policy is carried by its message.
  reread_target :
      (L : UrlText) (F : Files) (p : Policy GoValue) (o : Option PolicyRedirect)
      → HasReadableClaims C.json p.access
      → HasTexts L p.to
      → (redirect_is_set o ≡ true) ⊎ (o ≡ none)
      → (w : Result ConfigError Bool) → validate_weighted_urls L p.to ≡ w
      → (m : RouteMessage) → with_target C L (base_to_proto C L p) o p.to ≡ ok m
      → new_policy_from_proto C L F m
        ≡ ok (
            validate L F (record (carried C.json (C.sprint_id (route_id L C.hash p)) p) {
              redirect = o;
              to = carried_urls o p.to;
            }))
  unfolding with_target flatten redirect_is_set
  reread_target L F p (some r) c t (inl set) w v m h =
      sym (ap (reread L F) h) ∙ reread_redirect L F p r c set
  reread_target L F p (some r) c t (inr e) w v m h = cc
  reread_target L F p none c t target (err e) v m h = cc (rw (with_target, flatten, v) at h)
  reread_target L F p none c t target (ok w) v m h =
      sym (ap (reread L F) h)
      ∙ rw (with_target, flatten, v)
          (reread_urls L F p p.to w (if w then weights L p.to else []) c t v)

  -- The message of a policy that has a target, whose URLs are parsed as they were written and hold no
  -- comma, and whose claims have distinct keys and hold only finite numbers and texts in UTF-8 once
  -- they are in the message, makes a policy that is validated, and that has what the message carries:
  -- the integers of claims come back as floats, and the host rewrites, the weights and some more
  -- settings are lost.
  pub new_policy_from_proto-to_proto :
      (L : UrlText) (F : Files) (p : Policy GoValue) (m : RouteMessage)
      → HasReadableClaims C.json p.access
      → HasTexts L p.to
      → (redirect_is_set p.redirect ≡ true) ⊎ (p.redirect ≡ none)
      → to_proto C L p ≡ ok m
      → new_policy_from_proto C L F m
        ≡ ok (validate L F (carried C.json (C.sprint_id (route_id L C.hash p)) p))
  unfolding to_proto
  new_policy_from_proto-to_proto L F p m c t target h =
      reread_target L F p p.redirect c t target (validate_weighted_urls L p.to) refl m h
