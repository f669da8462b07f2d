-- ===== src/Config/Policy/Validation/Rules.antt =====
-- What holds of a policy that Validate accepts.
use mathlib.Core.Option.{some-injective}
use pomerium.Prelude.{
  Bytes, Bool, true, false, ◌&&◌, ◌||◌, not, ◌≡◌, refl, ap, subst, ◌∙◌, sym, Option, none, some,
  arith, Bool-cases, Option-cases, inl, inr, if◌then◌else◌,
}
use pomerium.Strings.{is_empty}
use pomerium.Urlutil.Hosts.{Url, parse_and_validate_url, validate_url}
use pomerium.Config.Weights.{ConfigError, UrlText}
use pomerium.Config.Policy.{Access, Policy, PolicyRedirect, Rewrites, Tls}
use pomerium.Config.Policy.Validation.{
  Files, is_set, none_left, is_web, has_path, Checked, and_then, fail_if, check_source,
  has_whitelists, check_to, check_access, with_certificate, check_certificate, check_custom_ca,
  with_downstream_ca, check_downstream_ca, with_token, check_token, check_rewrites, validate,
}

abbrev AcceptsSource : Option Url → Type 0
AcceptsSource source =
    (u : Url) × (source ≡ some u)
    × (is_empty u.scheme ≡ false)
    × (is_empty u.host ≡ false)
    × (is_web u && has_path u ≡ false)

parsed-valid :
    (parse : Bytes → Option Url) (raw : Bytes) (u : Url)
    → parse_and_validate_url parse raw ≡ some u
    → (is_empty u.scheme ≡ false) × (is_empty u.host ≡ false)
unfolding parse_and_validate_url validate_url
parsed-valid parse raw u h = elim (Bool-cases (is_empty raw)) [
  | inl e ↦ cc (rw (e, parse_and_validate_url) at h)
  | inr e ↦ elim (Option-cases (parse raw)) [
    | inl e2 ↦ cc (rw (e, e2, parse_and_validate_url) at h)
    | inr (v, e2) ↦ elim (Bool-cases (is_empty v.scheme)) [
      | inl e3 ↦ cc (rw (e, e2, e3, parse_and_validate_url, validate_url) at h)
      | inr e3 ↦ elim (Bool-cases (is_empty v.host)) [
        | inl e4 ↦ cc (rw (e, e2, e3, e4, parse_and_validate_url, validate_url) at h)
        | inr e4 ↦
            let same = rw (e, e2, e3, e4, parse_and_validate_url, validate_url) at h in
            (
              subst (λ x. is_empty x.scheme ≡ false) (some-injective _ _ same) e3,
              subst (λ x. is_empty x.host ≡ false) (some-injective _ _ same) e4,
            )
      ]
    ]
  ]
]

-- The parts of a policy that only the first check of Validate changes.
abbrev Parts : Type 0 → Type 0
Parts V = Bool × Option PolicyRedirect × Access V × Option Url × Rewrites

module _ {V : Type 0} where
  and_then-none :
      (c : Checked V) (next : Policy V → Checked V) (q : Policy V)
      → and_then c next ≡ (q, none)
      → (p : Policy V) × (c ≡ (p, none)) × (next p ≡ (q, none))
  and_then-none (p, none) next q h = (p, refl, h)
  and_then-none (p, some e) next q h = absurd (ground (arith, ap (λ x. x.1) h))

  fail_if-none :
      (bad : Bool) (e : ConfigError) (p q : Policy V)
      → fail_if bad e p ≡ (q, none)
      → (bad ≡ false) × (p ≡ q)
  fail_if-none true e p q h = absurd (ground (arith, ap (λ x. x.1) h))
  fail_if-none false e p q h = (refl, ap (λ x. x.0) h)

  abbrev parts : Policy V → Parts V
  parts p = (none_left p.to, p.redirect, p.access, p.source, p.rewrites)

  record Keeps (p : Policy V) (c : Checked V) : Type 0 where
    kept : parts p ≡ parts c.0

  itself-Keeps : (p : Policy V) (e : Option ConfigError) → Keeps p (p, e)
  itself-Keeps p e = record { kept = refl }

  tls-Keeps : (p : Policy V) (t : Tls) (e : Option ConfigError) → Keeps p (record p { tls = t }, e)
  tls-Keeps p t e = record { kept = refl }

  token-Keeps :
      (p : Policy V) (t : Bytes) → Keeps p (record p { kubernetes_service_account_token = t }, none)
  token-Keeps p t = record { kept = refl }

  if-Keeps :
      (p : Policy V) (b : Bool) (x y : Checked V)
      → Keeps p x
      → Keeps p y
      → Keeps p (if b then x else y)
  if-Keeps p true x y h k = h
  if-Keeps p false x y h k = k

  with_certificate-Keeps : (p : Policy V) (o : Option Bytes) → Keeps p (with_certificate p o)
  with_certificate-Keeps p none = tls-Keeps p _ _
  with_certificate-Keeps p (some c) = tls-Keeps p _ _

  check_certificate-Keeps : (F : Files) (p : Policy V) → Keeps p (check_certificate F p)
  unfolding check_certificate
  check_certificate-Keeps F p = search (if-Keeps, itself-Keeps, with_certificate-Keeps)

  fail_if-Keeps : (b : Bool) (e : ConfigError) (p : Policy V) → Keeps p (fail_if b e p)
  fail_if-Keeps b e p = if-Keeps p b _ _ (itself-Keeps p _) (itself-Keeps p _)

  check_custom_ca-Keeps : (F : Files) (p : Policy V) → Keeps p (check_custom_ca F p)
  unfolding check_custom_ca
  check_custom_ca-Keeps F p = search (if-Keeps, itself-Keeps, fail_if-Keeps)

  with_downstream_ca-Keeps :
      (F : Files) (p : Policy V) (o : Option Bytes) → Keeps p (with_downstream_ca F p o)
  with_downstream_ca-Keeps F p none = itself-Keeps p _
  with_downstream_ca-Keeps F p (some c) = tls-Keeps p _ _

  and_then_fail-Keeps :
      (b : Bool) (e : ConfigError) (p : Policy V) (next : Policy V → Checked V)
      → Keeps p (next p)
      → Keeps p (and_then (fail_if b e p) next)
  and_then_fail-Keeps true e p next h = itself-Keeps p _
  and_then_fail-Keeps false e p next h = h

  check_downstream_ca-Keeps : (F : Files) (p : Policy V) → Keeps p (check_downstream_ca F p)
  unfolding check_downstream_ca
  check_downstream_ca-Keeps F p =
      search (if-Keeps, itself-Keeps, with_downstream_ca-Keeps, and_then_fail-Keeps)

  with_token-Keeps : (p : Policy V) (o : Option Bytes) → Keeps p (with_token p o)
  with_token-Keeps p none = itself-Keeps p _
  with_token-Keeps p (some c) = token-Keeps p c

  check_token-Keeps : (F : Files) (p : Policy V) → Keeps p (check_token F p)
  unfolding check_token
  check_token-Keeps F p = search (if-Keeps, itself-Keeps, with_token-Keeps)

  abbrev Accepts : Parts V → Type 0
  Accepts (no_urls, redirect, access, source, rewrites) =
      AcceptsSource source
      × (no_urls && not (is_set redirect) ≡ false)
      × (access.allow_public_unauthenticated_access
            && (access.allow_any_authenticated_user || has_whitelists access)
          ≡ false)
      × (access.allow_any_authenticated_user && has_whitelists access ≡ false)

  -- A policy has a source with a scheme and a host, and no path if it is one of the web; it has a URL
  -- or a redirect; it is public only without whitelists, also that of any user, who are let in only
  -- without the others; and it does not rewrite both a prefix and a regex.
  abbrev pub IsAccepted : Policy V → Type 0
  IsAccepted p =
      Accepts (parts p)
      × (not (is_empty p.rewrites.prefix_rewrite) && not (is_empty p.rewrites.regex_rewrite_pattern)
          ≡ false)

  check_source-none :
      (L : UrlText) (p q : Policy V) → check_source L p ≡ (q, none) → AcceptsSource q.source
  unfolding check_source
  check_source-none L p q h = elim (Option-cases (parse_and_validate_url L.parse p.from)) [
    | inl e ↦ cc (ap (λ x. x.1) (rw (e, check_source) at h))
    | inr (u, e) ↦ elim (Bool-cases (is_web u && has_path u)) [
      | inl w ↦ cc (ap (λ x. x.1) (rw (e, check_source, w) at h))
      | inr w ↦
          let valid = parsed-valid L.parse p.from u e in
          (u, sym (ap (λ x. x.0.source) (rw (e, check_source, w) at h)), valid.0, valid.1, w)
    ]
  ]

  check_to-none :
      (L : UrlText) (p q : Policy V)
      → check_to L p ≡ (q, none)
      → (p ≡ q) × (none_left p.to && not (is_set p.redirect) ≡ false)
  unfolding check_to
  check_to-none L p q h = elim (Bool-cases (none_left p.to && not (is_set p.redirect))) [
    | inl e ↦ cc (ap (λ x. x.1) (rw (e, check_to) at h))
    | inr e ↦ (ap (λ x. x.0) (rw (e, check_to) at h), e)
  ]

  check_access-none :
      (p q : Policy V)
      → check_access p ≡ (q, none)
      → (p ≡ q)
        × (p.access.allow_public_unauthenticated_access
              && (p.access.allow_any_authenticated_user || has_whitelists p.access)
            ≡ false)
        × (p.access.allow_any_authenticated_user && has_whitelists p.access ≡ false)
  unfolding check_access
  check_access-none p q h =
      let (p', first, second) = and_then-none (fail_if _ _ p) _ q h in
      let (a, same) = fail_if-none _ _ p p' first in
      let (b, same') = fail_if-none _ _ p' q second in (same ∙ same', a, b)

  keep_on :
      (p q : Policy V) (c : Checked V)
      → Keeps p c
      → c ≡ (q, none)
      → Accepts (parts p)
      → Accepts (parts q)
  keep_on p q c k e = subst Accepts (k.kept ∙ ap (λ x. parts x.0) e)

  -- A policy that Validate accepts has a source with a scheme and a host, and without a path if it is
  -- one of the web; it has a URL or a redirect to go to; it is public only without the whitelists of
  -- any user, domains, groups and users, and open to any user only without the last three; and it
  -- does not rewrite both a prefix and a regex.
  pub validate-IsAccepted :
      (L : UrlText) (F : Files) (p q : Policy V) → validate L F p ≡ (q, none) → IsAccepted q
  unfolding validate
  validate-IsAccepted L F p q h =
      let (p7, h7, r) = and_then-none _ check_rewrites q h in
      let (p6, h6, token) = and_then-none _ (check_token F) p7 h7 in
      let (p5, h5, downstream) = and_then-none _ (check_downstream_ca F) p6 h6 in
      let (p4, h4, custom) = and_then-none _ (check_custom_ca F) p5 h5 in
      let (p3, h3, certificate) = and_then-none _ (check_certificate F) p4 h4 in
      let (p2, h2, access) = and_then-none _ check_access p3 h3 in
      let (p1, source, to) = and_then-none _ (check_to L) p2 h2 in
      let (same, target) = check_to-none L p1 p2 to in
      let (same', public, any) = check_access-none p2 p3 access in
      let (one, same'') = fail_if-none _ _ p7 q (unfold check_rewrites in r) in
      let accepted : Accepts (parts p2) = (
        subst (λ x. AcceptsSource x.source) same (check_source-none L p p1 source),
        subst (λ x. none_left x.to && not (is_set x.redirect) ≡ false) same target,
        public,
        any,
      ) in
      let last = keep_on p6 p7 _ (check_token-Keeps F p6) token (
        keep_on p5 p6 _ (check_downstream_ca-Keeps F p5) downstream (
          keep_on p4 p5 _ (check_custom_ca-Keeps F p4) custom (
            keep_on p3 p4 _ (check_certificate-Keeps F p3) certificate
              (subst (λ x. Accepts (parts x)) same' accepted)))) in
      subst IsAccepted same'' (last, one)
