-- ===== src/Urlutil/Hosts/Domains.antt =====
-- The domains of a URL, and the hosts that match it.
use pomerium.Prelude.{
  Bytes, true, false, ◌≡◌, ◌⊎◌, refl, ap, ◌∙◌, [], ◌∷◌, ◌++◌, All, arith, inl, inr, Bool-cases,
  if◌then◌else◌,
}
use pomerium.Strings.{codes, bytes_eq}
use pomerium.Strings.Splitting.{Lacks, bytes_eq_refl}
use pomerium.Urlutil.Hosts.{
  Url, IsPlain, Net, is_tcp, default_port, has_other_port, host_of, port_of, get_domains_for_url,
  host_matches_domain,
}

pub bytes_eq_comm : (s t : Bytes) → bytes_eq s t ≡ bytes_eq t s
unfolding bytes_eq
bytes_eq_comm [] [] = refl
bytes_eq_comm [] (y ∷ t) = refl
bytes_eq_comm (x ∷ s) [] = refl
bytes_eq_comm (x ∷ s) (y ∷ t) = ground (arith, bytes_eq_comm s t)

no_separator : (s n p : Bytes) → Lacks 58 s → bytes_eq s (n ++ 58 ∷ p) ≡ false
unfolding bytes_eq
no_separator [] [] p h = refl
no_separator [] (y ∷ n) p h = refl
no_separator (x ∷ s) [] p h = ground (arith, h.0)
no_separator (x ∷ s) (y ∷ n) p h = ground (arith, no_separator s n p h.1)

bytes_eq-append :
    (n m p q : Bytes)
    → Lacks 58 n
    → Lacks 58 m
    → bytes_eq (n ++ 58 ∷ p) (m ++ 58 ∷ q) ≡ (if bytes_eq n m then bytes_eq p q else false)
unfolding bytes_eq
bytes_eq-append [] [] p q h k = ground arith
bytes_eq-append [] (y ∷ m) p q h k = ground (arith, k.0)
bytes_eq-append (x ∷ n) [] p q h k = ground (arith, h.0)
bytes_eq-append (x ∷ n) (y ∷ m) p q h k = ground (arith, bytes_eq-append n m p q h.1 k.1)

module _ (N : Net) where
  -- A host name, or one with a port; no IPv6 literal.
  abbrev pub IsHost : Bytes → Type 0
  IsHost host =
      IsPlain host
      ⊎ ((h : Bytes) × (p : Bytes) × (host ≡ h ++ 58 ∷ p)
          × IsPlain h
          × IsPlain p
          × (N.is_port p ≡ true))

  -- A host name without the port that its scheme has anyway.
  abbrev pub IsCanonical : Bytes → Bytes → Type 0
  IsCanonical port host =
      IsPlain host
      ⊎ ((h : Bytes) × (p : Bytes) × (host ≡ h ++ 58 ∷ p)
          × IsPlain h
          × IsPlain p
          × (bytes_eq p port ≡ false))

  default_port-IsPlain : (u : Url) → IsPlain (default_port u) × (N.is_port (default_port u) ≡ true)
  default_port-IsPlain u = elim (Bool-cases (bytes_eq u.scheme (codes "http"))) [
    | inl e ↦ rw e ((omega arith, omega arith, omega arith), N.is_port_http)
    | inr e ↦ rw e ((omega arith, omega arith, omega arith), N.is_port_https)
  ]

  host_matches_itself : (u : Url) → host_matches_domain N u u.host ≡ true
  unfolding host_matches_domain
  host_matches_itself u =
      rw
        (
          bytes_eq_refl (host_of N (N.split_host_port u.host) u.host),
          bytes_eq_refl (port_of N (N.split_host_port u.host) (default_port u)),
        )
        refl

  -- A URL whose host is the name, with the default port or none, matches the name with and without it.
  host_matches_name :
      (u : Url) (n : Bytes)
      → IsPlain n
      → host_of N (N.split_host_port u.host) u.host ≡ n
      → bytes_eq (port_of N (N.split_host_port u.host) (default_port u)) (default_port u) ≡ true
      → (host_matches_domain N u n ≡ true)
        × (host_matches_domain N u (n ++ 58 ∷ default_port u) ≡ true)
  unfolding host_matches_domain
  host_matches_name u n l h p = (
    rw (N.split_plain n l, h, bytes_eq_refl n) p,
    rw (N.split_port n (default_port u) l (default_port-IsPlain u).0, h, bytes_eq_refl n) p,
  )

  web_domains :
      (u : Url)
      → IsHost u.host
      → All
          (λ d. host_matches_domain N u d ≡ true)
          (if has_other_port N (N.split_host_port u.host) (default_port u)
            then u.host ∷ []
            else N.hostname u.host ∷ (N.join_host_port (N.hostname u.host) (default_port u) ∷ []))
  web_domains u (inl h) =
      let s = N.split_plain u.host h in
      let both = host_matches_name u u.host h (rw s refl) (rw s (bytes_eq_refl (default_port u))) in
      rw (s, N.hostname_plain u.host h, N.join_plain u.host (default_port u) h)
        (both.0, (both.1, tt))
  web_domains u (inr (n, p, e, l, lp, d)) =
      let s = ap N.split_host_port e ∙ N.split_port n p l lp in
      elim (Bool-cases (bytes_eq p (default_port u))) [
        | inr o ↦ rw (s, o) (host_matches_itself u, tt)
        | inl o ↦
            let both = host_matches_name u n l (rw s refl) (rw s o) in
            rw (s, o, ap N.hostname e, N.hostname_port n p l d, N.join_plain n (default_port u) l)
              (both.0, (both.1, tt))
      ]

  -- Every domain of a URL, of which no part is an IPv6 literal, is one that the URL matches.
  pub host_matches-get_domains :
      (u : Url)
      → IsHost u.host
      → All (λ d. host_matches_domain N u d ≡ true) (get_domains_for_url N u)
  unfolding get_domains_for_url host_matches_domain
  host_matches-get_domains u h = elim (Bool-cases (is_tcp u)) [
    | inl t ↦ rw t (host_matches_itself u, tt)
    | inr t ↦ rw t (web_domains u h)
  ]

  -- Where the URL's host and the domain are each a name without colons and brackets, or such a name
  -- with a colon and a port that is not the URL's default one, the URL matches the domain exactly if
  -- it has it as its host.
  pub host_matches-eq :
      (u : Url) (d : Bytes)
      → IsCanonical (default_port u) u.host
      → IsCanonical (default_port u) d
      → host_matches_domain N u d ≡ bytes_eq u.host d
  unfolding host_matches_domain
  host_matches-eq u d (inl h) (inl k) =
      rw (N.split_plain u.host h, N.split_plain d k, bytes_eq_refl (default_port u)) (ground arith)
  host_matches-eq u d (inl h) (inr (n, p, e, ln, lp, o)) =
      rw
        (
          N.split_plain u.host h,
          e,
          N.split_port n p ln lp,
          no_separator u.host n p h.0,
          bytes_eq_comm (default_port u) p,
          o,
        )
        (ground arith)
  host_matches-eq u d (inr (n, p, e, ln, lp, o)) (inl k) =
      rw
        (
          e,
          N.split_port n p ln lp,
          N.split_plain d k,
          bytes_eq_comm (n ++ 58 ∷ p) d,
          no_separator d n p k.0,
          o,
        )
        (ground arith)
  host_matches-eq u d (inr (n, p, e, ln, lp, o)) (inr (m, q, f, lm, lq, o')) =
      rw (e, f, N.split_port n p ln lp, N.split_port m q lm lq, bytes_eq-append n m p q ln.0 lm.0)
        refl
