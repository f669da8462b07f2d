-- ===== src/Urlutil/Hosts.antt =====
-- internal/urlutil/url.go: hosts, ports and domains of URLs. What it uses of net and net/url, for
-- hosts, is the interface Net.
pub mod Domains
use pomerium.Prelude.{
  ℕ, suc, Bytes, Bool, true, false, ◌||◌, ◌≡◌, List, [], ◌∷◌, ◌++◌, Option, none, some, All, ◌≢◌,
  take, drop, if◌then◌else◌,
}
use pomerium.Strings.{codes, index_byte, bytes_eq, has_prefix, is_empty}
use pomerium.Strings.Splitting.{Lacks}

-- The parts of a url.URL that the program looks at, and the others.
pub record Url : Type 0 where
  pub scheme : Bytes
  pub host : Bytes
  pub path : Bytes
  pub raw_query : Bytes
  pub others : Bytes

-- A host or a port without colons and brackets.
abbrev pub IsPlain : Bytes → Type 0
IsPlain s = Lacks 58 s × Lacks 91 s × Lacks 93 s

-- What is used of net and of (*url.URL).Hostname, with the documented behaviour for hosts that are
-- not IPv6 literals; a port is 80 or 443 wherever the program joins one.
pub record Net : Type 0 where
  pub split_host_port : Bytes → Option (Bytes × Bytes)
  pub hostname : Bytes → Bytes
  pub join_host_port : Bytes → Bytes → Bytes
  pub is_port : Bytes → Bool
  pub split_plain : (h : Bytes) → IsPlain h → split_host_port h ≡ none
  pub split_port :
      (h p : Bytes) → IsPlain h → IsPlain p → split_host_port (h ++ 58 ∷ p) ≡ some (h, p)
  pub hostname_plain : (h : Bytes) → IsPlain h → hostname h ≡ h
  pub hostname_port : (h p : Bytes) → IsPlain h → is_port p ≡ true → hostname (h ++ 58 ∷ p) ≡ h
  pub join_plain : (h p : Bytes) → IsPlain h → join_host_port h p ≡ h ++ 58 ∷ p
  pub is_port_http : is_port (codes "80") ≡ true
  pub is_port_https : is_port (codes "443") ≡ true

-- strings.TrimPrefix(s, "[")
abbrev pub trim_bracket : Bytes → Bytes
trim_bracket [] = []
trim_bracket (c ∷ s) = if bytes_eq (c ∷ []) (91 ∷ []) then s else c ∷ s

-- StripPort
unfoldable pub strip_port : Bytes → Bytes
strip_port hostport = elim (index_byte hostport 58) [
  | none ↦ hostport
  | some colon ↦ elim (index_byte hostport 93) [
    | some i ↦ trim_bracket (take i hostport)
    | none ↦ take colon hostport
  ]
]

pub data UrlError : Type 0 where
  url_empty url_unparsable url_nil no_scheme no_host : UrlError

-- ValidateURL
unfoldable pub validate_url : Option Url → Option UrlError
validate_url none = some url_nil
validate_url (some u) =
    if is_empty u.scheme then some no_scheme else if is_empty u.host then some no_host else none

-- ParseAndValidateURL, given url.Parse
unfoldable pub parse_and_validate_url : (Bytes → Option Url) → Bytes → Option Url
unfolding validate_url
parse_and_validate_url parse raw = if is_empty raw then none else elim (parse raw) [
  | none ↦ none
  | some u ↦ elim (validate_url (some u)) [ none ↦ some u | some e ↦ none ]
]

-- IsTCP
unfoldable pub is_tcp : Url → Bool
is_tcp u = bytes_eq u.scheme (codes "tcp+http") || bytes_eq u.scheme (codes "tcp+https")

abbrev pub default_port : Url → Bytes
default_port u = if bytes_eq u.scheme (codes "http") then codes "80" else codes "443"

module _ (N : Net) where
  -- Whether a host has a port that is not the one given.
  abbrev pub has_other_port : Option (Bytes × Bytes) → Bytes → Bool
  has_other_port none port = false
  has_other_port (some (h, p)) port = if bytes_eq p port then false else true

  -- GetDomainsForURL
  unfoldable pub get_domains_for_url : Url → List Bytes
  unfolding is_tcp
  get_domains_for_url u =
      if is_tcp u
      then u.host ∷ []
      else if has_other_port (N.split_host_port u.host) (default_port u)
      then u.host ∷ []
      else N.hostname u.host ∷ (N.join_host_port (N.hostname u.host) (default_port u) ∷ [])

  abbrev pub first_of : List Bytes → Bytes
  first_of [] = []
  first_of (d ∷ domains) = d

  -- GetDomainsForURL(u)[0], of a list that is never empty
  unfoldable pub first_domain : Url → Bytes
  unfolding get_domains_for_url is_tcp
  first_domain u = first_of (get_domains_for_url u)

  abbrev pub host_of : Option (Bytes × Bytes) → Bytes → Bytes
  host_of none host = host
  host_of (some (h, p)) host = h

  abbrev pub port_of : Option (Bytes × Bytes) → Bytes → Bytes
  port_of none port = port
  port_of (some (h, p)) port = p

  -- hostMatchesDomain of internal/controlplane/xds_listeners.go, for a URL that is not nil
  unfoldable pub host_matches_domain : Url → Bytes → Bool
  host_matches_domain u host =
      let s1 = N.split_host_port u.host in
      let s2 = N.split_host_port host in
      if bytes_eq (host_of s1 u.host) (host_of s2 host)
      then bytes_eq (port_of s1 (default_port u)) (port_of s2 (default_port u))
      else false

-- ParseEnvoyQueryParams: strings.Index(path, "?") splits the path.
unfoldable pub parse_envoy_query_params : Url → Url
parse_envoy_query_params u = elim (index_byte u.path 63) [
  | none ↦ record { scheme = u.scheme; host = u.host; path = u.path; raw_query = []; others = [] }
  | some idx ↦ record {
    scheme = u.scheme;
    host = u.host;
    path = take idx u.path;
    raw_query = drop (suc idx) u.path;
    others = [];
  }
]
