-- ===== src/Authorize/Requests.antt =====
-- Which policy authorize takes for a request, in authorize/grpc.go.
use pomerium.Prelude.{
  suc, Bytes, Bool, false, List, [], ◌∷◌, ◌++◌, Option, none, some, take, drop, if◌then◌else◌,
}
use pomerium.Strings.{index_byte, bytes_eq, is_empty}
use pomerium.Urlutil.Hosts.{Url, Net, strip_port, first_domain}
use pomerium.Config.Policy.{Policy, SubPolicy, matches}
use pomerium.Config.Policy.Validation.{Files}
use pomerium.Config.Options.{Options, get_forward_auth_url, get_all_policies}

-- The scheme, host and path of the HTTP attributes of a CheckRequest.
pub record HttpAttributes : Type 0 where
  pub scheme : Bytes
  pub host : Bytes
  pub path : Bytes

-- stripQueryString
unfoldable pub strip_query_string : Bytes → Bytes
strip_query_string str = elim (index_byte str 63) [ none ↦ str | some i ↦ take i str ]

unfoldable pub query_string : Bytes → Bytes
query_string str = elim (index_byte str 63) [ none ↦ [] | some i ↦ drop (suc i) str ]

abbrev pub host_url : HttpAttributes → Url
host_url h = record { scheme = h.scheme; host = h.host; path = []; raw_query = []; others = [] }

-- getCheckRequestURL
unfoldable pub get_check_request_url : Net → HttpAttributes → Url
unfolding first_domain strip_query_string query_string
get_check_request_url N h = record {
  scheme = h.scheme;
  host = first_domain N (host_url h);
  path = strip_query_string h.path;
  raw_query = query_string h.path;
  others = [];
}

abbrev forward_auth_host : Option (Option Url) → Option Bytes
forward_auth_host none = none
forward_auth_host (some none) = none
forward_auth_host (some (some u)) = some u.host

module _ {V : Type 0} where
  unfoldable pub first_match :
      (Bytes → Url → Option Bool) → Url → List (Policy V) → Option (Policy V)
  unfolding matches
  first_match match_regex request_url [] = none
  first_match match_regex request_url (p ∷ policies) =
      let rest = first_match match_regex request_url policies in
      if matches match_regex p request_url then some p else rest

  -- getMatchingPolicy
  unfoldable pub get_matching_policy :
      (Bytes → Url → Option Bool) → Options V → Url → Option (Policy V)
  unfolding first_match get_all_policies
  get_matching_policy match_regex o request_url =
      first_match match_regex request_url (get_all_policies o)

  -- isForwardAuth
  unfoldable pub is_forward_auth : (Bytes → Option Url) → Net → Options V → HttpAttributes → Bool
  unfolding get_forward_auth_url get_check_request_url strip_port
  is_forward_auth parse N o h = elim (forward_auth_host (get_forward_auth_url parse o)) [
    | none ↦ false
    | some host ↦ bytes_eq (strip_port (get_check_request_url N h).host) (strip_port host)
  ]

  -- GetClientCA, with the same functions on files; none for an error
  unfoldable pub get_client_ca : Files → Options V → Option Bytes
  get_client_ca F o =
      if is_empty o.client_ca
      then (if is_empty o.client_ca_file then some [] else F.read_file o.client_ca_file)
      else F.decode_base64 o.client_ca

  -- getDownstreamClientCA
  unfoldable pub get_downstream_client_ca : Files → Options V → Option (Policy V) → Option Bytes
  unfolding get_client_ca
  get_downstream_client_ca F o none = get_client_ca F o
  get_downstream_client_ca F o (some p) =
      if is_empty p.tls.tls_downstream_client_ca
      then get_client_ca F o
      else F.decode_base64 p.tls.tls_downstream_client_ca

  abbrev pub regos : List (SubPolicy V) → List Bytes
  regos [] = []
  regos (sp ∷ rest) = elim sp.rego [ none ↦ regos rest | some rego ↦ rego ++ regos rest ]

  abbrev pub custom_policies : Option (Policy V) → List Bytes
  custom_policies none = []
  custom_policies (some p) = regos p.access.sub_policies
