-- ===== src/Config/Options.antt =====
-- What the routes of config/options.go's Options depend on: the services' addresses and URLs, and the
-- policies. What is used of net/url is an argument.
use pomerium.Prelude.{ℤ, Bytes, List, [], ◌∷◌, ◌++◌, Option, none, some, if◌then◌else◌}
use pomerium.Strings.{codes, is_empty}
use pomerium.GoMap.{GoMap}
use pomerium.Urlutil.Hosts.{Url, parse_and_validate_url}
use pomerium.Config.Policy.{Policy}

pub record Options (V : Type 0) : Type 0 where
  pub addr : Bytes
  pub grpc_addr : Bytes
  pub services : Bytes
  pub policies : List (Policy V)
  pub additional_policies : List (Policy V)
  pub authenticate_url_string : Bytes
  pub authenticate_callback_path : Bytes
  pub authorize_url_string : Bytes
  pub authorize_url_strings : List Bytes
  pub data_broker_url_string : Bytes
  pub data_broker_url_strings : List Bytes
  pub forward_auth_url_string : Bytes
  pub cookie_name : Bytes
  pub jwt_claims_headers : GoMap Bytes Bytes
  pub headers : GoMap Bytes Bytes
  pub default_upstream_timeout : ℤ
  pub client_ca : Bytes
  pub client_ca_file : Bytes

-- The URL http://127.0.0.1:5443, which getURLs gives where there is no other.
abbrev pub local_url : Url
local_url = record {
  scheme = codes "http";
  host = codes "127.0.0.1:5443";
  path = [];
  raw_query = [];
  others = [];
}

abbrev pub found_url : Option Url → Option (Option Url)
found_url none = none
found_url (some u) = some (some u)

module _ (parse : Bytes → Option Url) where
  abbrev pub parsed_before : Option Url → Option (List Url) → Option (List Url)
  parsed_before none rest = none
  parsed_before (some u) none = none
  parsed_before (some u) (some urls) = some (u ∷ urls)

  -- The loop of getURLs
  unfoldable pub parse_urls : List Bytes → Option (List Url)
  unfolding parse_and_validate_url
  parse_urls [] = some []
  parse_urls (str ∷ strs) =
      let rest = parse_urls strs in
      if is_empty str then rest else parsed_before (parse_and_validate_url parse str) rest

  abbrev pub or_local : Option (List Url) → Option (List Url)
  or_local none = none
  or_local (some []) = some (local_url ∷ [])
  or_local (some (u ∷ urls)) = some (u ∷ urls)

  -- getURLs
  unfoldable pub get_urls : List Bytes → Option (List Url)
  unfolding parse_urls
  get_urls strs = or_local (parse_urls strs)

  module _ {V : Type 0} where
    -- GetAuthenticateURL
    unfoldable pub get_authenticate_url : Options V → Option Url
    unfolding parse_and_validate_url
    get_authenticate_url o = parse_and_validate_url parse (
        if is_empty o.authenticate_url_string
        then codes "https://127.0.0.1"
        else o.authenticate_url_string)

    -- GetAuthorizeURLs
    unfoldable pub get_authorize_urls : Options V → Option (List Url)
    unfolding get_urls
    get_authorize_urls o = get_urls (o.authorize_url_string ∷ o.authorize_url_strings)

    -- GetDataBrokerURLs
    unfoldable pub get_data_broker_urls : Options V → Option (List Url)
    unfolding get_urls
    get_data_broker_urls o = get_urls (o.data_broker_url_string ∷ o.data_broker_url_strings)

    -- GetForwardAuthURL: none is an error, `some none` the nil URL.
    unfoldable pub get_forward_auth_url : Options V → Option (Option Url)
    unfolding parse_and_validate_url
    get_forward_auth_url o =
        if is_empty o.forward_auth_url_string
        then some none
        else found_url (parse_and_validate_url parse o.forward_auth_url_string)

module _ {V : Type 0} where
  -- GetAllPolicies
  unfoldable pub get_all_policies : Options V → List (Policy V)
  get_all_policies o = o.policies ++ o.additional_policies
