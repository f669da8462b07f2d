-- ===== src/Config/Weights.antt =====
-- The upstream URLs of a policy with their weights, in config/custom.go. What is used of net/url and
-- strconv is an argument.
use pomerium.Prelude.{
  ℕ, suc, Bytes, Bool, true, false, ◌==◌, List, [], ◌∷◌, Option, none, some, take, drop,
  if◌then◌else◌,
}
use pomerium.Strings.{index_byte, is_empty}
use pomerium.Storage.{Result, ok, err}
use pomerium.Urlutil.Hosts.{Url}

pub data ConfigError : Type 0 where
  zero_weight endpoint_weights_spec hostname_must_be_specified : ConfigError
  scheme_must_be_specified empty_urls either_to_or_redirect_required : ConfigError
  bad_number bad_url bad_source source_with_path : ConfigError
  public_with_whitelists any_user_with_whitelists certificate_or_key_missing : ConfigError
  bad_certificate bad_ca missing_ca_file bad_downstream_ca missing_downstream_ca_file : ConfigError
  two_tokens missing_token_file two_rewrites unhashable : ConfigError

-- url.Parse, (*url.URL).String and (*url.URL).Hostname, and strconv.ParseUint(s, 10, 32)
pub record UrlText : Type 0 where
  pub parse : Bytes → Option Url
  pub show : Url → Bytes
  pub hostname : Url → Bytes
  pub parse_uint : Bytes → Option ℕ

pub record WeightedUrl : Type 0 where
  pub url : Url
  pub lb_weight : ℕ

abbrev pub all_or_none : Result ConfigError (Bool × Bool) → Result ConfigError Bool
all_or_none (err e) = err e
all_or_none (ok (true, true)) = err endpoint_weights_spec
all_or_none (ok (false, false)) = err endpoint_weights_spec
all_or_none (ok (true, false)) = ok false
all_or_none (ok (false, true)) = ok true

module _ (L : UrlText) where
  -- the method Validate of a WeightedURL
  unfoldable pub validate_weighted_url : WeightedUrl → Option ConfigError
  validate_weighted_url u =
      if is_empty (L.hostname u.url)
      then some hostname_must_be_specified
      else if is_empty u.url.scheme
      then some scheme_must_be_specified
      else none

  -- weightedString
  unfoldable pub weighted_string : Bytes → Result ConfigError (Bytes × ℕ)
  weighted_string str = elim (index_byte str 44) [
    | none ↦ ok (str, 0)
    | some i ↦ elim (L.parse_uint (drop (suc i) str)) [
      | none ↦ err bad_number
      | some w ↦ if w == 0 then err zero_weight else ok (take i str, w)
    ]
  ]

  abbrev pub with_weight : Option Url → ℕ → Result ConfigError WeightedUrl
  with_weight none w = err bad_url
  with_weight (some u) w =
      if is_empty (L.hostname u)
      then err hostname_must_be_specified
      else ok (record { url = u; lb_weight = w })

  -- ParseWeightedURL
  unfoldable pub parse_weighted_url : Bytes → Result ConfigError WeightedUrl
  unfolding weighted_string
  parse_weighted_url dst = elim (weighted_string dst) [
    | err e ↦ err e
    | ok (to, w) ↦ with_weight (L.parse to) w
  ]

  -- The loop of the method Validate of WeightedURLs: the error, or noWeight and hasWeight.
  unfoldable pub weights_of : List WeightedUrl → Bool → Bool → Result ConfigError (Bool × Bool)
  unfolding validate_weighted_url
  weights_of [] no_weight has_weight = ok (no_weight, has_weight)
  weights_of (u ∷ urls) no_weight has_weight =
      let without = weights_of urls true has_weight in
      let with = weights_of urls no_weight true in
      elim (validate_weighted_url u) [
        | some e ↦ err e
        | none ↦ if u.lb_weight == 0 then without else with
      ]

  -- the method Validate of WeightedURLs; whether they have weights
  unfoldable pub validate_weighted_urls : List WeightedUrl → Result ConfigError Bool
  unfolding weights_of
  validate_weighted_urls [] = err empty_urls
  validate_weighted_urls (u ∷ urls) = all_or_none (weights_of (u ∷ urls) false false)

  unfoldable pub parse_each : List Bytes → Result ConfigError (List WeightedUrl)
  unfolding parse_weighted_url
  parse_each [] = ok []
  parse_each (dst ∷ urls) =
      let rest = parse_each urls in
      elim (parse_weighted_url dst) [
        | err e ↦ err e
        | ok u ↦ elim rest [ err e ↦ err e | ok us ↦ ok (u ∷ us) ]
      ]

  -- ParseWeightedUrls
  unfoldable pub parse_weighted_urls : List Bytes → Result ConfigError (List WeightedUrl)
  unfolding parse_each validate_weighted_urls
  parse_weighted_urls urls = elim (parse_each urls) [
    | err e ↦ err e
    | ok out ↦ elim (validate_weighted_urls out) [ err e ↦ err e | ok w ↦ ok out ]
  ]

  abbrev pub url_texts : List WeightedUrl → List Bytes
  url_texts [] = []
  url_texts (u ∷ urls) = L.show u.url ∷ url_texts urls

  abbrev pub weights : List WeightedUrl → List ℕ
  weights [] = []
  weights (u ∷ urls) = u.lb_weight ∷ weights urls

  -- Flatten: the URLs, and their weights if they have any
  unfoldable pub flatten : List WeightedUrl → Result ConfigError (List Bytes × List ℕ)
  unfolding validate_weighted_urls
  flatten urls = elim (validate_weighted_urls urls) [
    | err e ↦ err e
    | ok has_weight ↦ ok (url_texts urls, if has_weight then weights urls else [])
  ]
