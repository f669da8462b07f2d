-- ===== src/Urlutil.antt =====
-- internal/urlutil: signed.go, which signs URLs with a key that services share, with
-- pkg/cryptutil/hmac.go. net/url, HMAC, base64 and strconv are the interface UrlLibrary.
pub mod Signed
pub mod Hosts
use pomerium.Prelude.{
  ℕ, ◌*◌, ◌/◌, ◌^◌, suc, ℤ, pos, negsuc, ◌+ℤ◌, ◌-ℤ◌, ltb_ℤ, ◌==◌, Bytes, Bool, true, false, ◌≡◌,
  ◌++◌, Option, none, some, if◌then◌else◌,
}
use pomerium.Strings.{codes, bytes_eq}
use pomerium.Identity.Data.{is_zero}

abbrev pub second : ℕ
second = 1_000_000_000

-- DefaultLeeway
abbrev pub default_leeway : ℤ
default_leeway = pos (60 * second)

abbrev pub query_hmac_expiry : Bytes
query_hmac_expiry = codes "pomerium_expiry"

abbrev pub query_hmac_issued : Bytes
query_hmac_issued = codes "pomerium_issued"

abbrev pub query_hmac_signature : Bytes
query_hmac_signature = codes "pomerium_signature"

-- An int64 holds the number.
abbrev pub fits : ℤ → Bool
fits n = if ltb_ℤ n (pos (2 ^ 63)) then ltb_ℤ (negsuc (2 ^ 63)) n else false

-- What is used of the libraries, with their documentation: url.Values is a map, of which Encode gives
-- a text and Query reads it back.
pub record UrlLibrary : Type 1 where
  pub Rest : Type 0
  pub Query : Type 0
  pub Values : Type 0
  pub show : Rest → Query → Bytes
  pub parse : Query → Values
  pub encode : Values → Query
  pub get : Values → Bytes → Bytes
  pub has : Values → Bytes → Bool
  pub set : Values → Bytes → Bytes → Values
  pub del : Values → Bytes → Values
  pub generate_hmac : Bytes → Bytes → Bytes
  pub encode_base64 : Bytes → Bytes
  pub decode_base64 : Bytes → Option Bytes
  pub format_int : ℤ → Bytes
  pub parse_int : Bytes → Option ℤ
  pub parse-encode : (v : Values) → parse (encode v) ≡ v
  pub get-set :
      (v : Values) (k j x : Bytes) → get (set v k x) j ≡ (if bytes_eq j k then x else get v j)
  pub has-set :
      (v : Values) (k j x : Bytes) → has (set v k x) j ≡ (if bytes_eq j k then true else has v j)
  pub del-set : (v : Values) (k x : Bytes) → has v k ≡ false → del (set v k x) k ≡ v
  pub decode_base64-encode_base64 : (s : Bytes) → decode_base64 (encode_base64 s) ≡ some s
  pub parse_int-format_int : (n : ℤ) → fits n ≡ true → parse_int (format_int n) ≡ some n

-- t.Unix(), for a time in nanoseconds since the zero time, and time.Unix(n, 0)
unfoldable pub unix : ℤ → ℤ
unix (pos n) = pos (n / second) -ℤ pos 62135596800
unix (negsuc n) = negsuc (n / second) -ℤ pos 62135596800

abbrev pub seconds : ℤ → ℤ
seconds (pos n) = pos (n * second)
seconds (negsuc n) = pos 0 -ℤ pos (suc n * second)

unfoldable pub unix_time : ℤ → ℤ
unix_time n = seconds (n +ℤ pos 62135596800)

-- newNumericDate; a nil *numericDate is none
unfoldable pub new_numeric_date : ℤ → Option ℤ
unfolding unix
new_numeric_date t = if is_zero t then none else some (unix t)

pub data ValidationError : Type 0 where
  malformed_signature numeric_date_malformed expired issued_in_the_future hmac_failed :
      ValidationError

module _ (L : UrlLibrary) where
  pub record SignedUrl : Type 0 where
    pub rest : L.Rest
    pub raw_query : L.Query
    pub key : Bytes
    pub signed : Bool

module _ (L : UrlLibrary) where
  -- fmt.Sprint of a *numericDate: its method String panics on nil, which fmt prints as <nil>
  unfoldable pub sprint_date : Option ℤ → Bytes
  sprint_date none = codes "<nil>"
  sprint_date (some n) = L.format_int n

  -- fmt.Sprint of a string and two dates: a space stands between operands that are not strings
  unfoldable pub sprint : Bytes → Option ℤ → Option ℤ → Bytes
  unfolding sprint_date
  sprint uri issued expiry = uri ++ (sprint_date issued ++ codes " " ++ sprint_date expiry)

  unfoldable pub hmac_url : Bytes → Bytes → Option ℤ → Option ℤ → Bytes
  unfolding sprint
  hmac_url key uri issued expiry = L.encode_base64 (L.generate_hmac (sprint uri issued expiry) key)

  unfoldable pub check_hmac : Bytes → Bytes → Bytes → Bool
  check_hmac content supplied key = bytes_eq (L.generate_hmac content key) supplied

module _ {L : UrlLibrary} where
  unfoldable pub new_signed_url : Bytes → L.Rest → L.Query → SignedUrl L
  new_signed_url key rest raw_query = record {
    rest = rest;
    raw_query = raw_query;
    key = key;
    signed = false;
  }

  -- Sign
  unfoldable pub sign : SignedUrl L → ℤ → SignedUrl L
  unfolding new_numeric_date sprint_date hmac_url
  sign su now =
      let issued = new_numeric_date now in
      let expiry = new_numeric_date (now +ℤ pos (300 * second)) in
      let params =
        L.set (L.set (L.parse su.raw_query) query_hmac_issued (sprint_date L issued))
          query_hmac_expiry (sprint_date L expiry) in
      let uri = L.show su.rest (L.encode params) in
      let signature = hmac_url L su.key uri issued expiry in
      record su {
        raw_query = L.encode (L.set params query_hmac_signature signature);
        signed = true;
      }

  -- String
  unfoldable pub string : SignedUrl L → ℤ → Bytes × SignedUrl L
  unfolding sign
  string su now =
      let su' = if su.signed then su else sign su now in (L.show su'.rest su'.raw_query, su')

  -- The comparisons of Validate, from the decoded signature on.
  unfoldable pub validate_dates : SignedUrl L → ℤ → Bytes → ℤ → ℤ → Option ValidationError
  unfolding unix_time sprint check_hmac
  validate_dates su now sig issued expiry =
      if ltb_ℤ (unix_time expiry) (now -ℤ default_leeway)
      then some expired
      else if ltb_ℤ (now +ℤ default_leeway) (unix_time issued)
      then some issued_in_the_future
      else if check_hmac L (sprint L (L.show su.rest su.raw_query) (some issued) (some expiry)) sig
          su.key
      then none
      else some hmac_failed

  -- The same, of the two dates as newNumericDateFromString gives them.
  unfoldable pub validate_parsed :
      SignedUrl L → ℤ → Bytes → Option ℤ → Option ℤ → Option ValidationError
  unfolding validate_dates
  validate_parsed su now sig none expiry = some numeric_date_malformed
  validate_parsed su now sig (some issued) none = some numeric_date_malformed
  validate_parsed su now sig (some issued) (some expiry) = validate_dates su now sig issued expiry

  -- Validate, from where it has taken the signature off the parameters.
  unfoldable pub validate_params :
      SignedUrl L → ℤ → Bytes → L.Values → Option ValidationError × SignedUrl L
  unfolding validate_parsed
  validate_params su now sig params =
      let su' = record su { raw_query = L.encode params } in
      (
        validate_parsed su' now sig (L.parse_int (L.get params query_hmac_issued))
            (L.parse_int (L.get params query_hmac_expiry)),
        su',
      )

  -- Validate, which changes the URL as well.
  unfoldable pub validate : SignedUrl L → ℤ → Option ValidationError × SignedUrl L
  unfolding validate_params
  validate su now =
      let params = L.parse su.raw_query in
      elim (L.decode_base64 (L.get params query_hmac_signature)) [
        | none ↦ (some malformed_signature, su)
        | some sig ↦ validate_params su now sig (L.del params query_hmac_signature)
      ]
