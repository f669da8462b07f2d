-- ===== src/Tests/Urls.antt =====
-- Signed URLs.
use pomerium.Prelude.{
  ◌+◌, ◌*◌, ◌≤◌, ◌<◌, ℤ, pos, negsuc, Bytes, Bool, true, false, ◌≡◌, refl, ◌++◌, [], ◌∷◌, Option,
  none, some, arith, Bool-cases, Option-cases, inl, inr, ◌==◌, if◌then◌else◌,
}
use pomerium.Strings.{codes, bytes_eq}
use pomerium.Strings.Splitting.{bytes_eq→eq}
use pomerium.Urlutil.{
  UrlLibrary, query_hmac_issued, query_hmac_expiry, SignedUrl, second, sign, validate,
}
use pomerium.Urlutil.Signed.{validate-window}

abbrev Values : Type 0
Values = Bytes → Option Bytes

abbrev is_some : Option Bytes → Bool
is_some none = false
is_some (some x) = true

abbrev or_empty : Option Bytes → Bytes
or_empty none = []
or_empty (some x) = x

abbrev put_value : Values → Bytes → Option Bytes → Values
put_value v k x j = if bytes_eq j k then x else v j

abbrev number_text : ℤ → Bytes
number_text (pos n) = 0 ∷ n ∷ []
number_text (negsuc n) = 1 ∷ n ∷ []

abbrev number_of : Bytes → Option ℤ
number_of [] = none
number_of (s ∷ []) = none
number_of (s ∷ n ∷ t) = if s == 0 then some (pos n) else some (negsuc n)

number_of-number_text : (n : ℤ) → number_of (number_text n) ≡ some n
number_of-number_text (pos n) = refl
number_of-number_text (negsuc n) = refl

put_back :
    (v : Values) (k x j : Bytes)
    → is_some (v k) ≡ false
    → put_value (put_value v k (some x)) k none j ≡ v j
put_back v k x j h = elim (Bool-cases (bytes_eq j k)) [
  | inl e ↦ rw (e, bytes_eq→eq j k e) (ground (arith, h, Option-cases (v k)))
  | inr e ↦ rw e refl
]

get_value :
    (v : Values) (k j x : Bytes)
    → or_empty (put_value v k (some x) j) ≡ (if bytes_eq j k then x else or_empty (v j))
get_value v k j x = ground arith

has_value :
    (v : Values) (k j x : Bytes)
    → is_some (put_value v k (some x) j) ≡ (if bytes_eq j k then true else is_some (v j))
has_value v k j x = ground arith

abbrev library : UrlLibrary
library = record {
  Rest = Bytes;
  Query = Values;
  Values = Values;
  show = λ r q. r ++ (or_empty (q query_hmac_issued) ++ or_empty (q query_hmac_expiry));
  parse = λ q. q;
  encode = λ v. v;
  get = λ v k. or_empty (v k);
  has = λ v k. is_some (v k);
  set = λ v k x. put_value v k (some x);
  del = λ v k. put_value v k none;
  generate_hmac = λ content key. key ++ content;
  encode_base64 = λ s. s;
  decode_base64 = some;
  format_int = number_text;
  parse_int = number_of;
  parse-encode = λ v. refl;
  get-set = get_value;
  has-set = has_value;
  del-set = λ v k x h i j. put_back v k x j h i;
  decode_base64-encode_base64 = λ s. refl;
  parse_int-format_int = λ n h. number_of-number_text n;
}

abbrev unsigned : SignedUrl library
unsigned = record {
  rest = codes "https://a/";
  raw_query = λ k. none;
  key = codes "k";
  signed = false;
}

validate-window_example :
    let result = (validate (sign unsigned (pos (1000 * second))) (pos (1030 * second))).0 in
    (1000 * second ≤ 1030 * second + 60 * second
      → 1030 * second + second ≤ 1000 * second + 360 * second
      → result ≡ none)
    × (result ≡ none
        → (1000 * second < 1030 * second + 61 * second)
          × (1030 * second ≤ 1000 * second + 360 * second))
validate-window_example =
    validate-window unsigned (1000 * second) (1030 * second) refl (omega arith) (omega arith)
