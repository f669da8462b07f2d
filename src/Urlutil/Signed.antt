-- ===== src/Urlutil/Signed.antt =====
-- Signing and then validating a URL.
use pomerium.Prelude.{
  ℕ, ◌+◌, ◌*◌, ◌/◌, ◌^◌, ◌≤◌, ◌<◌, ℤ, pos, ◌+ℤ◌, ◌-ℤ◌, +ℤ_parts, -ℤ_parts, eq_of_parts, ltb_ℤ,
  Bytes, true, false, ◌≡◌, refl, ap, ◌∙◌, sym, Option, none, some, arith, if◌then◌else◌,
}
use pomerium.Strings.{bytes_eq}
use pomerium.Strings.Splitting.{bytes_eq_refl}
use pomerium.Identity.Data.{is_zero}
use pomerium.Urlutil.{
  second, default_leeway, query_hmac_expiry, query_hmac_issued, query_hmac_signature, fits,
  UrlLibrary, unix, seconds, unix_time, new_numeric_date, ValidationError, expired,
  issued_in_the_future, SignedUrl, sprint, sign, check_hmac, validate_dates, validate_params,
  validate_parsed, validate,
}

-- When a signed URL expires.
abbrev pub expiry_at : ℤ → ℤ
expiry_at t = t +ℤ pos (300 * second)

names_differ :
    (bytes_eq query_hmac_issued query_hmac_expiry ≡ false)
    × (bytes_eq query_hmac_issued query_hmac_signature ≡ false)
    × (bytes_eq query_hmac_expiry query_hmac_signature ≡ false)
    × (bytes_eq query_hmac_signature query_hmac_issued ≡ false)
    × (bytes_eq query_hmac_signature query_hmac_expiry ≡ false)
unfolding bytes_eq
names_differ = (refl, refl, refl, refl, refl)

-- Down to the second.
abbrev pub floor_second : ℕ → ℕ
floor_second n = n / second * second

floor_second_bounds : (n : ℕ) → (floor_second n ≤ n) × (n < floor_second n + second)
floor_second_bounds n = (omega arith, omega arith)

minus_plus : (a b : ℤ) → (a -ℤ b) +ℤ b ≡ a
minus_plus a b = eq_of_parts _ a (omega (arith, +ℤ_parts (a -ℤ b) b, -ℤ_parts a b))

unix_time-unix : (n : ℕ) → unix_time (unix (pos n)) ≡ pos (floor_second n)
unfolding unix_time unix
unix_time-unix n = ap seconds (minus_plus (pos (n / second)) (pos 62135596800))

unix-fits : (n : ℕ) → n < 2 ^ 63 * second → fits (unix (pos n)) ≡ true
unfolding unix
unix-fits n h =
    let q = n / second in
    let d = -ℤ_parts (pos q) (pos 62135596800) in
    let small : q < 2 ^ 63 = omega (arith, h) in ground (arith, d, small)

expiry_at-pos : (n : ℕ) → expiry_at (pos n) ≡ pos (n + 300 * second)
unfolding ◌+ℤ◌
expiry_at-pos n = ground arith

-- What Validate finds of dates that were signed.
abbrev pub verdict : ℤ → ℤ → ℤ → Option ValidationError
verdict expiry issued now =
    if ltb_ℤ expiry (now -ℤ default_leeway)
    then some expired
    else if ltb_ℤ (now +ℤ default_leeway) issued
    then some issued_in_the_future
    else none

verdict_bounds :
    (expiry issued now : ℕ)
    → (now ≤ expiry + 60 * second
        → issued ≤ now + 60 * second
        → verdict (pos expiry) (pos issued) (pos now) ≡ none)
      × (verdict (pos expiry) (pos issued) (pos now) ≡ none
          → (now ≤ expiry + 60 * second) × (issued ≤ now + 60 * second))
verdict_bounds expiry issued now =
    let early = -ℤ_parts (pos now) default_leeway in
    let late = +ℤ_parts (pos now) default_leeway in
    (λ a b. ground (arith, early, late, a, b), λ e. ground (arith, early, late, e))

module _ {L : UrlLibrary} where
  validate_params_lem :
      (su : SignedUrl L) (params : L.Values) (mac : Bytes) (now issued expiry : ℤ)
      → L.parse_int (L.get params query_hmac_issued) ≡ some issued
      → L.parse_int (L.get params query_hmac_expiry) ≡ some expiry
      → (validate_params su now mac params).0
        ≡ validate_dates (record su { raw_query = L.encode params }) now mac issued expiry
  unfolding validate_params validate_parsed
  validate_params_lem su params mac now issued expiry i e =
      rw (validate_params, i, e, validate_parsed) refl

  -- Validate takes off the parameter of the signature that was put on last.
  validate-set :
      (su : SignedUrl L) (params : L.Values) (mac : Bytes) (now issued expiry : ℤ)
      → L.has params query_hmac_signature ≡ false
      → L.parse_int (L.get params query_hmac_issued) ≡ some issued
      → L.parse_int (L.get params query_hmac_expiry) ≡ some expiry
      → (validate
          (record su {
            raw_query = L.encode (L.set params query_hmac_signature (L.encode_base64 mac));
          })
          now).0
        ≡ validate_dates (record su { raw_query = L.encode params }) now mac issued expiry
  unfolding validate
  validate-set su params mac now issued expiry h i e =
      let su' : SignedUrl L = record su {
        raw_query = L.encode (L.set params query_hmac_signature (L.encode_base64 mac));
      } in
      let taken_off =
        ap (λ v. L.del v query_hmac_signature) (L.parse-encode _)
        ∙ L.del-set params query_hmac_signature (L.encode_base64 mac) h in
      rw
        (
          validate,
          L.parse-encode,
          L.get-set,
          bytes_eq_refl query_hmac_signature,
          L.decode_base64-encode_base64,
        )
        (ap (λ v. (validate_params su' now mac v).0) taken_off
          ∙ validate_params_lem su' params mac now issued expiry i e)

  -- What Validate finds of a signature that Sign made.
  validate-sign :
      (su : SignedUrl L) (t now : ℤ)
      → L.has (L.parse su.raw_query) query_hmac_signature ≡ false
      → is_zero t ≡ false
      → is_zero (expiry_at t) ≡ false
      → fits (unix t) ≡ true
      → fits (unix (expiry_at t)) ≡ true
      → (validate (sign su t) now).0
        ≡ verdict (unix_time (unix (expiry_at t))) (unix_time (unix t)) now
  unfolding sign validate new_numeric_date
  validate-sign su t now unsigned z z' f f' =
      let issued = L.format_int (unix t) in
      let expiry = L.format_int (unix (expiry_at t)) in
      let params0 = L.set (L.parse su.raw_query) query_hmac_issued issued in
      let params = L.set params0 query_hmac_expiry expiry in
      let content =
        sprint L (L.show su.rest (L.encode params)) (some (unix t)) (some (unix (expiry_at t))) in
      rw (z, z')
        (validate-set (record su { signed = true }) params (L.generate_hmac content su.key) now
            (unix t) (unix (expiry_at t))
            (rw (L.has-set, names_differ.4, L.has-set, names_differ.3) unsigned)
            (rw (L.get-set, names_differ.0, L.get-set, bytes_eq_refl query_hmac_issued)
              (L.parse_int-format_int (unix t) f))
            (rw (L.get-set, bytes_eq_refl query_hmac_expiry)
              (L.parse_int-format_int (unix (expiry_at t)) f'))
          ∙ unfold validate_dates check_hmac in
            rw (bytes_eq_refl (L.generate_hmac content su.key)) refl)

  -- A URL without a signature that is signed, after the zero time and while the dates fit in an
  -- int64: Validate accepts it from a minute before until a second less than six minutes after it was
  -- signed, and never 61 seconds or more before, or more than six minutes after.
  pub validate-window :
      (su : SignedUrl L) (n now : ℕ)
      → L.has (L.parse su.raw_query) query_hmac_signature ≡ false
      → 0 < n
      → n + 300 * second < 2 ^ 63 * second
      → let result = (validate (sign su (pos n)) (pos now)).0 in
        (n ≤ now + 60 * second → now + second ≤ n + 360 * second → result ≡ none)
        × (result ≡ none → (n < now + 61 * second) × (now ≤ n + 360 * second))
  validate-window su n now unsigned positive h =
      let later = expiry_at-pos n in
      let found =
        validate-sign su (pos n) (pos now) unsigned (ground (arith, positive))
          (rw later (ground arith)) (unix-fits n (omega (arith, h)))
          (rw later (unix-fits (n + 300 * second) h)) in
      let low = floor_second_bounds n in
      let high = floor_second_bounds (n + 300 * second) in
      let limits = verdict_bounds (floor_second (n + 300 * second)) (floor_second n) now in
      let found' = rw (later, unix_time-unix (n + 300 * second), unix_time-unix n) at found in
      (
        λ a b. found' ∙ limits.0 (omega (arith, a, b, low, high)) (omega (arith, a, b, low, high)),
        λ e.
            let kept = limits.1 (sym found' ∙ e) in
            (omega (arith, kept, low, high), omega (arith, kept, low, high)),
      )
