-- ===== src/Identity/Data/Refresh.antt =====
-- When a session is due.
use pomerium.Prelude.{
  ℤ, ◌+ℤ◌, ◌≤ℤ◌, ltb_ℤ, ◌≡◌, ◌⊎◌, Option, none, some, arith, eq_of_parts, refl, inl, inr,
  Bool-cases, ltb_ℤ→ge,
}
use pomerium.Identity.Data.{
  Session, zero_time, earlier, minus, expiry_of, token_expires_at, next_refresh,
}

-- The time is no later than the one given, if there is one.
abbrev pub NotAfter : ℤ → Option ℤ → Type 0
NotAfter t none = Unit {0}
NotAfter t (some e) = t ≤ℤ e

abbrev pub grace_before : Session → Option ℤ
grace_before s = minus s.grace_period (expiry_of (token_expires_at s.session.oauth_token))

earlier-NotAfter :
    (a b : Option ℤ)
    → let tm = earlier (earlier zero_time a) b in
      NotAfter tm b × (NotAfter tm a ⊎ (a ≡ some zero_time))
unfolding earlier
earlier-NotAfter none none = (tt, inl tt)
earlier-NotAfter none (some b) = (ground arith, inl tt)
earlier-NotAfter (some a) none = (tt, ground arith)
earlier-NotAfter (some a) (some b) = (ground arith, ground (arith, eq_of_parts a zero_time))

-- A session is due no sooner than the cool-off after its last refresh. If it is due later than
-- that, it is due no later than it expires, and no later than the grace period before its token
-- expires (unless that is the zero time).
pub next_refresh_bounds :
    (s : Session)
    → let min = s.last_refresh +ℤ s.cool_off_duration in
      let n = next_refresh s in
      (min ≤ℤ n)
      × ((n ≡ min)
          ⊎ (NotAfter n (expiry_of s.session.expires_at)
              × (NotAfter n (grace_before s) ⊎ (grace_before s ≡ some zero_time))))
unfolding next_refresh
next_refresh_bounds s =
    let min = s.last_refresh +ℤ s.cool_off_duration in
    let tm = earlier (earlier zero_time (grace_before s)) (expiry_of s.session.expires_at) in
    elim (Bool-cases (ltb_ℤ tm min)) [
      | inl e ↦ rw e (ground arith, inl refl)
      | inr e ↦ rw e (
        ltb_ℤ→ge tm min e,
        inr (earlier-NotAfter (grace_before s) (expiry_of s.session.expires_at)),
      )
    ]
