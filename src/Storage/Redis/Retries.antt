-- ===== src/Storage/Redis/Retries.antt =====
-- The rounds of incrementVersion end, and with what.
use pomerium.Prelude.{
  ℕ, zero, suc, ◌+◌, ◌<◌, true, false, ◌≡◌, ◌⊎◌, refl, inl, inr, subst, sym, Option, none, some,
  arith, Bool-cases, Option-cases,
}
use pomerium.Storage.Redis.{
  RedisError, exceeded_max_retries, is_tx_failed, retry, increment_version,
}

module _ (watch done : ℕ → Option RedisError) where
  -- Another client got in first in each of k rounds from i, and the context was not done.
  abbrev pub IsContended : ℕ → ℕ → Type 0
  IsContended i zero = Unit
  IsContended i (suc k) =
      ((e : RedisError) × (watch i ≡ some e) × (is_tx_failed e ≡ true) × (done i ≡ none))
      × IsContended (suc i) k

  -- The k-th round from i ends the loop with the result.
  abbrev pub Ends : ℕ → Option RedisError → Type 0
  Ends i result =
      ((watch i ≡ none) × (result ≡ none))
      ⊎ (((e : RedisError) × (watch i ≡ some e) × (is_tx_failed e ≡ false) × (result ≡ some e))
          ⊎ ((e : RedisError) × (c : RedisError) × (watch i ≡ some e)
              × (is_tx_failed e ≡ true)
              × (done i ≡ some c)
              × (result ≡ some c)))

  Outcome : ℕ → ℕ → Option RedisError → Type 0
  Outcome rounds i result =
      ((k : ℕ) × (k < rounds) × IsContended i k × Ends (i + k) result)
      ⊎ (IsContended i rounds × (result ≡ some exceeded_max_retries))

  ends_here :
      (rounds i : ℕ) (result : Option RedisError) → Ends i result → Outcome (suc rounds) i result
  unfolding Outcome
  ends_here rounds i result h = inl (0, omega arith, tt, subst (λ j. Ends j result) (omega arith) h)

  ends_later :
      (rounds i : ℕ) (result : Option RedisError)
      → (e : RedisError) × (watch i ≡ some e) × (is_tx_failed e ≡ true) × (done i ≡ none)
      → Outcome rounds (suc i) result
      → Outcome (suc rounds) i result
  unfolding Outcome
  ends_later rounds i result c (inl (k, h, cs, end)) =
      inl (suc k, omega arith, (c, cs), subst (λ j. Ends j result) (omega arith) end)
  ends_later rounds i result c (inr (cs, e)) = inr ((c, cs), e)

  turns :
      (rounds i : ℕ) (result : Option RedisError)
      → retry (suc rounds) i watch done ≡ result
      → Outcome (suc rounds) i result
      → Outcome (suc rounds) i (retry (suc rounds) i watch done)
  turns rounds i result e = subst (Outcome (suc rounds) i) (sym e)

  retry-Outcome : (rounds i : ℕ) → Outcome rounds i (retry rounds i watch done)
  unfolding retry Outcome
  retry-Outcome zero i = inr (tt, refl)
  retry-Outcome (suc rounds) i = elim (Option-cases (watch i)) [
    | inl w ↦ turns rounds i none (rw (retry, w) refl) (ends_here rounds i none (inl (w, refl)))
    | inr (e, w) ↦ elim (Bool-cases (is_tx_failed e)) [
      | inr t ↦
          turns rounds i (some e) (rw (retry, w, t) refl)
            (ends_here rounds i (some e) (inr (inl (e, w, t, refl))))
      | inl t ↦ elim (Option-cases (done i)) [
        | inr (c, d) ↦
            turns rounds i (some c) (rw (retry, w, t, d) refl)
              (ends_here rounds i (some c) (inr (inr (e, c, w, t, d, refl))))
        | inl d ↦
            turns rounds i (retry rounds (suc i) watch done) (rw (retry, w, t, d) refl)
              (ends_later rounds i _ (e, w, t, d) (retry-Outcome rounds (suc i)))
      ]
    ]
  ]

  -- The put of a record comes to an end: within a hundred rounds, each before it lost to another
  -- client, a round is successful, fails with an error that is returned, or is lost while the context
  -- is done, whose error is returned; or all hundred are lost, which is the error that says so.
  pub increment_version-cases :
      ((k : ℕ) × (k < 100) × IsContended 0 k × Ends k (increment_version watch done))
      ⊎ (IsContended 0 100 × (increment_version watch done ≡ some exceeded_max_retries))
  unfolding increment_version Outcome
  increment_version-cases = elim (retry-Outcome 100 0) [
    | inl (k, h, c, end) ↦
        inl (k, h, c, subst (λ j. Ends j (retry 100 0 watch done)) (omega arith) end)
    | inr h ↦ inr h
  ]
