-- ===== src/Registry/Watchers.antt =====
-- A call of Watch that waits on its channel misses no change of what List answers.
use pomerium.Prelude.{
  ℕ, ℤ, ◌+ℤ◌, ◌≡◌, ◌≢◌, refl, sym, ap, ◌∙◌, true, ◌&&◌, List, arith, any_of, inl, inr, Option-cases,
  Bool-cases,
}
use pomerium.GoMap
use pomerium.Signal.{Signal, broadcast, is_bound}
use pomerium.Signal.Wakeups.{offer-eq}
use pomerium.Registry.{
  Service, InMemoryKey, key_order, InMemoryServer, Env, is_valid_request, is_present, rm_expired,
  update_regs, report, purge, list,
}
use pomerium.Registry.Listing.{is_key, is_listed-list, wants}
use pomerium.Registry.Reports.{update_regs_quiet, rm_expired_quiet}

full-broadcast : (s : Signal) (ch : ℕ) → is_bound s ch ≡ true → (broadcast s).full ch ≡ true
unfolding broadcast
full-broadcast s ch h = ground (arith, h, offer-eq s.chs s.full ch)

-- What List answers depends on which keys are registered.
same_list :
    (srv srv' : InMemoryServer) (kinds : List ℤ) (k : InMemoryKey)
    → is_present (GoMap.lookup key_order k srv'.regs)
      ≡ is_present (GoMap.lookup key_order k srv.regs)
    → any_of (is_key k) (list srv' kinds) ≡ any_of (is_key k) (list srv kinds)
same_list srv srv' kinds k h =
    is_listed-list srv' kinds k
    ∙ ap (λ b. wants kinds k.0 && b) h
    ∙ sym (is_listed-list srv kinds k)

-- If a report changes whether List names a service, for some kinds, then every bound channel holds
-- a wake-up after it.
pub full-report :
    (srv : InMemoryServer) (env : Env) (now later : ℤ) (services : List Service) (kinds : List ℤ)
    (k : InMemoryKey) (ch : ℕ)
    → is_bound srv.onchange ch ≡ true
    → any_of (is_key k) (list (report srv env now later services).1 kinds)
      ≢ any_of (is_key k) (list srv kinds)
    → (report srv env now later services).1.onchange.full ch ≡ true
unfolding report
full-report srv env now later services kinds k ch bound change =
    elim (Bool-cases (is_valid_request env services)) [
      | inr v ↦ absurd (change (rw v refl))
      | inl v ↦ elim (Option-cases (env.timestamp_proto (now +ℤ srv.ttl))) [
        | inl t ↦ absurd (change (rw (v, t) refl))
        | inr (expires, t) ↦ elim (Bool-cases (update_regs expires later services srv.regs).1) [
          | inl u ↦ rw (v, t, u) (full-broadcast srv.onchange ch bound)
          | inr u ↦ absurd (
              change (
                same_list srv (report srv env now later services).1 kinds k
                  (rw (v, t) (update_regs_quiet expires later services srv.regs k u))))
        ]
      ]
    ]

-- If a round of periodicCheck changes whether List names a service, for some kinds, then every
-- bound channel holds a wake-up after it.
pub full-purge :
    (srv : InMemoryServer) (now : ℤ) (kinds : List ℤ) (k : InMemoryKey) (ch : ℕ)
    → is_bound srv.onchange ch ≡ true
    → any_of (is_key k) (list (purge srv now) kinds) ≢ any_of (is_key k) (list srv kinds)
    → (purge srv now).onchange.full ch ≡ true
unfolding purge
full-purge srv now kinds k ch bound change = elim (Bool-cases (rm_expired now srv.regs).1) [
  | inl u ↦ rw u (full-broadcast srv.onchange ch bound)
  | inr u ↦ absurd (
      change (
        same_list srv (purge srv now) kinds k
          (ap (λ m. is_present (GoMap.lookup key_order k m)) (rm_expired_quiet now srv.regs u))))
]
