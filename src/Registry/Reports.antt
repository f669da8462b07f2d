-- ===== src/Registry/Reports.antt =====
-- What a report does to the registrations, and to what List answers.
use pomerium.Prelude.{
  ℤ, ltb_ℤ, ◌+ℤ◌, same, same→eq, ◌≡◌, refl, ap, ◌∙◌, Bool, true, false, ◌&&◌, List, [], ◌∷◌, Option,
  none, some, arith, any_of, inl, inr, Option-cases, Bool-cases, if◌then◌else◌,
}
use pomerium.GoMap
use pomerium.GoMap.{
  GoMap, lookup-insert, HasDistinctKeys, insert-HasDistinctKeys, lookup_lacking, Lacks,
}
use pomerium.Registry.{
  Service, InMemoryKey, key_order, key_of, Regs, InMemoryServer, Env, is_valid_request, rm_expired,
  is_present, insert_services, update_regs, report, list,
}
use pomerium.Registry.Listing.{is_key, wants, is_listed-list}

-- A registration, unless it expired before the time.
abbrev pub unexpired : ℤ → Option ℤ → Option ℤ
unexpired now none = none
unexpired now (some expires) = if ltb_ℤ expires now then none else some expires

lookup-insert_services :
    (expires : ℤ) (l : List Service) (regs : Regs) (b : Bool) (k : InMemoryKey)
    → GoMap.lookup key_order k (insert_services expires l regs b).0
      ≡ (if any_of (is_key k) l then some expires else GoMap.lookup key_order k regs)
unfolding insert_services
lookup-insert_services expires [] regs b k = refl
lookup-insert_services expires (svc ∷ l) regs b k =
    lookup-insert_services expires l (GoMap.insert key_order (key_of svc) expires regs) _ k
    ∙ ground (arith, lookup-insert key_order (key_of svc) k expires regs)

insert_services-HasDistinctKeys :
    (expires : ℤ) (l : List Service) (regs : Regs) (b : Bool)
    → HasDistinctKeys key_order regs
    → HasDistinctKeys key_order (insert_services expires l regs b).0
unfolding insert_services
insert_services-HasDistinctKeys expires [] regs b h = h
insert_services-HasDistinctKeys expires (svc ∷ l) regs b h =
    insert_services-HasDistinctKeys expires l _ _
      (insert-HasDistinctKeys key_order (key_of svc) expires regs h)

rm_expired-Lacks :
    (now : ℤ) (k : InMemoryKey) (regs : Regs)
    → Lacks key_order k regs
    → Lacks key_order k (rm_expired now regs).0
unfolding rm_expired
rm_expired-Lacks now k [] h = tt
rm_expired-Lacks now k ((j, e) ∷ regs) h = ground (arith, rm_expired-Lacks now k regs h.1)

pub rm_expired-HasDistinctKeys :
    (now : ℤ) (regs : Regs)
    → HasDistinctKeys key_order regs
    → HasDistinctKeys key_order (rm_expired now regs).0
unfolding rm_expired
rm_expired-HasDistinctKeys now [] h = tt
rm_expired-HasDistinctKeys now ((j, e) ∷ regs) h =
    ground (arith, rm_expired-HasDistinctKeys now regs h.1, rm_expired-Lacks now j regs h.0)

pub lookup-rm_expired :
    (now : ℤ) (regs : Regs) (k : InMemoryKey)
    → HasDistinctKeys key_order regs
    → GoMap.lookup key_order k (rm_expired now regs).0
      ≡ unexpired now (GoMap.lookup key_order k regs)
unfolding rm_expired GoMap.lookup
lookup-rm_expired now [] k h = refl
lookup-rm_expired now ((j, e) ∷ regs) k h = elim (Bool-cases (same key_order k j)) [
  | inl q ↦ elim (Bool-cases (ltb_ℤ e now)) [
    | inl c ↦
        rw (c, q, c)
          (rw (same→eq key_order k j q)
            (lookup_lacking key_order j (rm_expired now regs).0 (rm_expired-Lacks now j regs h.0)))
    | inr c ↦ rw (c, q, c) refl
  ]
  | inr q ↦ elim (Bool-cases (ltb_ℤ e now)) [
    | inl c ↦ rw (c, q) (lookup-rm_expired now regs k h.1)
    | inr c ↦ rw (c, q) (lookup-rm_expired now regs k h.1)
  ]
]

-- Where rmExpiredLocked reports that it removed nothing, it changed nothing.
pub rm_expired_quiet :
    (now : ℤ) (regs : Regs) → (rm_expired now regs).1 ≡ false → (rm_expired now regs).0 ≡ regs
unfolding rm_expired
rm_expired_quiet now [] h = refl
rm_expired_quiet now ((j, e) ∷ regs) h = ground (arith, rm_expired_quiet now regs)

-- After reportLocked with an expiration time and a later reading of the clock, a reported service
-- is registered until that time, every other one as before, and those that had expired are gone.
pub lookup-update_regs :
    (expires now : ℤ) (services : List Service) (regs : Regs) (k : InMemoryKey)
    → HasDistinctKeys key_order regs
    → GoMap.lookup key_order k (update_regs expires now services regs).0
      ≡ unexpired now
          (if any_of (is_key k) services then some expires else GoMap.lookup key_order k regs)
unfolding update_regs
lookup-update_regs expires now services regs k h =
    lookup-rm_expired now (insert_services expires services regs false).0 k
      (insert_services-HasDistinctKeys expires services regs false h)
    ∙ ap (unexpired now) (lookup-insert_services expires services regs false k)

-- A flag that is up stays up.
insert_services_up :
    (expires : ℤ) (l : List Service) (regs : Regs) → (insert_services expires l regs true).1 ≡ true
unfolding insert_services
insert_services_up expires [] regs = refl
insert_services_up expires (svc ∷ l) regs = ground (
  arith,
  insert_services_up expires l (GoMap.insert key_order (key_of svc) expires regs),
  Option-cases (GoMap.lookup key_order (key_of svc) regs),
)

insert_services_quiet :
    (expires : ℤ) (l : List Service) (regs : Regs) (k : InMemoryKey)
    → (insert_services expires l regs false).1 ≡ false
    → is_present (GoMap.lookup key_order k (insert_services expires l regs false).0)
      ≡ is_present (GoMap.lookup key_order k regs)
unfolding insert_services
insert_services_quiet expires [] regs k h = refl
insert_services_quiet expires (svc ∷ l) regs k h =
    elim (Option-cases (GoMap.lookup key_order (key_of svc) regs)) [
      | inl e ↦ absurd (
          ground (
            arith,
            e,
            h,
            insert_services_up expires l (GoMap.insert key_order (key_of svc) expires regs),
          ))
      | inr (x, e) ↦ ground (
        arith,
        e,
        h,
        insert_services_quiet expires l (GoMap.insert key_order (key_of svc) expires regs) k,
        lookup-insert key_order (key_of svc) k expires regs,
        same→eq key_order k (key_of svc),
      )
    ]

pub update_regs_quiet :
    (expires now : ℤ) (services : List Service) (regs : Regs) (k : InMemoryKey)
    → (update_regs expires now services regs).1 ≡ false
    → is_present (GoMap.lookup key_order k (update_regs expires now services regs).0)
      ≡ is_present (GoMap.lookup key_order k regs)
unfolding update_regs
update_regs_quiet expires now services regs k h =
    let regs' = (insert_services expires services regs false).0 in
    ground (arith, h, rm_expired_quiet now regs', insert_services_quiet expires services regs k)

pub report-HasDistinctKeys :
    (srv : InMemoryServer) (env : Env) (now later : ℤ) (services : List Service)
    → HasDistinctKeys key_order srv.regs
    → HasDistinctKeys key_order (report srv env now later services).1.regs
unfolding report update_regs
report-HasDistinctKeys srv env now later services h =
    elim (Bool-cases (is_valid_request env services)) [
      | inr v ↦ rw v h
      | inl v ↦ elim (Option-cases (env.timestamp_proto (now +ℤ srv.ttl))) [
        | inl t ↦ rw (v, t) h
        | inr (expires, t) ↦
            rw (v, t)
              (rm_expired-HasDistinctKeys later (insert_services expires services srv.regs false).0
                (insert_services-HasDistinctKeys expires services srv.regs false h))
      ]
    ]

-- After a valid report with an expiration time that a timestamp can hold, on registrations under
-- distinct keys, List names a service exactly if its kind is wanted and it was reported, with that
-- time not passed by the end of the call, or was registered before and not reported, with its own
-- time not passed by then.
pub is_listed-report :
    (srv : InMemoryServer) (env : Env) (now later expires : ℤ) (services : List Service)
    (kinds : List ℤ) (k : InMemoryKey)
    → HasDistinctKeys key_order srv.regs
    → is_valid_request env services ≡ true
    → env.timestamp_proto (now +ℤ srv.ttl) ≡ some expires
    → any_of (is_key k) (list (report srv env now later services).1 kinds) ≡ (
        wants kinds k.0
        && is_present (
            unexpired later (
              if any_of (is_key k) services
              then some expires
              else GoMap.lookup key_order k srv.regs)))
unfolding report
is_listed-report srv env now later expires services kinds k h v t =
    is_listed-list (report srv env now later services).1 kinds k
    ∙ rw (v, t)
        (ap (λ o. wants kinds k.0 && is_present o)
          (lookup-update_regs expires later services srv.regs k h))
