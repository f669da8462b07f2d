-- ===== src/Registry/Listing.antt =====
-- What List answers: the services that are registered and of a wanted kind.
use pomerium.Prelude.{
  ℤ, same, same_refl, same→eq, time_order, ◌≡◌, refl, ap, ◌∙◌, Bool, true, false, ◌&&◌, List, [],
  ◌∷◌, none, some, arith, any_of, inl, inr, Bool-cases, if◌then◌else◌,
}
use pomerium.GoMap
use pomerium.GoMap.{
  GoMap, lookup-insert, HasDistinctKeys, insert-HasDistinctKeys, lookup_lacking, Lacks,
}
use pomerium.Registry.{
  Service, InMemoryKey, key_order, key_of, Regs, InMemoryServer, is_present, get_services,
  kinds_map, add_kinds, has_kind, list,
}

abbrev pub is_key : InMemoryKey → Service → Bool
is_key k svc = same key_order k (key_of svc)

-- A wanted kind: any, if none is listed.
abbrev pub wants : List ℤ → ℤ → Bool
wants [] kind = true
wants (k ∷ kinds) kind = any_of (same time_order kind) (k ∷ kinds)

present-add_kinds :
    (kinds : List ℤ) (out : GoMap ℤ Bool) (kind : ℤ)
    → GoMap.lookup time_order kind (add_kinds kinds out) ≡ (
        if any_of (same time_order kind) kinds then some true else GoMap.lookup time_order kind out)
unfolding add_kinds
present-add_kinds [] out kind = refl
present-add_kinds (k ∷ kinds) out kind =
    present-add_kinds kinds (GoMap.insert time_order k true out) kind
    ∙ ground (arith, lookup-insert time_order k kind true out)

has_kind-lookup :
    (m : GoMap ℤ Bool) (k kind : ℤ) (b : Bool)
    → GoMap.lookup time_order k m ≡ some b
    → has_kind m kind ≡ elim (GoMap.lookup time_order kind m) [ none ↦ false | some c ↦ true ]
unfolding GoMap.lookup
has_kind-lookup [] k kind b h = cc
has_kind-lookup (e ∷ m) k kind b h = refl

pub has_kind-kinds_map :
    (kinds : List ℤ) (kind : ℤ) → has_kind (kinds_map kinds) kind ≡ wants kinds kind
unfolding kinds_map add_kinds GoMap.lookup
has_kind-kinds_map [] kind = refl
has_kind-kinds_map (k ∷ kinds) kind =
    has_kind-lookup (add_kinds (k ∷ kinds) []) k kind true
      (present-add_kinds (k ∷ kinds) [] k ∙ ground (arith, same_refl time_order k))
    ∙ ground (arith, present-add_kinds (k ∷ kinds) [] kind)

is_listed-get_services :
    (regs : Regs) (m : GoMap ℤ Bool) (k : InMemoryKey)
    → any_of (is_key k) (get_services regs m)
      ≡ (has_kind m k.0 && is_present (GoMap.lookup key_order k regs))
unfolding get_services GoMap.lookup
is_listed-get_services [] m k = ground (arith, Bool-cases (has_kind m k.0))
is_listed-get_services ((j, e) ∷ regs) m k = elim (Bool-cases (same key_order k j)) [
  | inl q ↦ elim (Bool-cases (has_kind m j.0)) [
    | inl w ↦ rw (w, q) (rw (same→eq key_order k j q) (rw w refl))
    | inr w ↦ rw (w, q) (is_listed-get_services regs m k ∙ rw (same→eq key_order k j q) (rw w refl))
  ]
  | inr q ↦ elim (Bool-cases (has_kind m j.0)) [
    | inl w ↦ rw (w, q) (is_listed-get_services regs m k)
    | inr w ↦ rw (w, q) (is_listed-get_services regs m k)
  ]
]

-- List names a service exactly if it is registered and its kind is wanted.
pub is_listed-list :
    (srv : InMemoryServer) (kinds : List ℤ) (k : InMemoryKey)
    → any_of (is_key k) (list srv kinds)
      ≡ (wants kinds k.0 && is_present (GoMap.lookup key_order k srv.regs))
unfolding list
is_listed-list srv kinds k =
    is_listed-get_services srv.regs (kinds_map kinds) k
    ∙ ap (λ b. b && is_present (GoMap.lookup key_order k srv.regs)) (has_kind-kinds_map kinds k.0)
