-- ===== src/Tests/Registry.antt =====
-- The service registry.
use pomerium.Prelude.{
  ◌&&◌, if◌then◌else◌, Bool, pos, ◌≡◌, refl, true, false, [], ◌∷◌, some, any_of, bytes_lt, ◌+ℤ◌,
}
use pomerium.Strings.{codes}
use pomerium.GoMap
use pomerium.Signal
use pomerium.Registry.{
  Service, InMemoryServer, Env, new_in_memory_server, report, purge, list, watch_start, key_of,
  is_valid_request, are_valid_services, is_valid_service, update_regs, insert_services, rm_expired,
  get_services, kinds_map, add_kinds, is_present, key_order,
}
use pomerium.Registry.Listing.{is_key, wants}
use pomerium.Registry.Reports.{is_listed-report, unexpired}
use pomerium.Registry.Watchers.{full-report}

abbrev env : Env
env = record { is_abs = λ endpoint. some true; timestamp_proto = λ t. some t }

abbrev service : Service
service = record { kind = pos 2; endpoint = codes "http://a" }

abbrev watched : InMemoryServer
watched = (watch_start (new_in_memory_server (pos 10))).1

abbrev reported : InMemoryServer
reported = (report watched env (pos 5) (pos 6) (service ∷ [])).1

is_listed-report_example :
    any_of
      (is_key (key_of service))
      (list (report watched env (pos 5) (pos 6) (service ∷ [])).1 (pos 2 ∷ []))
    ≡ (wants (pos 2 ∷ []) (key_of service).0
        && is_present (
            unexpired (pos 6) (
              if any_of (is_key (key_of service)) (service ∷ [])
              then some (pos 15)
              else GoMap.lookup key_order (key_of service) watched.regs)))
unfolding bytes_lt ◌+ℤ◌ is_valid_request are_valid_services is_valid_service new_in_memory_server
    watch_start
is_listed-report_example =
    is_listed-report watched env (pos 5) (pos 6) (pos 15) (service ∷ []) (pos 2 ∷ [])
      (key_of service) tt refl refl

abbrev is_named : InMemoryServer → Bool
is_named srv = any_of (is_key (key_of service)) (list srv (pos 2 ∷ []))

named_before : is_named watched ≡ false
unfolding Signal.new Signal.bind Signal.broadcast watch_start new_in_memory_server report
    is_valid_request are_valid_services is_valid_service GoMap.lookup GoMap.insert list bytes_lt
    ◌+ℤ◌ update_regs insert_services rm_expired purge get_services kinds_map add_kinds
named_before = refl

named_after : is_named reported ≡ true
unfolding Signal.new Signal.bind Signal.broadcast watch_start new_in_memory_server report
    is_valid_request are_valid_services is_valid_service GoMap.lookup GoMap.insert list bytes_lt
    ◌+ℤ◌ update_regs insert_services rm_expired purge get_services kinds_map add_kinds
named_after = refl

named_late : is_named (purge reported (pos 20)) ≡ false
unfolding Signal.new Signal.bind Signal.broadcast watch_start new_in_memory_server report
    is_valid_request are_valid_services is_valid_service GoMap.lookup GoMap.insert list bytes_lt
    ◌+ℤ◌ update_regs insert_services rm_expired purge get_services kinds_map add_kinds
named_late = refl

full-report_example : reported.onchange.full 0 ≡ true
unfolding Signal.new Signal.bind Signal.broadcast watch_start new_in_memory_server report
    is_valid_request are_valid_services is_valid_service GoMap.lookup GoMap.insert list bytes_lt
    ◌+ℤ◌ update_regs insert_services rm_expired purge get_services kinds_map add_kinds
full-report_example =
    full-report watched env (pos 5) (pos 6) (service ∷ []) (pos 2 ∷ []) (key_of service) 0 refl
      (λ e. cc (named_before, e))
