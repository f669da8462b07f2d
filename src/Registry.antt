-- ===== src/Registry.antt =====
-- internal/registry/inmemory.go: the registry of the services that run, each with the time at which
-- its registration expires. Each method holds the server's lock where it reads or changes the map;
-- the readings of the clock are arguments. Validate is from registry.pb.validate.go.
pub mod Listing
pub mod Reports
pub mod Watchers
use pomerium.Prelude.{
  ℕ, ◌/◌, ℤ, pos, negsuc, sub_ℕ, ◌+◌, ◌+ℤ◌, ltb_ℤ, Bytes, bytes_order, Order, pair_order,
  time_order, same, Bool, true, false, ◌||◌, List, [], ◌∷◌, Option, none, some, if◌then◌else◌,
}
use pomerium.GoMap
use pomerium.GoMap.{GoMap}
use pomerium.Signal
use pomerium.Signal.{Signal}
use pomerium.Storage.{Result, ok, err}

-- Kind and Endpoint of a message Service; a ServiceKind is a number, of which 0 is undefined.
pub record Service : Type 0 where
  pub kind : ℤ
  pub endpoint : Bytes

abbrev pub InMemoryKey : Type 0
InMemoryKey = ℤ × Bytes

abbrev pub key_order : Order InMemoryKey
key_order = pair_order time_order bytes_order

abbrev pub key_of : Service → InMemoryKey
key_of svc = (svc.kind, svc.endpoint)

abbrev pub Regs : Type 0
Regs = GoMap InMemoryKey ℤ

pub record InMemoryServer : Type 0 where
  pub ttl : ℤ
  pub onchange : Signal
  pub regs : Regs

-- url.Parse with IsAbs of what it gives, and ptypes.TimestampProto; both may fail.
pub record Env : Type 0 where
  pub is_abs : Bytes → Option Bool
  pub timestamp_proto : ℤ → Option ℤ

pub data RegistryError : Type 0 where
  invalid_argument internal bad_timestamp : RegistryError

-- NewInMemoryServer
unfoldable pub new_in_memory_server : ℤ → InMemoryServer
new_in_memory_server ttl = record { ttl = ttl; onchange = Signal.new; regs = [] }

-- (*Service).Validate
unfoldable pub is_valid_service : Env → Service → Bool
is_valid_service env svc =
    if same time_order svc.kind (pos 0)
    then false
    else elim (env.is_abs svc.endpoint) [ none ↦ false | some abs ↦ abs ]

-- The loop of (*RegisterRequest).Validate.
unfoldable pub are_valid_services : Env → List Service → Bool
are_valid_services env [] = true
are_valid_services env (svc ∷ l) =
    let others = are_valid_services env l in if is_valid_service env svc then others else false

-- (*RegisterRequest).Validate
unfoldable pub is_valid_request : Env → List Service → Bool
is_valid_request env [] = false
is_valid_request env (svc ∷ l) = are_valid_services env (svc ∷ l)

-- rmExpiredLocked
unfoldable pub rm_expired : ℤ → Regs → Regs × Bool
rm_expired now [] = ([], false)
rm_expired now ((k, expires) ∷ regs) =
    let (rest, removed) = rm_expired now regs in
    if ltb_ℤ expires now then (rest, true) else ((k, expires) ∷ rest, removed)

abbrev pub is_present : Option ℤ → Bool
is_present none = false
is_present (some expires) = true

-- The loop of reportLocked, with `inserted` so far.
unfoldable pub insert_services : ℤ → List Service → Regs → Bool → Regs × Bool
insert_services expires [] regs inserted = (regs, inserted)
insert_services expires (svc ∷ l) regs inserted =
    insert_services expires l (GoMap.insert key_order (key_of svc) expires regs)
      (if is_present (GoMap.lookup key_order (key_of svc) regs) then inserted else true)

-- The rest of reportLocked, from the loop on.
unfoldable pub update_regs : ℤ → ℤ → List Service → Regs → Regs × Bool
unfolding insert_services rm_expired
update_regs expires now services regs =
    let (reported, inserted) = insert_services expires services regs false in
    let (kept, removed) = rm_expired now reported in (kept, inserted || removed)

-- time.Duration / callAfterTTLFactor, which truncates
abbrev pub half : ℤ → ℤ
half (pos n) = pos (n / 2)
half (negsuc n) = sub_ℕ 0 ((n + 1) / 2)

-- Report, with CallBackAfter of its response. `now` is the time that reportLocked reads, and
-- `later` the one that rmExpiredLocked reads.
unfoldable pub report :
    InMemoryServer → Env → ℤ → ℤ → List Service → Result RegistryError ℤ × InMemoryServer
unfolding update_regs
report srv env now later services =
    if is_valid_request env services
    then elim (env.timestamp_proto (now +ℤ srv.ttl)) [
      | none ↦ (err bad_timestamp, srv)
      | some expires ↦
          let (regs, updated) = update_regs expires later services srv.regs in
          (
            ok (half srv.ttl),
            record srv {
              regs = regs;
              onchange = if updated then Signal.broadcast srv.onchange else srv.onchange;
            },
          )
    ]
    else (err invalid_argument, srv)

-- A round of periodicCheck.
unfoldable pub purge : InMemoryServer → ℤ → InMemoryServer
unfolding rm_expired
purge srv now =
    let (regs, removed) = rm_expired now srv.regs in
    record srv {
      regs = regs;
      onchange = if removed then Signal.broadcast srv.onchange else srv.onchange;
    }

-- The loop of kindsMap.
unfoldable pub add_kinds : List ℤ → GoMap ℤ Bool → GoMap ℤ Bool
add_kinds [] out = out
add_kinds (k ∷ kinds) out = add_kinds kinds (GoMap.insert time_order k true out)

unfoldable pub kinds_map : List ℤ → GoMap ℤ Bool
unfolding add_kinds
kinds_map kinds = add_kinds kinds []

abbrev pub has_kind : GoMap ℤ Bool → ℤ → Bool
has_kind [] kind = true
has_kind (k ∷ kinds) kind = elim (GoMap.lookup time_order kind (k ∷ kinds)) [
  | none ↦ false
  | some b ↦ true
]

-- getServicesLocked
unfoldable pub get_services : Regs → GoMap ℤ Bool → List Service
get_services [] kinds = []
get_services ((k, expires) ∷ regs) kinds =
    let out = get_services regs kinds in
    if has_kind kinds k.0 then (record { kind = k.0; endpoint = k.1 }) ∷ out else out

-- List; ListRequest.Validate accepts every request.
unfoldable pub list : InMemoryServer → List ℤ → List Service
unfolding get_services kinds_map
list srv kinds = get_services srv.regs (kinds_map kinds)

-- What ends a wait of Watch: the end of its context, or a change, with the server by then and
-- whether the following Send succeeds.
pub data WatchEvent : Type 0 where
  ctx_done : WatchEvent
  updates : InMemoryServer → Bool → WatchEvent

-- The loop of Watch: the snapshots that it sends, and its error, or none while it waits.
unfoldable pub watch_loop : List ℤ → List WatchEvent → List (List Service) × Option RegistryError
unfolding list
watch_loop kinds [] = ([], none)
watch_loop kinds (ctx_done ∷ events) = ([], some internal)
watch_loop kinds (updates srv sent ∷ events) =
    let (snapshots, error) = watch_loop kinds events in
    if sent then (list srv kinds ∷ snapshots, error) else (list srv kinds ∷ [], some internal)

-- How Watch starts: its channel, and the server with the channel bound.
unfoldable pub watch_start : InMemoryServer → ℕ × InMemoryServer
watch_start srv =
    let (ch, onchange) = Signal.bind srv.onchange in (ch, record srv { onchange = onchange })

-- The deferred Unbind of Watch.
unfoldable pub watch_end : InMemoryServer → ℕ → InMemoryServer
watch_end srv ch = record srv { onchange = Signal.unbind srv.onchange ch }

-- What Watch sends, given whether the first Send succeeds and what ends each wait.
unfoldable pub watch :
    InMemoryServer → List ℤ → Bool → List WatchEvent → List (List Service) × Option RegistryError
unfolding watch_loop list
watch srv kinds sent events =
    let first = list srv kinds in
    let (snapshots, error) = watch_loop kinds events in
    if sent then (first ∷ snapshots, error) else (first ∷ [], some internal)
