-- ===== src/ControlPlane/Xds.antt =====
-- internal/controlplane/xdsmgr/xdsmgr.go: the incremental xDS server. A stream's goroutines hand
-- messages over in order, so a stream is a run over what its middle goroutine takes in: requests
-- and wake-ups. The manager's lock is taken to handle a request and again for each response, so each
-- of these steps has the manager as it is by then.
pub mod Versions
pub mod Updates
pub mod Subscriptions
use pomerium.Prelude.{
  ℕ, Bytes, bytes_order, Bool, true, false, ◌&&◌, not, List, [], ◌∷◌, ◌++◌, map, Option, none, some,
  keep_if, if◌then◌else◌,
}
use pomerium.GoMap
use pomerium.GoMap.{GoMap}
use pomerium.Signal
use pomerium.Signal.{Signal}
use pomerium.Storage.{Any}
use pomerium.Strings.{bytes_eq}

-- Name, Version and Resource of a message Resource
pub record Resource : Type 0 where
  pub name : Bytes
  pub version : Bytes
  pub body : Any

pub record StreamState : Type 0 where
  pub type_url : Bytes
  pub client_resource_versions : GoMap Bytes Bytes
  pub unsubscribed_resources : GoMap Bytes (Unit {0})

pub record Manager : Type 0 where
  pub signal : Signal
  pub nonce : Bytes
  pub resources : GoMap Bytes (List Resource)

-- A DeltaDiscoveryRequest; `is_error` is whether it has an ErrorDetail.
pub record DeltaRequest : Type 0 where
  pub type_url : Bytes
  pub initial_resource_versions : GoMap Bytes Bytes
  pub response_nonce : Bytes
  pub is_error : Bool
  pub resource_names_subscribe : List Bytes
  pub resource_names_unsubscribe : List Bytes

pub record DeltaResponse : Type 0 where
  pub type_url : Bytes
  pub nonce : Bytes
  pub resources : List Resource
  pub removed_resources : List Bytes

-- stateByTypeURL
abbrev pub States : Type 0
States = GoMap Bytes StreamState

-- NewManager, with the nonce that uuid.New gives
unfoldable pub new_manager : Bytes → GoMap Bytes (List Resource) → Manager
new_manager nonce resources = record { signal = Signal.new; nonce = nonce; resources = resources }

-- mgr.resources[typeURL]
abbrev pub or_nil : Option (List Resource) → List Resource
or_nil none = []
or_nil (some l) = l

abbrev pub resources_of : Manager → Bytes → List Resource
resources_of mgr type_url = or_nil (GoMap.lookup bytes_order type_url mgr.resources)

-- m[name] of a map of strings
abbrev pub or_empty : Option Bytes → Bytes
or_empty none = []
or_empty (some v) = v

abbrev pub is_changed : GoMap Bytes Bytes → Resource → Bool
is_changed versions r =
    not (bytes_eq r.version (or_empty (GoMap.lookup bytes_order r.name versions)))

-- `seen` after the loop over the resources
unfoldable pub add_seen : List Resource → GoMap Bytes (Unit {0}) → GoMap Bytes (Unit {0})
add_seen [] seen = seen
add_seen (r ∷ l) seen = add_seen l (GoMap.insert bytes_order r.name tt seen)

abbrev pub is_absent : Option (Unit {0}) → Bool
is_absent none = true
is_absent (some x) = false

-- The names of the client's resources that were not seen.
unfoldable pub removed_names : GoMap Bytes (Unit {0}) → GoMap Bytes Bytes → List Bytes
removed_names seen [] = []
removed_names seen ((name, v) ∷ versions) =
    let others = removed_names seen versions in
    if is_absent (GoMap.lookup bytes_order name seen) then name ∷ others else others

-- The response, or nil if it would be empty.
abbrev pub unless_empty : DeltaResponse → List Resource → List Bytes → Option DeltaResponse
unless_empty res [] [] = none
unless_empty res [] (n ∷ removed) = some res
unless_empty res (r ∷ changed) removed = some res

-- getDeltaResponse for a type that has a state
unfoldable pub response_for : Manager → StreamState → Bytes → Option DeltaResponse
unfolding add_seen removed_names
response_for mgr state type_url =
    let changed = keep_if (is_changed state.client_resource_versions) (resources_of mgr type_url) in
    let seen = add_seen (resources_of mgr type_url) [] in
    let removed = removed_names seen state.client_resource_versions in
    unless_empty
      (record {
        type_url = type_url;
        nonce = mgr.nonce;
        resources = changed;
        removed_resources = removed;
      })
      changed removed

unfoldable pub get_delta_response : Manager → States → Bytes → Option DeltaResponse
unfolding response_for
get_delta_response mgr states type_url = elim (GoMap.lookup bytes_order type_url states) [
  | none ↦ none
  | some state ↦ response_for mgr state type_url
]

-- The versions of the resources, by name: what an ACK makes the client's versions.
unfoldable pub add_versions : List Resource → GoMap Bytes Bytes → GoMap Bytes Bytes
add_versions [] versions = versions
add_versions (r ∷ l) versions = add_versions l (GoMap.insert bytes_order r.name r.version versions)

-- The state for the request's type, made by the first request of that type.
abbrev pub state_for : States → DeltaRequest → StreamState
state_for states req = elim (GoMap.lookup bytes_order req.type_url states) [
  | some state ↦ state
  | none ↦ record {
    type_url = req.type_url;
    client_resource_versions = req.initial_resource_versions;
    unsubscribed_resources = [];
  }
]

-- The switch on the request's nonce: an ACK for the last response takes its versions over.
unfoldable pub acknowledge : Manager → DeltaRequest → StreamState → StreamState
unfolding add_versions
acknowledge mgr req state =
    if bytes_eq req.response_nonce []
    then state
    else if req.is_error
    then state
    else if bytes_eq req.response_nonce mgr.nonce
    then record state { client_resource_versions = add_versions (resources_of mgr req.type_url) [] }
    else state

unfoldable pub subscribe : List Bytes → StreamState → StreamState
subscribe [] state = state
subscribe (name ∷ names) state = subscribe names (record state {
  unsubscribed_resources = GoMap.delete bytes_order name state.unsubscribed_resources;
})

unfoldable pub unsubscribe : List Bytes → StreamState → StreamState
unsubscribe [] state = state
unsubscribe (name ∷ names) state = unsubscribe names (record state {
  unsubscribed_resources = GoMap.insert bytes_order name tt state.unsubscribed_resources;
  client_resource_versions = GoMap.delete bytes_order name state.client_resource_versions;
})

-- handleDeltaRequest on the state for the request's type
unfoldable pub handle : Manager → DeltaRequest → StreamState → StreamState
unfolding acknowledge subscribe unsubscribe
handle mgr req state =
    unsubscribe req.resource_names_unsubscribe
      (subscribe req.resource_names_subscribe (acknowledge mgr req state))

unfoldable pub handle_delta_request : Manager → States → DeltaRequest → States
unfolding handle
handle_delta_request mgr states req =
    GoMap.insert bytes_order req.type_url (handle mgr req (state_for states req)) states

-- What the second goroutine of a stream takes in.
pub data Event : Type 0 where
  incoming : DeltaRequest → Event
  changed : Event

-- The loop over the type URLs of one round; `later` is the manager when it comes to each.
unfoldable pub responses : (Bytes → Manager) → States → List Bytes → List DeltaResponse
unfolding get_delta_response
responses later states [] = []
responses later states (url ∷ urls) =
    let others = responses later states urls in
    elim (get_delta_response (later url) states url) [ none ↦ others | some res ↦ res ∷ others ]

-- One round of the second goroutine.
unfoldable pub round : Manager → (Bytes → Manager) → States → Event → States × List DeltaResponse
unfolding responses handle_delta_request
round mgr later states (incoming req) =
    let states' = handle_delta_request mgr states req in
    (states', responses later states' (req.type_url ∷ []))
round mgr later states changed = (states, responses later states (map (λ e. e.0) mgr.resources))

-- DeltaAggregatedResources over what it takes in: the responses that it sends.
unfoldable pub delta_aggregated_resources :
    States → List (Manager × (Bytes → Manager) × Event) → States × List DeltaResponse
unfolding round
delta_aggregated_resources states [] = (states, [])
delta_aggregated_resources states ((mgr, later, event) ∷ events) =
    let (states', sent) = round mgr later states event in
    let (last, more) = delta_aggregated_resources states' events in (last, sent ++ more)

-- The start and the end of DeltaAggregatedResources.
unfoldable pub connect : Manager → ℕ × Manager
connect mgr = let (ch, signal) = Signal.bind mgr.signal in (ch, record mgr { signal = signal })

unfoldable pub disconnect : Manager → ℕ → Manager
disconnect mgr ch = record mgr { signal = Signal.unbind mgr.signal ch }

-- Update, with the nonce that uuid.New gives
unfoldable pub update : Manager → Bytes → GoMap Bytes (List Resource) → Manager
update mgr nonce resources = record {
  signal = Signal.broadcast mgr.signal;
  nonce = nonce;
  resources = resources;
}
