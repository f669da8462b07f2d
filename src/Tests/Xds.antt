-- ===== src/Tests/Xds.antt =====
-- The xDS manager.
use pomerium.Prelude.{Bytes, ◌≡◌, refl, [], ◌∷◌, none, some, bytes_lt, bytes_order, false}
use pomerium.Strings.{codes, bytes_eq}
use pomerium.GoMap
use pomerium.Signal
use pomerium.ControlPlane.Xds.{
  Resource, StreamState, Manager, DeltaResponse, States, get_delta_response, response_for, add_seen,
  removed_names, handle_delta_request, resources_of, DeltaRequest,
}
use pomerium.ControlPlane.Xds.Versions.{IsComplete, find}
use pomerium.ControlPlane.Xds.Updates.{
  IsCurrent, IsCurrent-silence, IsCurrent-ack, apply_response, ack_of,
}
use pomerium.ControlPlane.Xds.Subscriptions.{find-unsubscribe}

abbrev url : Bytes
url = codes "cds"

abbrev cluster : Resource
cluster = record {
  name = codes "c";
  version = codes "1";
  body = record { type_url = url; value = [] };
}

abbrev manager : Manager
manager = record { signal = Signal.new; nonce = codes "n"; resources = (url, cluster ∷ []) ∷ [] }

-- A stream that has seen a request of a client with the given version.
abbrev stream_with : Bytes → StreamState
stream_with version = record {
  type_url = url;
  client_resource_versions = (codes "c", version) ∷ [];
  unsubscribed_resources = [];
}

abbrev states_with : Bytes → States
states_with version = (url, stream_with version) ∷ []

manager_resources : resources_of manager url ≡ cluster ∷ []
unfolding GoMap.lookup bytes_lt
manager_resources = refl

manager-IsComplete : IsComplete (resources_of manager url)
manager-IsComplete = rw manager_resources (tt, (λ e. cc (e)), tt)

abbrev update_of_cluster : DeltaResponse
update_of_cluster = record {
  type_url = url;
  nonce = codes "n";
  resources = cluster ∷ [];
  removed_resources = [];
}

in_states : (v : Bytes) → GoMap.lookup bytes_order url (states_with v) ≡ some (stream_with v)
unfolding GoMap.lookup bytes_lt
in_states v = refl

nothing_sent : get_delta_response manager (states_with (codes "1")) url ≡ none
unfolding GoMap.lookup GoMap.insert GoMap.delete bytes_lt bytes_eq get_delta_response response_for
    add_seen removed_names
nothing_sent = refl

cluster_sent : get_delta_response manager (states_with (codes "0")) url ≡ some update_of_cluster
unfolding GoMap.lookup GoMap.insert GoMap.delete bytes_lt bytes_eq get_delta_response response_for
    add_seen removed_names
cluster_sent = refl

cluster_found : find (codes "c") (resources_of manager url) ≡ some (codes "1")
unfolding find GoMap.lookup bytes_lt
cluster_found = refl

IsCurrent-silence_example :
    IsCurrent (stream_with (codes "1")).client_resource_versions (resources_of manager url)
IsCurrent-silence_example =
    IsCurrent-silence manager (states_with (codes "1")) url (stream_with (codes "1"))
      manager-IsComplete (in_states (codes "1")) nothing_sent

IsCurrent-ack_example :
    IsCurrent
      (apply_response update_of_cluster (stream_with (codes "0")).client_resource_versions)
      (resources_of manager url)
    × (get_delta_response manager
          (handle_delta_request manager (states_with (codes "0")) (ack_of update_of_cluster))
          url
        ≡ none)
IsCurrent-ack_example =
    IsCurrent-ack manager (states_with (codes "0")) url (stream_with (codes "0")) update_of_cluster
      manager-IsComplete (λ e. cc (e)) (in_states (codes "0")) cluster_sent

-- A client that acknowledges the cluster, subscribes to another and drops both.
abbrev dropping : DeltaRequest
dropping = record {
  type_url = url;
  initial_resource_versions = [];
  response_nonce = codes "n";
  is_error = false;
  resource_names_subscribe = codes "d" ∷ [];
  resource_names_unsubscribe = codes "d" ∷ codes "c" ∷ [];
}

find-unsubscribe_example :
    (res : DeltaResponse) × (get_delta_response manager
        (handle_delta_request manager (states_with (codes "1")) dropping)
        url
      ≡ some res)
    × (find (codes "c") res.resources ≡ some (codes "1"))
unfolding bytes_lt
find-unsubscribe_example =
    find-unsubscribe manager (states_with (codes "1")) dropping (codes "c") (codes "1")
      manager-IsComplete cluster_found refl
