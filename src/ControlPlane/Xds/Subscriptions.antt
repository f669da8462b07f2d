-- ===== src/ControlPlane/Xds/Subscriptions.antt =====
-- What subscribing to a resource and unsubscribing from it change in what a stream sends.
use pomerium.Prelude.{
  keep_if, Bytes, bytes_order, same, same_refl, true, any_of, Bool-cases, inl, inr, arith, ◌≡◌,
  refl, sym, ap, ◌∙◌, false, List, [], ◌∷◌, none, some,
}
use pomerium.GoMap
use pomerium.GoMap.{GoMap, lookup-insert, lookup-delete}
use pomerium.ControlPlane.Xds.{
  Resource, StreamState, Manager, is_changed, add_seen, removed_names, unless_empty, DeltaRequest,
  DeltaResponse, States, resources_of, response_for, get_delta_response, acknowledge, handle,
  subscribe, unsubscribe, handle_delta_request, state_for,
}
use pomerium.Strings.{bytes_eq}
use pomerium.ControlPlane.Xds.Versions.{IsComplete, find, find-changed, find-nonempty}
use pomerium.ControlPlane.Xds.Updates.{not_empty, get_delta_response-some}

-- A request that only changes subscriptions.
abbrev pub resubscribe : Bytes → List Bytes → List Bytes → DeltaRequest
resubscribe url names dropped = record {
  type_url = url;
  initial_resource_versions = [];
  response_nonce = [];
  is_error = false;
  resource_names_subscribe = names;
  resource_names_unsubscribe = dropped;
}

versions-subscribe :
    (names : List Bytes) (st : StreamState)
    → (subscribe names st).client_resource_versions ≡ st.client_resource_versions
unfolding subscribe
versions-subscribe [] st = refl
versions-subscribe (n ∷ names) st = versions-subscribe names _

response_for-versions :
    (mgr : Manager) (st st' : StreamState) (url : Bytes)
    → st'.client_resource_versions ≡ st.client_resource_versions
    → response_for mgr st' url ≡ response_for mgr st url
unfolding response_for
response_for-versions mgr st st' url e = rw e refl

-- The response after a request, by the state that the request leaves.
get_delta_response-handle :
    (mgr : Manager) (states : States) (req : DeltaRequest)
    → get_delta_response mgr (handle_delta_request mgr states req) req.type_url
      ≡ response_for mgr (handle mgr req (state_for states req)) req.type_url
unfolding handle_delta_request
get_delta_response-handle mgr states req =
    let st = handle mgr req (state_for states req) in
    get_delta_response-some mgr _ req.type_url st (
      lookup-insert bytes_order req.type_url req.type_url st states
      ∙ rw (same_refl bytes_order req.type_url) refl)

-- A request that subscribes to resources, whichever they are, is answered exactly as if it had not
-- been sent: with nothing, where the stream had nothing to send.
pub get_delta_response-resubscribe :
    (mgr : Manager) (states : States) (url : Bytes) (st : StreamState) (names : List Bytes)
    → GoMap.lookup bytes_order url states ≡ some st
    → get_delta_response mgr (handle_delta_request mgr states (resubscribe url names [])) url
      ≡ get_delta_response mgr states url
unfolding handle acknowledge unsubscribe bytes_eq
get_delta_response-resubscribe mgr states url st names here =
    let req = resubscribe url names [] in
    let before : state_for states req ≡ st = rw (here, state_for) refl in
    get_delta_response-handle mgr states req
    ∙ response_for-versions mgr st (handle mgr req (state_for states req)) url (
        versions-subscribe names (state_for states req)
        ∙ ap (λ (x : StreamState). x.client_resource_versions) before)
    ∙ sym (get_delta_response-some mgr states url st here)

nonempty_response :
    (res : DeltaResponse) (rs : List Resource) (ns : List Bytes) (n v : Bytes)
    → find n rs ≡ some v
    → unless_empty res rs ns ≡ some res
unfolding find
nonempty_response res [] ns n v e = cc
nonempty_response res (r ∷ rs) ns n v e = refl

-- A stream that lacks a resource's version sends the resource.
sends :
    (mgr : Manager) (st : StreamState) (url n v : Bytes)
    → IsComplete (resources_of mgr url)
    → find n (resources_of mgr url) ≡ some v
    → GoMap.lookup bytes_order n st.client_resource_versions ≡ none
    → (res : DeltaResponse) × (response_for mgr st url ≡ some res) × (find n res.resources ≡ some v)
unfolding response_for
sends mgr st url n v h e old =
    let l = resources_of mgr url in
    let m = st.client_resource_versions in
    let res : DeltaResponse = record {
      type_url = url;
      nonce = mgr.nonce;
      resources = keep_if (is_changed m) l;
      removed_resources = removed_names (add_seen l []) m;
    } in
    let found : find n (keep_if (is_changed m) l) ≡ some v =
      find-changed m l n h ∙ rw (old, e) (rw (not_empty v (find-nonempty l n v h e)) refl) in
    (res, nonempty_response res (keep_if (is_changed m) l) res.removed_resources n v found, found)

still_without :
    (names : List Bytes) (n : Bytes) (st : StreamState)
    → GoMap.lookup bytes_order n st.client_resource_versions ≡ none
    → GoMap.lookup bytes_order n (unsubscribe names st).client_resource_versions ≡ none
unfolding unsubscribe
still_without [] n st h = h
still_without (x ∷ names) n st h =
    still_without names n _
      (ground (arith, h, lookup-delete bytes_order x n st.client_resource_versions))

-- A name that is unsubscribed from has no version left.
lookup-unsubscribe :
    (names : List Bytes) (n : Bytes) (st : StreamState)
    → any_of (same bytes_order n) names ≡ true
    → GoMap.lookup bytes_order n (unsubscribe names st).client_resource_versions ≡ none
unfolding unsubscribe
lookup-unsubscribe [] n st h = absurd (ground (arith, h))
lookup-unsubscribe (x ∷ names) n st h = elim (Bool-cases (same bytes_order n x)) [
  | inl e ↦
      still_without names n _
        (ground (arith, e, lookup-delete bytes_order x n st.client_resource_versions))
  | inr e ↦ lookup-unsubscribe names n _ (ground (arith, e, h))
]

-- Where the manager's resources have distinct names and no empty versions: a request that unsubscribes
-- from a resource that the manager has, whatever else it acknowledges, rejects or subscribes to and
-- whatever was sent before, is answered with that resource.
pub find-unsubscribe :
    (mgr : Manager) (states : States) (req : DeltaRequest) (n v : Bytes)
    → IsComplete (resources_of mgr req.type_url)
    → find n (resources_of mgr req.type_url) ≡ some v
    → any_of (same bytes_order n) req.resource_names_unsubscribe ≡ true
    → (res : DeltaResponse) × (get_delta_response mgr
          (handle_delta_request mgr states req)
          req.type_url
        ≡ some res)
      × (find n res.resources ≡ some v)
unfolding handle
find-unsubscribe mgr states req n v h e dropped =
    let st = handle mgr req (state_for states req) in
    let sent = sends mgr st req.type_url n v h e (
      lookup-unsubscribe req.resource_names_unsubscribe n
        (subscribe req.resource_names_subscribe (acknowledge mgr req (state_for states req)))
        dropped) in
    (sent.0, get_delta_response-handle mgr states req ∙ sent.1, sent.2)
