-- ===== src/ControlPlane/Xds/Updates.antt =====
-- What a client has after it applies the responses of a stream.
use pomerium.Prelude.{
  Bytes, bytes_order, same, same_refl, ◌≡◌, ◌≢◌, refl, sym, ◌∙◌, subst, false, List, [], ◌∷◌,
  Option, none, some, arith, any_of, keep_if,
}
use pomerium.GoMap
use pomerium.GoMap.{GoMap, lookup-insert, lookup-delete}
use pomerium.Strings.{bytes_eq}
use pomerium.Strings.Splitting.{bytes_eq_refl}
use pomerium.ControlPlane.Xds.{
  Resource, StreamState, Manager, DeltaRequest, DeltaResponse, States, resources_of, or_empty,
  is_changed, add_seen, removed_names, unless_empty, response_for, get_delta_response, add_versions,
  acknowledge, handle, handle_delta_request, state_for, subscribe, unsubscribe,
}
use pomerium.ControlPlane.Xds.Versions.{
  IsComplete, drop_all, find, or_else, lookup-add_versions, absent-add_seen, is_removed, differing,
  find-changed, reached,
}

nothing_found : (l : List Resource) → ((n : Bytes) → find n l ≡ none) → l ≡ []
unfolding find
nothing_found [] h = refl
nothing_found (r ∷ l) h = absurd (ground (arith, h r.name, same_refl bytes_order r.name))

nothing_named :
    (names : List Bytes) → ((n : Bytes) → any_of (same bytes_order n) names ≡ false) → names ≡ []
nothing_named [] h = refl
nothing_named (k ∷ names) h = absurd (ground (arith, h k, same_refl bytes_order k))

-- The client's versions are those of the resources.
abbrev pub IsCurrent : GoMap Bytes Bytes → List Resource → Type 0
IsCurrent m l = (n : Bytes) → GoMap.lookup bytes_order n m ≡ find n l

none_changed :
    (l : List Resource) (m : GoMap Bytes Bytes)
    → IsComplete l
    → IsCurrent m l
    → keep_if (is_changed m) l ≡ []
none_changed l m h c =
    nothing_found (keep_if (is_changed m) l)
      (λ n. find-changed m l n h ∙ rw (c n) (same_as_old (find n l)))
  where
    same_as_old : (o : Option Bytes) → differing (or_empty o) o ≡ none
    same_as_old none = refl
    same_as_old (some v) = rw (bytes_eq_refl v) refl

none_removed :
    (l : List Resource) (m : GoMap Bytes Bytes)
    → IsCurrent m l
    → removed_names (add_seen l []) m ≡ []
none_removed l m c =
    nothing_named (removed_names (add_seen l []) m)
      (λ n. ground (arith, is_removed (add_seen l []) m n, absent-add_seen l [] n, c n))

-- A client whose versions are current is sent nothing.
pub silent :
    (mgr : Manager) (st : StreamState) (url : Bytes)
    → IsComplete (resources_of mgr url)
    → IsCurrent st.client_resource_versions (resources_of mgr url)
    → response_for mgr st url ≡ none
unfolding response_for
silent mgr st url h c =
    rw (none_changed (resources_of mgr url) st.client_resource_versions h c)
      (rw (none_removed (resources_of mgr url) st.client_resource_versions c) refl)

pub get_delta_response-some :
    (mgr : Manager) (states : States) (url : Bytes) (st : StreamState)
    → GoMap.lookup bytes_order url states ≡ some st
    → get_delta_response mgr states url ≡ response_for mgr st url
unfolding get_delta_response
get_delta_response-some mgr states url st here = rw (here, get_delta_response) refl

unless_empty-none :
    (res : DeltaResponse) (rs : List Resource) (ns : List Bytes)
    → unless_empty res rs ns ≡ none
    → (rs ≡ []) × (ns ≡ [])
unless_empty-none res [] [] e = (refl, refl)
unless_empty-none res [] (n ∷ ns) e = cc
unless_empty-none res (r ∷ rs) ns e = cc

unless_empty-some :
    (res res' : DeltaResponse) (rs : List Resource) (ns : List Bytes)
    → unless_empty res rs ns ≡ some res'
    → res ≡ res'
unless_empty-some res res' [] [] e = cc
unless_empty-some res res' [] (n ∷ ns) e = cc
unless_empty-some res res' (r ∷ rs) ns e = cc

-- Where a stream has nothing to send for a type of which it has had a request, the client's
-- versions, as the stream has them, are exactly those of the manager's resources of the type.
pub IsCurrent-silence :
    (mgr : Manager) (states : States) (url : Bytes) (st : StreamState)
    → IsComplete (resources_of mgr url)
    → GoMap.lookup bytes_order url states ≡ some st
    → get_delta_response mgr states url ≡ none
    → IsCurrent st.client_resource_versions (resources_of mgr url)
unfolding response_for drop_all add_versions
IsCurrent-silence mgr states url st h here quiet n =
    let l = resources_of mgr url in
    let m = st.client_resource_versions in
    let empty =
      unless_empty-none _ (keep_if (is_changed m) l) (removed_names (add_seen l []) m)
        (sym (get_delta_response-some mgr states url st here) ∙ quiet) in
    subst (λ ns. GoMap.lookup bytes_order n (drop_all ns m) ≡ find n l) empty.1
      (subst
        (λ rs.
          GoMap.lookup bytes_order n
            (drop_all (removed_names (add_seen l []) m) (add_versions rs m))
          ≡ find n l)
        empty.0 (reached l m n h))

-- What a client's versions become when it applies a response.
unfoldable pub apply_response : DeltaResponse → GoMap Bytes Bytes → GoMap Bytes Bytes
unfolding drop_all
apply_response res m = drop_all res.removed_resources (add_versions res.resources m)

-- The request that acknowledges a response.
abbrev pub ack_of : DeltaResponse → DeltaRequest
ack_of res = record {
  type_url = res.type_url;
  initial_resource_versions = [];
  response_nonce = res.nonce;
  is_error = false;
  resource_names_subscribe = [];
  resource_names_unsubscribe = [];
}

pub not_empty : (s : Bytes) → s ≢ [] → bytes_eq s [] ≡ false
unfolding bytes_eq
not_empty [] h = absurd (h refl)
not_empty (c ∷ s) h = refl

or_else-none : (o : Option Bytes) → or_else o none ≡ o
or_else-none none = refl
or_else-none (some v) = refl

add_versions-IsCurrent : (l : List Resource) → IsComplete l → IsCurrent (add_versions l []) l
unfolding GoMap.lookup
add_versions-IsCurrent l h n = lookup-add_versions l [] n h ∙ or_else-none (find n l)

-- An ACK for the last response.
handle-ack :
    (mgr : Manager) (res : DeltaResponse) (st : StreamState)
    → mgr.nonce ≢ []
    → res.nonce ≡ mgr.nonce
    → (handle mgr (ack_of res) st).client_resource_versions
      ≡ add_versions (resources_of mgr res.type_url) []
unfolding handle acknowledge subscribe unsubscribe
handle-ack mgr res st h e = rw e (rw (not_empty mgr.nonce h) (rw (bytes_eq_refl mgr.nonce) refl))

get_delta_response-ack :
    (mgr : Manager) (states : States) (res : DeltaResponse)
    → IsComplete (resources_of mgr res.type_url)
    → mgr.nonce ≢ []
    → res.nonce ≡ mgr.nonce
    → get_delta_response mgr (handle_delta_request mgr states (ack_of res)) res.type_url ≡ none
unfolding handle_delta_request
get_delta_response-ack mgr states res h nonce e =
    let st = handle mgr (ack_of res) (state_for states (ack_of res)) in
    get_delta_response-some mgr _ res.type_url st (
      lookup-insert bytes_order res.type_url res.type_url st states
      ∙ rw (same_refl bytes_order res.type_url) refl)
    ∙ silent mgr st res.type_url h (
        subst (λ m. IsCurrent m (resources_of mgr res.type_url))
          (sym (handle-ack mgr res (state_for states (ack_of res)) nonce e))
          (add_versions-IsCurrent (resources_of mgr res.type_url) h))

-- A client that applies a response has exactly the versions of the manager's resources of the type,
-- and once the stream has its ACK, with no update in between, it has nothing to send for the type.
pub IsCurrent-ack :
    (mgr : Manager) (states : States) (url : Bytes) (st : StreamState) (res : DeltaResponse)
    → IsComplete (resources_of mgr url)
    → mgr.nonce ≢ []
    → GoMap.lookup bytes_order url states ≡ some st
    → get_delta_response mgr states url ≡ some res
    → IsCurrent (apply_response res st.client_resource_versions) (resources_of mgr url)
      × (get_delta_response mgr (handle_delta_request mgr states (ack_of res)) url ≡ none)
unfolding response_for apply_response
IsCurrent-ack mgr states url st res h nonce here e =
    let l = resources_of mgr url in
    let m = st.client_resource_versions in
    let r0 : DeltaResponse = record {
      type_url = url;
      nonce = mgr.nonce;
      resources = keep_if (is_changed m) l;
      removed_resources = removed_names (add_seen l []) m;
    } in
    let is_res =
      unless_empty-some r0 res (keep_if (is_changed m) l) (removed_names (add_seen l []) m)
        (sym (get_delta_response-some mgr states url st here) ∙ e) in
    (
      subst (λ r. IsCurrent (apply_response r m) l) is_res (λ n. reached l m n h),
      subst (λ r. get_delta_response mgr (handle_delta_request mgr states (ack_of r)) url ≡ none)
          is_res (get_delta_response-ack mgr states r0 h nonce refl),
    )
