-- ===== src/Authorize/Check.antt =====
-- Check of authorize/grpc.go, with the databroker's client, the rego engine and the parts of the
-- request as arguments. While a check runs no other change of the store is taken in between.
pub mod Decisions
use pomerium.Prelude.{
  ℤ, pos, Bytes, Bool, true, false, List, [], ◌∷◌, Option, none, some, time_order, same, ◌&&◌,
  if◌then◌else◌,
}
use pomerium.Storage.{Any, Record}
use pomerium.Strings.{codes}
use pomerium.Identity.Data.{PbSession, PbUser}
use pomerium.Authorize.Store.{DataBrokerData, get_record_data, update_record}
use pomerium.Authorize.Evaluator.{
  Fields, Text, CustomResponse, Reply, Request, evaluate, status_ok, status_unauthorized,
}

-- The messages that the service tells apart; of a service account, the user id.
pub data Message : Type 0 where
  session : PbSession → Message
  service_account : Bytes → Message
  user : PbUser → Message
  other : Message

-- Their type URLs, UnmarshalNew, and Get of the databroker's client, none for an error.
pub record Client : Type 0 where
  pub session_type : Bytes
  pub service_account_type : Bytes
  pub user_type : Bytes
  pub unmarshal : Option Any → Option Message
  pub get : Bytes → Bytes → Option Record

abbrev pub as_session : Option Message → Option PbSession
as_session (some (session s)) = some s
as_session (some m) = none
as_session none = none

abbrev pub as_account : Option Message → Option Bytes
as_account (some (service_account id)) = some id
as_account (some m) = none
as_account none = none

abbrev pub as_user : Option Message → Option PbUser
as_user (some (user u)) = some u
as_user (some m) = none
as_user none = none

-- The interface value that forceSyncSession returns: nil, or a pointer, which may be nil itself.
pub data FoundSession : Type 0 where
  no_interface : FoundSession
  session_pointer : Option PbSession → FoundSession
  account_pointer : Bytes → FoundSession

-- GetUserId, which gives the empty string for a nil pointer
abbrev pub user_id_of : FoundSession → Bytes
user_id_of no_interface = []
user_id_of (session_pointer none) = []
user_id_of (session_pointer (some s)) = s.user_id
user_id_of (account_pointer id) = id

abbrev pub Store : Type 0
Store = DataBrokerData Message

-- if current := GetRecordData(…); current == nil { UpdateRecord(…) }
unfoldable pub update_if_nil : Client → Store → Bytes → Bytes → Record → Store
update_if_nil client store type id r = elim (get_record_data store type id) [
  | some m ↦ store
  | none ↦ update_record client.unmarshal store r
]

unfoldable pub force_sync_session : Client → Store → Bytes → FoundSession × Store
unfolding update_if_nil
force_sync_session client store id =
    elim (as_session (get_record_data store client.session_type id)) [
      | some s ↦ (session_pointer (some s), store)
      | none ↦ elim (as_account (get_record_data store client.service_account_type id)) [
        | some user_id ↦ (account_pointer user_id, store)
        | none ↦ elim (client.get client.session_type id) [
          | none ↦ (no_interface, store)
          | some r ↦
              let store' = update_if_nil client store client.session_type id r in
              (session_pointer (as_session (get_record_data store' client.session_type id)), store')
        ]
      ]
    ]

unfoldable pub force_sync_user : Client → Store → Bytes → Option PbUser × Store
unfolding update_if_nil
force_sync_user client store id = elim (as_user (get_record_data store client.user_type id)) [
  | some u ↦ (some u, store)
  | none ↦ elim (client.get client.user_type id) [
    | none ↦ (none, store)
    | some r ↦
        let store' = update_if_nil client store client.user_type id r in
        (as_user (get_record_data store' client.user_type id), store')
  ]
]

abbrev pub is_nil : FoundSession → Bool
is_nil no_interface = true
is_nil found = false

-- forceSync of a session state's ID: whether it succeeds, the user, and the store.
unfoldable pub force_sync : Client → Store → Option Bytes → Bool × Option PbUser × Store
unfolding force_sync_session force_sync_user
force_sync client store none = (true, none, store)
force_sync client store (some id) =
    let (found, store') = force_sync_session client store id in
    let (u, store'') = force_sync_user client store' (user_id_of found) in
    if is_nil found then (false, none, store') else (true, u, store'')

pub data CheckResponse : Type 0 where
  ok_response : Reply → CheckResponse
  denied_response : ℤ → Bytes → CheckResponse
  redirect_response : CheckResponse
  check_error : CheckResponse

-- The switch on the reply's status.
unfoldable pub respond : Bool → Option Reply → CheckResponse
respond verify none = check_error
respond verify (some reply) =
    if same time_order reply.status status_ok
    then ok_response reply
    else if same time_order reply.status status_unauthorized
    then (if verify
        then denied_response status_unauthorized (codes "Unauthenticated")
        else redirect_response)
    else denied_response reply.status reply.message

-- What Check takes from the request and its surroundings: whether it is a forward-auth request for
-- /verify, the custom policies of its route (none if the request for the evaluator cannot be built),
-- the validity of its certificate, and the engine, which sees the session's ID.
pub record Env : Type 0 where
  pub verify : Bool
  pub policies : Option (List Bytes)
  pub certificate : Option Bool
  pub text : Text
  pub query : Bytes → Bool → Option Fields
  pub custom : Bytes → Bytes → Option CustomResponse

-- ID of the session state, if there is one
abbrev pub id_of : Option Bytes → Bytes
id_of none = []
id_of (some id) = id

-- The rest of Check, with the session state that is left after forceSync.
unfoldable pub check_session : Env → Option Bytes → CheckResponse
unfolding respond
check_session env state = elim env.policies [
  | none ↦ check_error
  | some policies ↦ respond env.verify (
      evaluate env.text env.certificate (env.query (id_of state)) (env.custom (id_of state))
        (record { session_id = id_of state; custom_policies = policies }))
]

-- Check, for the ID of the session state that was loaded from the request, if any.
unfoldable pub check : Env → Client → Store → Option Bytes → CheckResponse × Store
unfolding force_sync check_session
check env client store state =
    let (synced, u, store') = force_sync client store state in
    (check_session env (if synced then state else none), store')
