-- ===== src/Authorize/Store.antt =====
-- The databroker's records in the store of authorize/evaluator/store.go, and authorize/sync.go, which
-- fills it. Each method holds the store's lock. The documents of the OPA store are not modelled.
pub mod Mirror
use pomerium.Prelude.{
  Bytes, bytes_order, Bool, true, false, List, [], ◌∷◌, Option, none, some, if◌then◌else◌,
}
use pomerium.GoMap
use pomerium.GoMap.{GoMap}
use pomerium.Storage.{Any, Record}
use pomerium.Databroker.Syncer.{HandlerCall, clear_records, update_records}

module _ {M : Type 0} where
  -- m[id] of a map of messages, of which some may be nil
  abbrev pub or_nil : Option (Option M) → Option M
  or_nil none = none
  or_nil (some msg) = msg

-- dataBrokerData: messages, which may be nil, by type and then by id
abbrev pub DataBrokerData : Type 0 → Type 0
DataBrokerData M = GoMap Bytes (GoMap Bytes (Option M))

module _ {M : Type 0} where
  -- GetRecordData
  unfoldable pub get_record_data : DataBrokerData M → Bytes → Bytes → Option M
  get_record_data store type_url id = elim (GoMap.lookup bytes_order type_url store) [
    | none ↦ none
    | some m ↦ or_nil (GoMap.lookup bytes_order id m)
  ]

  abbrev pub or_new : Option (GoMap Bytes (Option M)) → GoMap Bytes (Option M)
  or_new none = []
  or_new (some m) = m

  -- UpdateRecord, given UnmarshalNew of a record's data, which gives nil where it fails
  unfoldable pub update_record :
      (Option Any → Option M) → DataBrokerData M → Record → DataBrokerData M
  update_record unmarshal store r =
      let m = or_new (GoMap.lookup bytes_order r.type store) in
      let m' = elim r.deleted_at as (λ o. GoMap Bytes (Option M)) [
        | some t ↦ GoMap.delete bytes_order r.id m
        | none ↦ GoMap.insert bytes_order r.id (unmarshal r.payload) m
      ] in
      GoMap.insert bytes_order r.type m' store

  -- The loop of UpdateRecords of authorize/sync.go.
  unfoldable pub update_all :
      (Option Any → Option M) → DataBrokerData M → List Record → DataBrokerData M
  unfolding update_record
  update_all unmarshal store [] = store
  update_all unmarshal store (r ∷ l) = update_all unmarshal (update_record unmarshal store r) l

-- The store, and whether dataBrokerInitialSync is closed.
pub record Synced (M : Type 0) : Type 0 where
  pub store : DataBrokerData M
  pub initial_sync : Bool

module _ {M : Type 0} where
  -- ClearRecords and UpdateRecords of dataBrokerSyncer
  unfoldable pub on_call : (Option Any → Option M) → Synced M → HandlerCall → Synced M
  unfolding update_all
  on_call unmarshal s clear_records = record s { store = [] }
  on_call unmarshal s (update_records l) = record {
    store = update_all unmarshal s.store l;
    initial_sync = true;
  }

  unfoldable pub on_calls : (Option Any → Option M) → Synced M → List HandlerCall → Synced M
  unfolding on_call
  on_calls unmarshal s [] = s
  on_calls unmarshal s (c ∷ calls) = on_calls unmarshal (on_call unmarshal s c) calls
