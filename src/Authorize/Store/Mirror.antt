-- ===== src/Authorize/Store/Mirror.antt =====
-- The authorize service's store against the records of the databroker.
use pomerium.Prelude.{
  ◌^◌, ◌<◌, ◌≤◌, Bytes, bytes_order, same, ◌≡◌, refl, ap, ◌∙◌, sym, true, List, [], ◌∷◌, Option,
  none, some, arith, length, inl, inr, Option-cases, if◌then◌else◌,
}
use pomerium.BTree.{BTree}
use pomerium.GoMap
use pomerium.GoMap.{GoMap, lookup-insert, lookup-delete}
use pomerium.Storage.{Any, Record, StorageError, Result, ok, err}
use pomerium.Storage.InMemory
use pomerium.Storage.InMemory.{RecordKey, key_order, key_of, less_version, put_lookup}
use pomerium.Storage.InMemory.History.{IsHistory, replay}
use pomerium.Storage.InMemory.Table.{lookup-put_lookup}
use pomerium.Databroker.Syncer.{Syncer, HandlerCall, clear_records, update_records, sync, wants}
use pomerium.Databroker.Syncer.Replica.{IsCopy, apply_calls}
use pomerium.Databroker.Server.Snapshots.{serving, take_all}
use pomerium.Databroker.Server.Streaming.{serve_sync, sync-serve_sync}
use pomerium.Strings.{bytes_eq}
use pomerium.Authorize.Store.{
  DataBrokerData, or_new, get_record_data, update_record, update_all, Synced, on_call, on_calls,
}

module _ {M : Type 0} (unmarshal : Option Any → Option M) where
  abbrev pub message_of : Option Record → Option M
  message_of none = none
  message_of (some r) = unmarshal r.payload

  -- The store answers as a table of records does.
  abbrev pub Mirrors : DataBrokerData M → GoMap RecordKey Record → Type 0
  Mirrors store m =
      (type_url id : Bytes)
      → get_record_data store type_url id ≡ message_of (GoMap.lookup key_order (type_url, id) m)

  pub get_record_data-update_record :
      (store : DataBrokerData M) (r : Record) (type_url id : Bytes)
      → get_record_data (update_record unmarshal store r) type_url id ≡ (
          if same key_order (type_url, id) (key_of r)
          then elim r.deleted_at [ none ↦ unmarshal r.payload | some t ↦ none ]
          else get_record_data store type_url id)
  unfolding get_record_data update_record GoMap.lookup
  get_record_data-update_record store r type_url id = elim (Option-cases r.deleted_at) [
    | inl e ↦
        rw (e, update_record)
          (ground (
            arith,
            lookup-insert bytes_order r.type type_url
                (GoMap.insert bytes_order r.id (unmarshal r.payload)
                  (or_new (GoMap.lookup bytes_order r.type store)))
                store,
            lookup-insert bytes_order r.id id (unmarshal r.payload)
                (or_new (GoMap.lookup bytes_order r.type store)),
            bytes_order.connected type_url r.type,
            bytes_order.irrefl r.type,
            Option-cases (GoMap.lookup bytes_order r.type store),
          ))
    | inr (t, e) ↦
        rw (e, update_record)
          (ground (
            arith,
            lookup-insert bytes_order r.type type_url
                (GoMap.delete bytes_order r.id (or_new (GoMap.lookup bytes_order r.type store)))
                store,
            lookup-delete bytes_order r.id id (or_new (GoMap.lookup bytes_order r.type store)),
            bytes_order.connected type_url r.type,
            bytes_order.irrefl r.type,
            Option-cases (GoMap.lookup bytes_order r.type store),
          ))
  ]

  update_record-Mirrors :
      (store : DataBrokerData M) (m : GoMap RecordKey Record) (r : Record)
      → Mirrors store m
      → Mirrors (update_record unmarshal store r) (put_lookup r m)
  update_record-Mirrors store m r h type_url id =
      get_record_data-update_record store r type_url id
      ∙ ground
          (arith, h type_url id, lookup-put_lookup r (type_url, id) m, Option-cases r.deleted_at)

  update_all-Mirrors :
      (store : DataBrokerData M) (m : GoMap RecordKey Record) (l : List Record)
      → Mirrors store m
      → Mirrors (update_all unmarshal store l) (replay m l)
  unfolding update_all replay
  update_all-Mirrors store m [] h = h
  update_all-Mirrors store m (r ∷ l) h =
      update_all-Mirrors (update_record unmarshal store r) (put_lookup r m) l
        (update_record-Mirrors store m r h)

  -- What a syncer tells the service keeps the store a mirror of a table that is told the same.
  pub on_calls-Mirrors :
      (s : Synced M) (m : GoMap RecordKey Record) (calls : List HandlerCall)
      → Mirrors s.store m
      → Mirrors (on_calls unmarshal s calls).store (apply_calls m calls)
  unfolding on_calls apply_calls get_record_data GoMap.lookup
  on_calls-Mirrors s m [] h = h
  on_calls-Mirrors s m (clear_records ∷ calls) h =
      on_calls-Mirrors (record s { store = [] }) [] calls (λ t i. refl)
  on_calls-Mirrors s m (update_records l ∷ calls) h =
      on_calls-Mirrors (on_call unmarshal s (update_records l)) (replay m l) calls
        (update_all-Mirrors s.store m l h)

  -- The message of what Get of a backend returns.
  abbrev pub message_got : Result StorageError Record → Option M
  message_got (ok r) = unmarshal r.payload
  message_got (err e) = none

module _ {B : BTree less_version} {M : Type 0} (unmarshal : Option Any → Option M) where
  message-get :
      (b : InMemory.Backend B) (type_url id : Bytes)
      → message_of unmarshal (GoMap.lookup key_order (type_url, id) b.lookup)
        ≡ message_got unmarshal (InMemory.get b type_url id)
  unfolding InMemory.get
  message-get b type_url id =
      ground (arith, Option-cases (GoMap.lookup key_order (type_url, id) b.lookup))

  -- After a sync with the server, from a store that mirrors a copy as of the syncer's version, none of
  -- whose missing changes have expired, GetRecordData of the authorize service gives for every type
  -- and id the message of what Get of the server's backend returns.
  pub get_record_data-get :
      (l : List Record) (s : Syncer) (m : GoMap RecordKey Record) (a : Synced M)
      (b : InMemory.Backend B) (make : Result StorageError (InMemory.Backend B))
      (type_url id : Bytes)
      → (h : IsHistory l b) → length l < 2 ^ 64
      → h.gone ≤ s.record_version
      → s.record_version ≤ length l
      → s.type_url ≡ []
      → IsCopy l s.type_url s.record_version m
      → Mirrors unmarshal a.store m
      → let r =
          sync s
            (serve_sync (serving s.server_version b) make s.server_version s.record_version).0 in
        get_record_data (on_calls unmarshal a r.calls).store type_url id
        ≡ message_got unmarshal (InMemory.get b type_url id)
  unfolding bytes_eq
  get_record_data-get l s m a b make type_url id h fits old new all c mirror =
      let wanted : wants s.type_url type_url ≡ true = rw all refl in
      let whole = sync-serve_sync l s m b make h fits old new c in
      on_calls-Mirrors unmarshal a m _ mirror type_url id
      ∙ ap (message_of unmarshal) (
          whole.2 (type_url, id)
          ∙ rw wanted (
              ap (λ rs. GoMap.lookup key_order (type_url, id) (replay [] rs)) (take_all l)
              ∙ ap (GoMap.lookup key_order (type_url, id)) (sym h.current)))
      ∙ message-get b type_url id
