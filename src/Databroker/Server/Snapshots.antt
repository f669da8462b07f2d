-- ===== src/Databroker/Server/Snapshots.antt =====
-- A syncer's initial sync against a server over the in-memory backend.
use mathlib.Core.List.{append-nil, append_assoc}
use pomerium.Prelude.{
  ℕ, Bytes, bytes_order, same, Bool, false, ◌≡◌, refl, sym, ap, ◌∙◌, subst, List, [], ◌∷◌, ◌++◌,
  map, none, some, arith, All, length, take, keep_if, if◌then◌else◌,
}
use pomerium.BTree.{BTree}
use pomerium.GoMap
use pomerium.GoMap.{GoMap, HasDistinctKeys, lookup_lacking}
use pomerium.Storage.{Record, ok, StorageError, Result}
use pomerium.Storage.InMemory.{
  RecordKey, key_order, key_of, less_version, Backend, get_all, in_memory,
}
use pomerium.Storage.InMemory.History.{replay, IsHistory}
use pomerium.Storage.InMemory.Table.{
  IsTable, empty-IsTable, replay-IsTable, replay-values, or_else-none,
}
use pomerium.Databroker.{Latest, Snapshot, receive_latest, initial_sync}
use pomerium.Databroker.Syncer.{Syncer, wants, init, done, clear_records, update_records}
use pomerium.Databroker.Syncer.Replica.{IsCopy, apply_calls}
use pomerium.Databroker.Server.{Server, latest_of, sync_latest}

abbrev wanted : Bytes → Record → Bool
wanted type r = wants type r.type

receive_latest-latest_of :
    (s : Snapshot) (type : Bytes) (rs : List Record) (more : List Latest)
    → receive_latest s (latest_of type rs ++ more)
      ≡ receive_latest (record s { records = s.records ++ keep_if (wanted type) rs }) more
unfolding receive_latest latest_of
receive_latest-latest_of s type [] more = rw append-nil
receive_latest-latest_of s type (r ∷ rs) more = ground (
  arith,
  receive_latest-latest_of s type rs more,
  receive_latest-latest_of (record s { records = s.records ++ r ∷ [] }) type rs more,
  append_assoc s.records (r ∷ []) (keep_if (wanted type) rs),
)

-- The wanted entries of a table.
abbrev entries : Bytes → GoMap RecordKey Record → GoMap RecordKey Record
entries type = keep_if (λ e. wanted type e.1)

map-entries :
    (type : Bytes) (m : GoMap RecordKey Record)
    → map (λ e. e.1) (entries type m) ≡ keep_if (wanted type) (map (λ e. e.1) m)
map-entries type [] = refl
map-entries type ((k, r) ∷ m) = ground (arith, map-entries type m)

lookup-entries :
    (type : Bytes) (m : GoMap RecordKey Record) (k : RecordKey)
    → All (λ e. key_of e.1 ≡ e.0) m
    → GoMap.lookup key_order k (entries type m)
      ≡ (if wants type k.0 then GoMap.lookup key_order k m else none)
unfolding GoMap.lookup
lookup-entries type [] k h = ground arith
lookup-entries type ((j, r) ∷ m) k h = ground (
  arith,
  lookup-entries type m k h.1,
  h.0,
  bytes_order.connected k.0 j.0,
  bytes_order.connected k.1 j.1,
)

entries-All :
    (P : RecordKey × Record → Type 0) (type : Bytes) (m : GoMap RecordKey Record)
    → All P m
    → All P (entries type m)
entries-All P type [] h = tt
entries-All P type (e ∷ m) h = ground (arith, entries-All P type m h.1)

entries-distinct :
    (type : Bytes) (m : GoMap RecordKey Record)
    → HasDistinctKeys key_order m
    → HasDistinctKeys key_order (entries type m)
entries-distinct type [] h = tt
entries-distinct type (e ∷ m) h = ground (
  arith,
  entries-distinct type m h.1,
  entries-All (λ x. same key_order e.0 x.0 ≡ false) type m h.0,
)

-- The records of a snapshot make the wanted part of the table.
replay-snapshot :
    (type : Bytes) (m : GoMap RecordKey Record) (k : RecordKey)
    → IsTable m
    → GoMap.lookup key_order k (replay [] (keep_if (wanted type) (map (λ e. e.1) m)))
      ≡ (if wants type k.0 then GoMap.lookup key_order k m else none)
replay-snapshot type m k h =
    ap (λ rs. GoMap.lookup key_order k (replay [] rs)) (sym (map-entries type m))
    ∙ replay-values [] (entries type m) k (record {
      distinct = entries-distinct type m h.distinct;
      keyed = entries-All _ type m h.keyed;
      alive = entries-All _ type m h.alive;
    })
    ∙ unfold GoMap.lookup in
      or_else-none (GoMap.lookup key_order k (entries type m)) ∙ lookup-entries type m k h.keyed

pub take_all : (l : List Record) → take (length l) l ≡ l
take_all [] = refl
take_all (r ∷ l) = ap (◌∷◌ r) (take_all l)

module _ {B : BTree less_version} where
  -- The server once it has the backend.
  abbrev pub serving : ℕ → Backend B → Server (in_memory B)
  serving version b = record { version = version; backend = some b }

  abbrev pub snapshot_of : Syncer → ℕ → Backend B → Snapshot
  snapshot_of s version b = record {
    records = keep_if (wanted s.type_url) (get_all b).0;
    record_version = b.last_version;
    server_version = version;
  }

  initial_sync-sync_latest :
      (s : Syncer) (version : ℕ) (b : Backend B) (make : Result StorageError (Backend B))
      → initial_sync (sync_latest (serving version b) make s.type_url).0
        ≡ some (ok (snapshot_of s version b))
  unfolding initial_sync sync_latest get_all
  initial_sync-sync_latest s version b make = receive_latest-latest_of _ s.type_url (get_all b).0 _

  snapshot-IsCopy :
      (l : List Record) (s : Syncer) (m : GoMap RecordKey Record) (b : Backend B)
      → IsHistory l b
      → IsCopy l s.type_url (length l) (
          apply_calls m
            (clear_records ∷ update_records (keep_if (wanted s.type_url) (get_all b).0) ∷ []))
  unfolding apply_calls get_all
  snapshot-IsCopy l s m b h k =
      replay-snapshot s.type_url b.lookup k
        (subst IsTable (sym h.current) (replay-IsTable [] l empty-IsTable))
      ∙ ap (λ t. if wants s.type_url k.0 then GoMap.lookup key_order k t else none)
          (h.current ∙ ap (replay []) (sym (take_all l)))

  -- An initial sync against a server over a backend with a history succeeds, takes over the server's
  -- version and the version of the last put, and leaves the handler with a copy of the wanted part
  -- of the whole history, whatever it held before.
  pub init-IsCopy :
      (l : List Record) (s : Syncer) (m : GoMap RecordKey Record) (version : ℕ) (b : Backend B)
      (make : Result StorageError (Backend B))
      → IsHistory l b
      → let r = init s (sync_latest (serving version b) make s.type_url).0 in
        (r.outcome ≡ done)
        × (r.syncer.server_version ≡ version)
        × (r.syncer.record_version ≡ length l)
        × IsCopy l s.type_url (length l) (apply_calls m r.calls)
  unfolding init
  init-IsCopy l s m version b make h =
      rw (initial_sync-sync_latest s version b make, init)
        (refl, refl, h.count, λ k. snapshot-IsCopy l s m b h k)
