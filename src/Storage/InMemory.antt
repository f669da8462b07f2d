-- ===== src/Storage/InMemory.antt =====
-- pkg/storage/inmemory/backend.go: records by type and id, and a B-tree of their changes by
-- version. Each method holds the backend's mutex, so it is one step; `time.Now()` is an argument.
pub mod History
pub mod Sync
pub mod Expiry
pub mod Table
pub mod Stream
use pomerium.Prelude.{
  ℕ, suc, zero, ◌+◌, ◌%◌, ◌^◌, ℤ, pos, ◌-ℤ◌, ltb, ltb_ℤ, Bytes, bytes_order, Order, pair_order,
  same, time_order, Bool, true, false, ◌||◌, not, List, [], map, Option, none, some, ◌==◌, keep_if,
  if◌then◌else◌,
}
use pomerium.BTree.{BTree}
use pomerium.GoMap
use pomerium.GoMap.{GoMap}
use pomerium.Signal
use pomerium.Signal.{Signal}
use pomerium.Storage.{
  Record, StorageError, not_found, nil_record, Result, ok, err, as_time, StorageBackend,
}

-- recordKey
abbrev pub RecordKey : Type 0
RecordKey = Bytes × Bytes

abbrev pub key_order : Order RecordKey
key_order = pair_order bytes_order bytes_order

abbrev pub key_of : Record → RecordKey
key_of r = (r.type, r.id)

-- recordChange.Less
abbrev pub less_version : Record → Record → Bool
less_version change that = ltb change.version that.version

unfoldable pub put_lookup : Record → GoMap RecordKey Record → GoMap RecordKey Record
put_lookup r m = elim r.deleted_at [
  | some t ↦ GoMap.delete key_order (key_of r) m
  | none ↦ GoMap.insert key_order (key_of r) r m
]

-- The record that AscendGreaterOrEqual starts from.
abbrev pub pivot : ℕ → Record
pivot version = record {
  version = version;
  type = [];
  id = [];
  payload = none;
  modified_at = none;
  deleted_at = none;
}

-- The loop of removeChangesBefore, with fuel for its rounds.
pub remove_before : (B : BTree less_version) → ℕ → B.Tree → ℤ → B.Tree
remove_before B zero changes cutoff = changes
remove_before B (suc fuel) changes cutoff = elim (B.min changes) [
  | none ↦ changes
  | some change ↦
      let rest = remove_before B fuel (B.delete_min changes) cutoff in
      if ltb_ℤ (as_time change.modified_at) cutoff then rest else changes
]

module _ (B : BTree less_version) where
  pub record Backend : Type 0 where
    pub expiry : ℤ
    pub on_change : Signal
    pub last_version : ℕ
    pub closed : Bool
    pub lookup : GoMap RecordKey Record
    pub changes : B.Tree

module _ {B : BTree less_version} where
  -- New, with the expiry of the configuration
  pub new : ℤ → Backend B
  new expiry = record {
    expiry = expiry;
    on_change = Signal.new;
    last_version = 0;
    closed = false;
    lookup = [];
    changes = B.empty;
  }

  pub remove_changes_before : Backend B → ℤ → Backend B
  remove_changes_before b cutoff = record b {
    changes = remove_before B (B.len b.changes) b.changes cutoff;
  }

  -- A tick of the goroutine that New starts, at the time `now`.
  pub on_tick : Backend B → ℤ → Backend B
  on_tick b now =
      if same time_order b.expiry (pos 0) || b.closed
      then b
      else remove_changes_before b (now -ℤ b.expiry)

  unfoldable pub close : Backend B → Backend B
  close b = if b.closed then b else record b { closed = true; lookup = []; changes = B.empty }

  unfoldable pub get : Backend B → Bytes → Bytes → Result StorageError Record
  get b type id = elim (GoMap.lookup key_order (type, id) b.lookup) [
    | none ↦ err not_found
    | some r ↦ ok r
  ]

  unfoldable pub get_all : Backend B → List Record × ℕ
  get_all b = (map (λ e. e.1) b.lookup, b.last_version)

  -- atomic.AddUint64(&backend.lastVersion, 1)
  pub next_version : Backend B → ℕ
  next_version b = (b.last_version + 1) % 2 ^ 64

  -- The record as Put leaves it.
  unfoldable pub stamp : Backend B → ℤ → Record → Record
  unfolding next_version
  stamp b now r = record r { modified_at = some now; version = next_version b }

  unfoldable pub put_record : Backend B → ℤ → Record → Backend B
  put_record b now r =
      let r' = stamp b now r in
      record b {
        on_change = Signal.broadcast b.on_change;
        last_version = next_version b;
        changes = B.replace_or_insert b.changes r';
        lookup = put_lookup r' b.lookup;
      }

  -- Put stamps the record that it is given, so the record comes back too.
  unfoldable pub put : Backend B → ℤ → Option Record → Result StorageError (Record × Backend B)
  unfolding put_record stamp
  put b now none = err nil_record
  put b now (some r) = ok (stamp b now r, put_record b now r)

  unfoldable pub get_since : Backend B → ℕ → List Record
  get_since b version =
      keep_if (λ r. not (r.version == version)) (B.ascend_ge b.changes (pivot version))

  abbrev pub get_all_ok : Backend B → Result StorageError (List Record × ℕ)
  get_all_ok b = ok (get_all b)

-- The in-memory backend as a storage.Backend.
abbrev pub in_memory : BTree less_version → StorageBackend
in_memory B = record {
  State = Backend B;
  get = get;
  get_all = get_all_ok;
  put = put;
  close = close;
}
