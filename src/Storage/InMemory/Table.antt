-- ===== src/Storage/InMemory/Table.antt =====
-- Get, GetAll and Put of the in-memory backend on its table of records.
use pomerium.Prelude.{
  ℤ, Bytes, same, ◌≡◌, refl, sym, subst, ◌∙◌, length, List, [], ◌∷◌, map, Option, none, some, arith,
  All, inl, inr, Option-cases, if◌then◌else◌,
}
use pomerium.BTree.{BTree}
use pomerium.GoMap
use pomerium.GoMap.{
  GoMap, lookup-insert, lookup-delete, HasDistinctKeys, insert-HasDistinctKeys,
  delete-HasDistinctKeys, insert-All, delete-All, Lacks, lookup_lacking,
}
use pomerium.Storage.{Record, StorageError, not_found, Result, ok, err}
use pomerium.Storage.InMemory.History.{replay, IsHistory}
use pomerium.Storage.InMemory.{
  RecordKey, key_order, key_of, less_version, put_lookup, Backend, get, get_all, stamp, put_record,
}

-- What Get returns for a record that was put: nothing if it is marked as deleted.
abbrev pub live : Record → Result StorageError Record
live r = elim r.deleted_at [ none ↦ ok r | some t ↦ err not_found ]

pub lookup-put_lookup :
    (r : Record) (k : RecordKey) (m : GoMap RecordKey Record)
    → GoMap.lookup key_order k (put_lookup r m) ≡ (
        if same key_order k (key_of r)
        then elim r.deleted_at [ none ↦ some r | some t ↦ none ]
        else GoMap.lookup key_order k m)
unfolding put_lookup
lookup-put_lookup r k m = elim (Option-cases r.deleted_at) [
  | inl e ↦ rw (e, put_lookup) (lookup-insert key_order (key_of r) k r m)
  | inr (t, e) ↦ rw (e, put_lookup) (lookup-delete key_order (key_of r) k m)
]

-- Every entry stands under its record's key, once, and no record is marked as deleted.
pub record IsTable (m : GoMap RecordKey Record) : Type 0 where
  pub distinct : HasDistinctKeys key_order m
  pub keyed : All (λ e. key_of e.1 ≡ e.0) m
  pub alive : All (λ e. e.1.deleted_at ≡ none) m

pub empty-IsTable : IsTable []
empty-IsTable = record { distinct = tt; keyed = tt; alive = tt }

put_lookup-IsTable :
    (r : Record) (m : GoMap RecordKey Record) → IsTable m → IsTable (put_lookup r m)
unfolding put_lookup
put_lookup-IsTable r m h = elim (Option-cases r.deleted_at) [
  | inl e ↦
      rw (e, put_lookup)
        (record {
          distinct = insert-HasDistinctKeys key_order (key_of r) r m h.distinct;
          keyed = insert-All key_order (λ e. key_of e.1 ≡ e.0) (key_of r) r m refl h.keyed;
          alive = insert-All key_order (λ e. e.1.deleted_at ≡ none) (key_of r) r m e h.alive;
        })
  | inr (t, e) ↦
      rw (e, put_lookup)
        (record {
          distinct = delete-HasDistinctKeys key_order (key_of r) m h.distinct;
          keyed = delete-All key_order (λ e. key_of e.1 ≡ e.0) (key_of r) m h.keyed;
          alive = delete-All key_order (λ e. e.1.deleted_at ≡ none) (key_of r) m h.alive;
        })
]

pub replay-IsTable :
    (m : GoMap RecordKey Record) (l : List Record) → IsTable m → IsTable (replay m l)
unfolding replay
replay-IsTable m [] h = h
replay-IsTable m (r ∷ l) h = replay-IsTable (put_lookup r m) l (put_lookup-IsTable r m h)

abbrev pub or_else : Option Record → Option Record → Option Record
or_else none o = o
or_else (some r) o = some r

pub or_else-none : (o : Option Record) → or_else o none ≡ o
or_else-none none = refl
or_else-none (some r) = refl

tail_IsTable :
    (j : RecordKey) (r : Record) (m : GoMap RecordKey Record) → IsTable ((j, r) ∷ m) → IsTable m
tail_IsTable j r m h = record { distinct = h.distinct.1; keyed = h.keyed.1; alive = h.alive.1 }

pub replay-values :
    (acc m : GoMap RecordKey Record) (k : RecordKey)
    → IsTable m
    → GoMap.lookup key_order k (replay acc (map (λ e. e.1) m))
      ≡ or_else (GoMap.lookup key_order k m) (GoMap.lookup key_order k acc)
unfolding replay GoMap.lookup
replay-values acc [] k h = refl
replay-values acc ((j, r) ∷ m) k h = ground (
  arith,
  replay-values (put_lookup r acc) m k (tail_IsTable j r m h),
  lookup-put_lookup r k acc,
  h.keyed.0,
  h.alive.0,
  key_order.connected k j,
  lookup_lacking key_order j m h.distinct.0,
)

module _ {B : BTree less_version} where
  -- After a put, Get of the put record's type and id returns the record as the put stamped it, or
  -- not_found if it is marked as deleted; every other Get returns what it did before.
  pub get-put_record :
      (b : Backend B) (now : ℤ) (r : Record) (type id : Bytes)
      → get (put_record b now r) type id
        ≡ (if same key_order (type, id) (key_of r) then live (stamp b now r) else get b type id)
  unfolding get put_record stamp
  get-put_record b now r type id =
      ground (arith, lookup-put_lookup (stamp b now r) (type, id) b.lookup)

  -- A reader that applies the records of GetAll to an empty table looks up what the backend does,
  -- whatever the history.
  pub get_all-replay :
      (l : List Record) (b : Backend B) (k : RecordKey)
      → IsHistory l b
      → (GoMap.lookup key_order k (replay [] (get_all b).0) ≡ GoMap.lookup key_order k b.lookup)
        × ((get_all b).1 ≡ length l)
  unfolding get_all GoMap.lookup
  get_all-replay l b k h = (
    replay-values [] b.lookup k (subst IsTable (sym h.current) (replay-IsTable [] l empty-IsTable))
        ∙ or_else-none (GoMap.lookup key_order k b.lookup),
    h.count,
  )
