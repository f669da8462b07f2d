-- ===== src/Identity/Manager/Directory/Merging.antt =====
-- What a merge of the directory's groups or users leaves in a table of records.
use pomerium.Prelude.{
  ℤ, Bytes, bytes_order, Bool, true, false, ◌≡◌, ◌≢◌, refl, ap, ◌∙◌, sym, List, [], ◌∷◌, ◌++◌,
  Option, none, some, arith, All, same, same→eq, same_refl, Option-cases, if◌then◌else◌,
}
use pomerium.GoMap
use pomerium.GoMap.{
  GoMap, lookup-insert, insert-All, insert-HasDistinctKeys, lookup_lacking, HasDistinctKeys,
}
use pomerium.Storage.{Any, Record}
use pomerium.Storage.InMemory.{RecordKey, key_order, key_of, put_lookup}
use pomerium.Storage.InMemory.History.{replay, replay-append}
use pomerium.Storage.InMemory.Table.{lookup-put_lookup}
use pomerium.Authorize.Store.Mirror.{message_of}
use pomerium.Identity.Manager.Directory.Keyed.{
  IsKeyed, add_entries-IsKeyed, last_of, lookup-add_entries, merged,
}
use pomerium.Identity.Manager.Directory.{
  Entry, Entries, add_entries, is_same, is_there, updated, deleted, put_changed, put_deleted, merge,
  refresh_directory,
}

module _ (P : Entry → Any) (url : Bytes) (unpack : Option Any → Option Entry)
    (typed : (e : Entry) → (P e).type_url ≡ url)
    (unpacked : (e : Entry) → unpack (some (P e)) ≡ some e) where
  -- The entry that a table has under an id.
  abbrev pub held : GoMap RecordKey Record → Bytes → Option Entry
  held t id = message_of unpack (GoMap.lookup key_order (url, id) t)

  held-updated :
      (t : GoMap RecordKey Record) (e : Entry) (id : Bytes)
      → held (put_lookup (updated (P e) e) t) id
        ≡ (if same bytes_order id e.id then some e else held t id)
  held-updated t e id =
      ap (message_of unpack) (lookup-put_lookup (updated (P e) e) (url, id) t)
      ∙ ground (arith, typed e, unpacked e, bytes_order.irrefl url)

  held-deleted :
      (t : GoMap RecordKey Record) (with_data : Bool) (now : Entry → ℤ) (e : Entry) (id : Bytes)
      → held (put_lookup (deleted with_data now (P e) e) t) id
        ≡ (if same bytes_order id e.id then none else held t id)
  held-deleted t with_data now e id =
      ap (message_of unpack) (lookup-put_lookup (deleted with_data now (P e) e) (url, id) t)
      ∙ ground (arith, typed e, bytes_order.irrefl url)

  finished : (current m : Entries) → (put_changed (λ e. some (P e)) current m).1 ≡ true
  unfolding put_changed
  finished current [] = refl
  finished current ((k, e) ∷ m) = ground (arith, finished current m)

  held-put_changed :
      (current m : Entries) (t : GoMap RecordKey Record) (id : Bytes)
      → IsKeyed m
      → held (replay t (put_changed (λ e. some (P e)) current m).0) id
        ≡ elim (GoMap.lookup bytes_order id m) [
          | none ↦ held t id
          | some e ↦ if is_same (GoMap.lookup bytes_order id current) e then held t id else some e
        ]
  unfolding put_changed replay GoMap.lookup
  held-put_changed current [] t id h = refl
  held-put_changed current ((k, e) ∷ m) t id h =
      let t' = put_lookup (updated (P e) e) t in
      ground (
        arith,
        finished current m,
        held-put_changed current m t id (h.0.1, h.1.1),
        held-put_changed current m t' id (h.0.1, h.1.1),
        held-updated t e id,
        h.0.0,
        lookup_lacking bytes_order k m h.1.0,
        same→eq bytes_order id k,
        same_refl bytes_order k,
      )

  held-put_deleted :
      (with_data : Bool) (now : Entry → ℤ) (lookup current : Entries) (t : GoMap RecordKey Record)
      (id : Bytes)
      → IsKeyed current
      → held (replay t (put_deleted (λ e. some (P e)) with_data now lookup current)) id ≡ (
          if is_there (GoMap.lookup bytes_order id lookup)
          then held t id
          else elim (GoMap.lookup bytes_order id current) [ none ↦ held t id | some e ↦ none ])
  unfolding put_deleted replay GoMap.lookup
  held-put_deleted with_data now lookup [] t id h = ground arith
  held-put_deleted with_data now lookup ((k, e) ∷ current) t id h =
      let t' = put_lookup (deleted with_data now (P e) e) t in
      ground (
        arith,
        held-put_deleted with_data now lookup current t id (h.0.1, h.1.1),
        held-put_deleted with_data now lookup current t' id (h.0.1, h.1.1),
        held-deleted t with_data now e id,
        h.0.0,
        lookup_lacking bytes_order k current h.1.0,
        same→eq bytes_order id k,
        same_refl bytes_order k,
      )

  -- A merge into a table that holds what is current leaves in it exactly what is new: under every id
  -- the last of the entries that has it, or nothing. It does so whatever is put for a deletion.
  pub held-merge :
      (with_data : Bool) (now : Entry → ℤ) (current : Entries) (entries : List Entry)
      (t : GoMap RecordKey Record) (id : Bytes)
      → IsKeyed current
      → held t id ≡ GoMap.lookup bytes_order id current
      → held (replay t (merge (λ e. some (P e)) with_data now current entries)) id
        ≡ last_of id entries
  unfolding merge GoMap.lookup
  held-merge with_data now current entries t id h agree =
      let lookup = add_entries entries [] in
      let (puts, all) = put_changed (λ e. some (P e)) current lookup in
      let gone = put_deleted (λ e. some (P e)) with_data now lookup current in
      rw (finished current lookup) (
        ap (λ x. held x id) (replay-append t puts gone)
        ∙ held-put_deleted with_data now lookup current (replay t puts) id h
        ∙ merged (GoMap.lookup bytes_order id current) (last_of id entries)
            (GoMap.lookup bytes_order id lookup) (held t id) (held (replay t puts) id)
            (lookup-add_entries id entries [] ∙ ground (arith, Option-cases (last_of id entries)))
            agree (held-put_changed current lookup t id (add_entries-IsKeyed entries [] (tt, tt))))

  -- The records that a merge puts are of the type of its entries.
  type-put_changed :
      (current m : Entries) → All (λ r. r.type ≡ url) (put_changed (λ e. some (P e)) current m).0
  unfolding put_changed
  type-put_changed current [] = tt
  type-put_changed current ((k, e) ∷ m) = ground (arith, type-put_changed current m, typed e)

  type-put_deleted :
      (with_data : Bool) (now : Entry → ℤ) (lookup current : Entries)
      → All (λ r. r.type ≡ url) (put_deleted (λ e. some (P e)) with_data now lookup current)
  unfolding put_deleted
  type-put_deleted with_data now lookup [] = tt
  type-put_deleted with_data now lookup ((k, e) ∷ current) =
      ground (arith, type-put_deleted with_data now lookup current, typed e)

  type-append :
      (l k : List Record)
      → All (λ r. r.type ≡ url) l
      → All (λ r. r.type ≡ url) k
      → All (λ r. r.type ≡ url) (l ++ k)
  type-append [] k h j = j
  type-append (r ∷ l) k h j = (h.0, type-append l k h.1 j)

  type-merge :
      (with_data : Bool) (now : Entry → ℤ) (current : Entries) (entries : List Entry)
      → All (λ r. r.type ≡ url) (merge (λ e. some (P e)) with_data now current entries)
  unfolding merge
  type-merge with_data now current entries =
      let lookup = add_entries entries [] in
      rw (finished current lookup) (
        type-append (put_changed (λ e. some (P e)) current lookup).0
          (put_deleted (λ e. some (P e)) with_data now lookup current)
          (type-put_changed current lookup) (type-put_deleted with_data now lookup current))

-- Records of one type leave those of another alone.
lookup-replay :
    (t : GoMap RecordKey Record) (l : List Record) (url type id : Bytes)
    → All (λ r. r.type ≡ type) l
    → url ≢ type
    → GoMap.lookup key_order (url, id) (replay t l) ≡ GoMap.lookup key_order (url, id) t
unfolding replay
lookup-replay t [] url type id h other = refl
lookup-replay t (r ∷ l) url type id h other =
    lookup-replay (put_lookup r t) l url type id h.1 other
    ∙ lookup-put_lookup r (url, id) t
    ∙ ground (arith, h.0, same→eq key_order (url, id) (key_of r))

-- Where messages of two types are packed without error and unpacked as they were: after a refresh of
-- the directory that succeeds, a table that held what the manager has holds every group and every
-- user of the answer under its id, the last of those that share one, and no other group or user.
pub held-refresh_directory :
    (G U : Entry → Any) (group user : Bytes) (unpack : Option Any → Option Entry) (now : Entry → ℤ)
    (groups users : Entries) (new_groups new_users : List Entry) (t : GoMap RecordKey Record)
    (id : Bytes)
    → ((e : Entry) → ((G e).type_url ≡ group) × ((U e).type_url ≡ user))
    → ((e : Entry) → (unpack (some (G e)) ≡ some e) × (unpack (some (U e)) ≡ some e))
    → group ≢ user
    → IsKeyed groups
    → IsKeyed users
    → message_of unpack (GoMap.lookup key_order (group, id) t) ≡ GoMap.lookup bytes_order id groups
    → message_of unpack (GoMap.lookup key_order (user, id) t) ≡ GoMap.lookup bytes_order id users
    → let t' = replay t (
        refresh_directory
          (λ e. some (G e))
          (λ e. some (U e))
          now
          groups
          users
          (some (new_groups, new_users))) in
      (message_of unpack (GoMap.lookup key_order (group, id) t') ≡ last_of id new_groups)
      × (message_of unpack (GoMap.lookup key_order (user, id) t') ≡ last_of id new_users)
unfolding refresh_directory
held-refresh_directory G U group user unpack now groups users new_groups new_users t id typed
      unpacked differ kg ku ag au =
    let first = merge (λ e. some (G e)) false now groups new_groups in
    let second = merge (λ e. some (U e)) true now users new_users in
    let t1 = replay t first in
    let whole = replay-append t first second in
    (
      ap (λ x. message_of unpack (GoMap.lookup key_order (group, id) x)) whole
          ∙ ap (message_of unpack) (
              lookup-replay t1 second group user id
                (type-merge U user unpack (λ e. (typed e).1) (λ e. (unpacked e).1) true now users
                  new_users)
                differ)
          ∙ held-merge G group unpack (λ e. (typed e).0) (λ e. (unpacked e).0) false now groups
              new_groups t id kg ag,
      ap (λ x. message_of unpack (GoMap.lookup key_order (user, id) x)) whole
          ∙ held-merge U user unpack (λ e. (typed e).1) (λ e. (unpacked e).1) true now users
              new_users t1 id ku
              (ap (message_of unpack) (
                  lookup-replay t first user group id
                    (type-merge G group unpack (λ e. (typed e).0) (λ e. (unpacked e).0) false now
                      groups new_groups)
                    (λ e. differ (sym e)))
                ∙ au),
    )
