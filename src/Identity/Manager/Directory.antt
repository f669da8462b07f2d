-- ===== src/Identity/Manager/Directory.antt =====
-- The directory's groups and users in manager.go of internal/identity/manager: refreshing them and
-- taking in their records. The puts of a merge run side by side; they are the list of the records
-- that are put, and none of them fails. Packing a message into an Any and the directory are arguments.
pub mod Keyed
pub mod Merging
use pomerium.Prelude.{
  ℤ, Bytes, bytes_order, Bool, true, false, ◌&&◌, List, [], ◌∷◌, ◌++◌, Option, none, some,
  if◌then◌else◌,
}
use pomerium.GoMap
use pomerium.GoMap.{GoMap}
use pomerium.Strings.{bytes_eq}
use pomerium.Storage.{Any, Record}

-- A message directory.Group or directory.User: its Id, and the rest of it as bytes.
pub record Entry : Type 0 where
  pub id : Bytes
  pub rest : Bytes

-- proto.Equal
abbrev pub entry_eq : Entry → Entry → Bool
entry_eq a b = bytes_eq a.id b.id && bytes_eq a.rest b.rest

abbrev pub Entries : Type 0
Entries = GoMap Bytes Entry

-- `lookup` of mergeGroups and mergeUsers
unfoldable pub add_entries : List Entry → Entries → Entries
add_entries [] lookup = lookup
add_entries (e ∷ l) lookup = add_entries l (GoMap.insert bytes_order e.id e lookup)

abbrev pub is_same : Option Entry → Entry → Bool
is_same none new = false
is_same (some current) new = entry_eq new current

abbrev pub is_there : Option Entry → Bool
is_there none = false
is_there (some e) = true

-- A put of a new or changed entry.
abbrev pub updated : Any → Entry → Record
updated any e = record {
  version = 0;
  type = any.type_url;
  id = e.id;
  payload = some any;
  modified_at = none;
  deleted_at = none;
}

-- A put that deletes an entry: with data for a user, and without for a group. `now` gives the time at
-- which each is made.
abbrev pub deleted : Bool → (Entry → ℤ) → Any → Entry → Record
deleted with_data now any e = record {
  version = 0;
  type = any.type_url;
  id = e.id;
  payload = if with_data then some any else none;
  modified_at = none;
  deleted_at = some (now e);
}

-- The first loop of a merge, over the new entries: what it puts, and whether it came to its end.
unfoldable pub put_changed : (Entry → Option Any) → Entries → Entries → List Record × Bool
put_changed pack current [] = ([], true)
put_changed pack current ((id, new) ∷ lookup) =
    let (puts, finished) = put_changed pack current lookup in
    elim (pack new) [
      | none ↦
          if is_same (GoMap.lookup bytes_order id current) new
          then (puts, finished)
          else ([], false)
      | some any ↦
          if is_same (GoMap.lookup bytes_order id current) new
          then (puts, finished)
          else (updated any new ∷ puts, finished)
    ]

-- The second loop, over the current entries.
unfoldable pub put_deleted :
    (Entry → Option Any) → Bool → (Entry → ℤ) → Entries → Entries → List Record
put_deleted pack with_data now lookup [] = []
put_deleted pack with_data now lookup ((id, old) ∷ current) =
    let puts = put_deleted pack with_data now lookup current in
    if is_there (GoMap.lookup bytes_order id lookup)
    then puts
    else elim (pack old) [ none ↦ [] | some any ↦ deleted with_data now any old ∷ puts ]

-- mergeGroups, and with data in the deletions mergeUsers
unfoldable pub merge :
    (Entry → Option Any) → Bool → (Entry → ℤ) → Entries → List Entry → List Record
unfolding add_entries put_changed put_deleted
merge pack with_data now current entries =
    let lookup = add_entries entries [] in
    let (puts, finished) = put_changed pack current lookup in
    if finished then puts ++ put_deleted pack with_data now lookup current else puts

-- refreshDirectoryUserGroups, on what UserGroups of the directory gives
unfoldable pub refresh_directory :
    (Entry → Option Any)
    → (Entry → Option Any)
    → (Entry → ℤ)
    → Entries
    → Entries
    → Option (List Entry × List Entry)
    → List Record
unfolding merge
refresh_directory pack_group pack_user now groups users none = []
refresh_directory pack_group pack_user now groups users (some (new_groups, new_users)) =
    merge pack_group false now groups new_groups ++ merge pack_user true now users new_users

-- onUpdateDirectoryGroup and onUpdateDirectoryUser
unfoldable pub on_update_entry : Entries → Entry → Entries
on_update_entry entries e = GoMap.insert bytes_order e.id e entries
