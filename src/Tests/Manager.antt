-- ===== src/Tests/Manager.antt =====
-- The identity manager's loop and its directory.
use pomerium.Prelude.{
  ◌+◌, ◌+ℤ◌, ℤ, pos, ltb_ℤ, List, Bytes, ◌≡◌, refl, ◌++◌, [], ◌∷◌, Option, none, some, arith,
  length, take, drop, bytes_lt, true, false,
}
use pomerium.BTree.{listed}
use pomerium.GoMap
use pomerium.GoMap.{GoMap}
use pomerium.Strings.{codes, bytes_eq}
use pomerium.Strings.Splitting.{take-length-append, drop-length-append}
use pomerium.Scheduler
use pomerium.Scheduler.{less_by_time, less_by_key, max_time, new, Scheduler}
use pomerium.Scheduler.Laws.{due, due-add, add-IsSynced, new-IsSynced, IsSynced}
use pomerium.Storage.{Any, Record}
use pomerium.Storage.InMemory.{RecordKey, key_order}
use pomerium.Storage.InMemory.History.{replay}
use pomerium.Authorize.Store.Mirror.{message_of}
use pomerium.Identity.Manager.{Manager}
use pomerium.Identity.Manager.Directory.{
  on_update_entry, Entry, Entries, updated, refresh_directory,
}
use pomerium.Identity.Manager.Directory.Merging.{held-refresh_directory}
use pomerium.Identity.Manager.Loop.{
  Refreshed, refresh_sessions, DirectoryMessages, LoopState, Readings, from_timer, round,
  refresh_groups, refresh_due, refresh_users, receive, on_update_records, on_clear, on_record,
}
use pomerium.Identity.Manager.Loop.Run.{rounds, start}
use pomerium.Identity.Manager.Loop.Sessions.{refresh_sessions_ends, HoldsDue}
use pomerium.Tests.Identity.{trees, manager, config, env, messages}

-- A message is packed as the length of its id, the id, a separator and the rest.
abbrev packed : Bytes → Entry → Any
packed url e = record { type_url = url; value = length e.id ∷ (e.id ++ 0 ∷ e.rest) }

abbrev unpack : Option Any → Option Entry
unpack none = none
unpack (some a) = elim a.value [
  | [] ↦ none
  | n ∷ v ↦ some (record { id = take n v; rest = drop (n + 1) v })
]

unpacked : (url : Bytes) (e : Entry) → unpack (some (packed url e)) ≡ some e
unpacked url e =
    ground (arith, take-length-append e.id (0 ∷ e.rest), drop-length-append e.id e.rest 0)

abbrev old_group : Entry
old_group = record { id = codes "g"; rest = codes "old" }

abbrev new_group : Entry
new_group = record { id = codes "h"; rest = codes "new" }

abbrev groups : Entries
groups = (codes "g", old_group) ∷ []

abbrev table : GoMap RecordKey Record
table = ((codes "group", codes "g"), updated (packed (codes "group") old_group) old_group) ∷ []

held-refresh_directory_example :
    let t = replay table (
      refresh_directory
        (λ e. some (packed (codes "group") e))
        (λ e. some (packed (codes "user") e))
        (λ e. pos 7)
        groups
        []
        (some (new_group ∷ [], []))) in
    (message_of unpack (GoMap.lookup key_order (codes "group", codes "g") t) ≡ none)
    × (message_of unpack (GoMap.lookup key_order (codes "user", codes "g") t) ≡ none)
unfolding bytes_lt GoMap.lookup
held-refresh_directory_example =
    held-refresh_directory (packed (codes "group")) (packed (codes "user")) (codes "group")
      (codes "user") unpack (λ e. pos 7) groups [] (new_group ∷ []) [] table (codes "g")
      (λ e. (refl, refl)) (λ e. (unpacked (codes "group") e, unpacked (codes "user") e)) (λ e. cc)
      ((refl, tt), (tt, tt)) (tt, tt) refl refl

-- One session is due.
abbrev key : Bytes
key = codes "okta/1|s"

abbrev due_manager : Manager trees
due_manager = record manager { session_scheduler = Scheduler.add new (pos 40) key }

holds_due : HoldsDue (pos 50) due_manager.session_scheduler (key ∷ [])
unfolding due new
holds_due j t d n =
    ground
      (arith, d, due-add (new {T = listed less_by_time} {K = listed less_by_key}) (pos 40) key j)

refresh_sessions_ends_example :
    (r : Refreshed trees) × (refresh_sessions 2 due_manager config env (pos 50) (λ i. pos (60 + i))
      ≡ some r)
    × IsSynced r.0.0.session_scheduler
    × (ltb_ℤ (pos 50) r.1 ≡ true)
    × ((j : Bytes) (t : ℤ) → due r.0.0.session_scheduler j ≡ some t → ltb_ℤ t r.1 ≡ false)
refresh_sessions_ends_example =
    refresh_sessions_ends config (pos 50) refl 2 due_manager env (λ i. pos (60 + i)) (key ∷ []) refl
      (λ i. omega arith) (add-IsSynced new (pos 40) key new-IsSynced) holds_due (omega arith)

-- A snapshot with a group, and then a round after the timer fires.
abbrev group_messages : DirectoryMessages
group_messages = record {
  group_type = codes "group";
  directory_user_type = codes "directory user";
  unmarshal_group = unpack;
  unmarshal_directory_user = unpack;
  pack_group = λ e. some (packed (codes "group") e);
  pack_directory_user = λ e. some (packed (codes "directory user") e);
}

abbrev readings : Readings
readings = record {
  received_at = λ i. pos 45;
  now = pos 50;
  deleted_at = λ e. pos 51;
  user_groups = none;
  session_clock = λ i. pos 52;
  user_clock = λ i j. pos 53;
}

abbrev at_first : LoopState trees
at_first = record {
  manager = manager;
  directory_groups = groups;
  directory_users = [];
  directory_next_refresh = pos 0;
}

abbrev snapshot : List Record
snapshot = updated (packed (codes "group") new_group) new_group ∷ []

abbrev after_round : LoopState trees
after_round = record {
  manager = record manager { sessions = [] };
  directory_groups = (codes "h", new_group) ∷ [];
  directory_users = [];
  directory_next_refresh = pos 59;
}

ran :
    rounds 1 config messages group_messages env
      ((readings, from_timer) ∷ [])
      (start config messages group_messages (λ i. pos 44) snapshot (pos 45) at_first).0
    ≡ some after_round
unfolding rounds start round refresh_groups refresh_due refresh_sessions refresh_users
    Scheduler.next new receive on_update_records on_clear on_record bytes_eq on_update_entry
    GoMap.insert ◌+ℤ◌
ran = refl
