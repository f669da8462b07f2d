-- ===== src/Tests/Redis.antt =====
-- A redis server after two puts, whole and with its first change expired.
use mathlib.Core.Option.{some-injective}
use pomerium.Prelude.{
  Bool-cases, inl, inr, ℕ, zero, suc, ◌<◌, ℤ, pos, Bytes, bytes_lt, bytes_order, same, true, false,
  ◌≡◌, ◌≢◌, ◌⊎◌, refl, sym, ap, List, [], ◌∷◌, ◌++◌, map, Option, none, some, All, arith, drop, ltb,
  if◌then◌else◌,
}
use pomerium.Strings.{bytes_eq}
use pomerium.Strings.Splitting.{bytes_eq_refl, bytes_eq→eq}
use pomerium.GoMap.{GoMap, lookup, insert, delete, lookup-insert, lookup-delete}
use pomerium.Storage.{Any, Record, ok}
use pomerium.Storage.Redis.{
  Redis, Codec, Command, RedisError, tx_failed, exceeded_max_retries, hash_delete, hash_set,
  add_change, set_version, publish, put_commands, get, increment_version, hash_field,
}
use pomerium.Storage.Redis.Log.{IsLog, entry_after, scored}
use pomerium.Storage.Redis.Clients.{
  Event, attempted, looked, removed, run_events, none_found, run_events-IsLog,
}
use pomerium.Storage.Redis.Streaming.{
  get-latest, deliveries, deliveries-drop, deliveries_behind, stream_at,
}
use pomerium.Storage.Redis.Retries.{IsContended, Ends, increment_version-cases}

record Server : Type 0 where
  version : Option ℕ
  hash : GoMap Bytes Bytes
  sorted_set : List (ℕ × Bytes)

-- A member behind those with a lower score.
place : ℕ → Bytes → List (ℕ × Bytes) → List (ℕ × Bytes)
place n b [] = (n, b) ∷ []
place n b (x ∷ l) = let rest = place n b l in if ltb x.0 n then x ∷ rest else (n, b) ∷ (x ∷ l)

place_last :
    (n : ℕ) (b : Bytes) (l : List (ℕ × Bytes))
    → All (λ x. (x.0 < n) × (x.1 ≢ b)) l
    → place n b l ≡ l ++ (n, b) ∷ []
unfolding place
place_last n b [] all = refl
place_last n b (x ∷ l) (h, all) = ground (arith, h.0, place_last n b l all)

abbrev run_command : Command → Server → Server
run_command (hash_delete f) s = record s { hash = delete bytes_order f s.hash }
run_command (hash_set f b) s = record s { hash = insert bytes_order f b s.hash }
run_command (add_change n b) s = record s { sorted_set = place n b s.sorted_set }
run_command (set_version v) s = record s { version = some v }
run_command (publish v) s = s

-- ZREM of a member
remove_member : Bytes → List (ℕ × Bytes) → List (ℕ × Bytes)
remove_member b [] = []
remove_member b (x ∷ l) = let rest = remove_member b l in if bytes_eq x.1 b then l else x ∷ rest

remove_member_first :
    (n : ℕ) (b : Bytes) (c l : List (ℕ × Bytes)) → c ≡ (n, b) ∷ l → remove_member b c ≡ l
unfolding remove_member
remove_member_first n b c l e = rw (e, bytes_eq_refl b) refl

remove_member_absent :
    (b : Bytes) (l : List (ℕ × Bytes)) → All (λ x. x.1 ≢ b) l → remove_member b l ≡ l
unfolding remove_member
remove_member_absent b [] all = refl
remove_member_absent b (x ∷ l) (h, all) = elim (Bool-cases (bytes_eq x.1 b)) [
  | inl e ↦ absurd (h (bytes_eq→eq x.1 b e))
  | inr e ↦ rw (e, remove_member_absent b l all) refl
]

version_after :
    (c : Command) (s : Server)
    → (run_command c s).version ≡ elim c as (λ c. Option ℕ) [
      | hash_delete f ↦ s.version
      | hash_set f b ↦ s.version
      | add_change n b ↦ s.version
      | set_version v ↦ some v
      | publish v ↦ s.version
    ]
version_after (hash_delete f) s = refl
version_after (hash_set f b) s = refl
version_after (add_change n b) s = refl
version_after (set_version v) s = refl
version_after (publish v) s = refl

hash_after :
    (f : Bytes) (c : Command) (s : Server)
    → lookup bytes_order f (run_command c s).hash ≡ elim c as (λ c. Option Bytes) [
      | hash_delete g ↦ if same bytes_order f g then none else lookup bytes_order f s.hash
      | hash_set g b ↦ if same bytes_order f g then some b else lookup bytes_order f s.hash
      | add_change n b ↦ lookup bytes_order f s.hash
      | set_version v ↦ lookup bytes_order f s.hash
      | publish v ↦ lookup bytes_order f s.hash
    ]
hash_after f (hash_delete g) s = lookup-delete bytes_order g f s.hash
hash_after f (hash_set g b) s = lookup-insert bytes_order g f b s.hash
hash_after f (add_change n b) s = refl
hash_after f (set_version v) s = refl
hash_after f (publish v) s = refl

abbrev redis : Redis
redis = record {
  State = Server;
  get_version = λ s. s.version;
  hash_get = λ f s. lookup bytes_order f s.hash;
  hash_values = λ s. map (λ e. e.1) s.hash;
  changes = λ s. s.sorted_set;
  run = run_command;
  remove_change = λ b s. record s { sorted_set = remove_member b s.sorted_set };
  get_version-run = version_after;
  hash_get-run = hash_after;
  changes-hash_delete = λ f s. refl;
  changes-hash_set = λ f b s. refl;
  changes-set_version = λ v s. refl;
  changes-publish = λ v s. refl;
  changes-add_change = λ n b s fits all. place_last n b s.sorted_set all;
  get_version-remove = λ b s. refl;
  hash_get-remove = λ f b s. refl;
  changes-remove = λ n b l s e. remove_member_first n b s.sorted_set l e;
  changes-remove_absent = λ b s all. remove_member_absent b s.sorted_set all;
}

abbrev record_of : ℕ → ℕ → ℕ → ℕ → Record
record_of v now type id = record {
  version = v;
  type = type ∷ [];
  id = id ∷ [];
  payload = none;
  modified_at = some (pos now);
  deleted_at = none;
}

-- The records whose type and id are of one byte, and that have a time but no data.
abbrev marshal_parts : ℕ → Bytes → Bytes → Option Any → Option ℤ → Option ℤ → Option Bytes
marshal_parts v (t ∷ []) (i ∷ []) none (some (pos now)) none = some (v ∷ now ∷ t ∷ i ∷ [])
marshal_parts _ _ _ _ _ _ = none

abbrev unmarshal : Bytes → Option Record
unmarshal (v ∷ now ∷ t ∷ i ∷ []) = some (record_of v now t i)
unmarshal _ = none

unmarshal-marshal_parts :
    (v : ℕ) (type id : Bytes) (payload : Option Any) (modified deleted : Option ℤ) (b : Bytes)
    → marshal_parts v type id payload modified deleted ≡ some b
    → unmarshal b
      ≡ some (record {
        version = v;
        type = type;
        id = id;
        payload = payload;
        modified_at = modified;
        deleted_at = deleted;
      })
unmarshal-marshal_parts v (t ∷ []) (i ∷ []) none (some (pos now)) none b h =
    ap unmarshal (sym (some-injective _ _ h))
unmarshal-marshal_parts v _ _ _ _ _ b h = cc

abbrev codec : Codec
codec = record {
  marshal = λ r. marshal_parts r.version r.type r.id r.payload r.modified_at r.deleted_at;
  unmarshal = unmarshal;
  unmarshal-marshal =
      λ r. unmarshal-marshal_parts r.version r.type r.id r.payload r.modified_at r.deleted_at;
}

abbrev empty_server : Server
empty_server = record { version = none; hash = []; sorted_set = [] }

empty-IsLog : IsLog redis codec [] empty_server
unfolding lookup entry_after scored
empty-IsLog = record {
  gone = 0;
  gone_le = omega arith;
  numbered = tt;
  marshalled = tt;
  count = refl;
  current = λ f. refl;
  retained = refl;
}

-- Two clients read no version; the first is committed, the second reads again; two clients
-- find the first change to be old, and both remove it.
abbrev events : List Event
events =
    attempted (record_of 0 0 7 8) (pos 10) none true
    ∷ attempted (record_of 0 0 7 9) (pos 11) none false
    ∷ attempted (record_of 0 0 7 9) (pos 12) (some 1) true
    ∷ looked 1 (pos 11)
    ∷ looked 2 (pos 11)
    ∷ removed 1
    ∷ removed 2
    ∷ []

abbrev log : List Record
log = record_of 1 10 7 8 ∷ record_of 2 12 7 9 ∷ []

abbrev after_events : Server
after_events = (run_events redis codec events (empty_server, none_found)).0

run_events-IsLog_example : IsLog redis codec log after_events
unfolding put_commands
run_events-IsLog_example =
    run_events-IsLog redis codec events [] empty_server (omega arith) (refl, (refl, tt)) empty-IsLog

abbrev trimmed : Server
trimmed = record {
  version = some 2;
  hash = (7 ∷ 47 ∷ 9 ∷ [], 2 ∷ 12 ∷ 7 ∷ 9 ∷ []) ∷ (7 ∷ 47 ∷ 8 ∷ [], 1 ∷ 10 ∷ 7 ∷ 8 ∷ []) ∷ [];
  sorted_set = (2, 2 ∷ 12 ∷ 7 ∷ 9 ∷ []) ∷ [];
}

trimmed_entry : (f : Bytes) → lookup bytes_order f trimmed.hash ≡ entry_after codec f none log
unfolding lookup entry_after hash_field bytes_lt
trimmed_entry f = refl

trimmed_changes : trimmed.sorted_set ≡ drop 1 (scored codec log)
unfolding scored
trimmed_changes = refl

abbrev trimmed-IsLog : IsLog redis codec log trimmed
trimmed-IsLog = record {
  gone = 1;
  gone_le = omega arith;
  numbered = (refl, (refl, tt));
  marshalled = (refl, (refl, tt));
  count = refl;
  current = trimmed_entry;
  retained = trimmed_changes;
}

get-latest_example : get redis codec trimmed (7 ∷ []) (9 ∷ []) ≡ ok (record_of 2 12 7 9)
unfolding hash_field bytes_lt
get-latest_example = get-latest redis codec log trimmed (7 ∷ []) (9 ∷ []) trimmed-IsLog

deliveries-drop_example :
    deliveries redis codec 3 (stream_at redis codec 1 none) trimmed ≡ some (record_of 2 12 7 9) ∷ []
deliveries-drop_example =
    deliveries-drop redis codec 3 log trimmed 1 none trimmed-IsLog (omega arith) (omega arith)
      (omega arith)

deliveries_behind_example :
    deliveries redis codec 4 (stream_at redis codec 0 none) trimmed
    ≡ some (record_of 2 12 7 9) ∷ some (record_of 2 12 7 9) ∷ []
deliveries_behind_example =
    deliveries_behind redis codec 1 3 log trimmed 0 none (record_of 2 12 7 9) [] trimmed-IsLog
      (omega arith) refl (omega arith) (omega arith)

-- The first round is lost, the second is successful.
abbrev watch : ℕ → Option RedisError
watch zero = some tx_failed
watch (suc i) = none

abbrev never : ℕ → Option RedisError
never i = none

increment_version-cases_example :
    ((k : ℕ) × (k < 100)
      × IsContended watch never 0 k
      × Ends watch never k (increment_version watch never))
    ⊎ (IsContended watch never 0 100 × (increment_version watch never ≡ some exceeded_max_retries))
increment_version-cases_example = increment_version-cases watch never
