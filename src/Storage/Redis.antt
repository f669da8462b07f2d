-- ===== src/Storage/Redis.antt =====
-- pkg/storage/redis (redis.go, stream.go): the backend on a redis server. The server, protobuf and the
-- faults of the connection are arguments; `time.Now()` is one as well.
pub mod Log
pub mod Oldest
pub mod Clients
pub mod Retries
pub mod Streaming
use pomerium.Prelude.{
  ℕ, zero, suc, ◌+◌, ◌%◌, ◌^◌, ◌<◌, ℤ, Bytes, bytes_order, same, Bool, true, false, ◌≡◌, ◌≢◌, List,
  [], ◌∷◌, ◌++◌, Option, none, some, All, ltb, ltb_ℤ, if◌then◌else◌,
}
use pomerium.Strings.{codes}
use pomerium.Storage.{Record, Result, ok, err, as_time}

pub data RedisError : Type 0 where
  not_found redis_nil tx_failed exceeded_max_retries canceled : RedisError
  marshal_failed unmarshal_failed connection_failed : RedisError

-- The commands of a transaction; the keys are those of the program.
pub data Command : Type 0 where
  hash_delete : Bytes → Command
  hash_set : Bytes → Bytes → Command
  add_change : ℕ → Bytes → Command
  set_version publish : ℕ → Command

abbrev pub first_above : ℕ → List (ℕ × Bytes) → Option Bytes
first_above v [] = none
first_above v ((score, member) ∷ l) = if ltb v score then some member else first_above v l

abbrev pub first_member : List (ℕ × Bytes) → Option Bytes
first_member [] = none
first_member (x ∷ l) = some x.1

-- A redis server: the last version, the hash of the records and the sorted set of the changes, with
-- the documented effect of the commands on each. A score is a float64, which keeps whole numbers
-- exactly below 2⁵³; of ZADD with a greater one nothing is said.
pub record Redis : Type 1 where
  pub State : Type 0
  pub get_version : State → Option ℕ
  pub hash_get : Bytes → State → Option Bytes
  pub hash_values : State → List Bytes
  pub changes : State → List (ℕ × Bytes)
  pub run : Command → State → State
  pub remove_change : Bytes → State → State
  pub get_version-run :
      (c : Command) (s : State)
      → get_version (run c s) ≡ elim c as (λ c. Option ℕ) [
        | hash_delete f ↦ get_version s
        | hash_set f b ↦ get_version s
        | add_change n b ↦ get_version s
        | set_version v ↦ some v
        | publish v ↦ get_version s
      ]
  pub hash_get-run :
      (f : Bytes) (c : Command) (s : State)
      → hash_get f (run c s) ≡ elim c as (λ c. Option Bytes) [
        | hash_delete g ↦ if same bytes_order f g then none else hash_get f s
        | hash_set g b ↦ if same bytes_order f g then some b else hash_get f s
        | add_change n b ↦ hash_get f s
        | set_version v ↦ hash_get f s
        | publish v ↦ hash_get f s
      ]
  pub changes-hash_delete : (f : Bytes) (s : State) → changes (run (hash_delete f) s) ≡ changes s
  pub changes-hash_set : (f b : Bytes) (s : State) → changes (run (hash_set f b) s) ≡ changes s
  pub changes-set_version : (v : ℕ) (s : State) → changes (run (set_version v) s) ≡ changes s
  pub changes-publish : (v : ℕ) (s : State) → changes (run (publish v) s) ≡ changes s
  pub changes-add_change :
      (n : ℕ) (b : Bytes) (s : State)
      → n < 2 ^ 53
      → All (λ x. (x.0 < n) × (x.1 ≢ b)) (changes s)
      → changes (run (add_change n b) s) ≡ changes s ++ (n, b) ∷ []
  pub get_version-remove : (b : Bytes) (s : State) → get_version (remove_change b s) ≡ get_version s
  pub hash_get-remove : (f b : Bytes) (s : State) → hash_get f (remove_change b s) ≡ hash_get f s
  pub changes-remove :
      (n : ℕ) (b : Bytes) (l : List (ℕ × Bytes)) (s : State)
      → changes s ≡ (n, b) ∷ l
      → changes (remove_change b s) ≡ l
  pub changes-remove_absent :
      (b : Bytes) (s : State)
      → All (λ x. x.1 ≢ b) (changes s)
      → changes (remove_change b s) ≡ changes s

-- proto.Marshal and proto.Unmarshal of a record
pub record Codec : Type 0 where
  pub marshal : Record → Option Bytes
  pub unmarshal : Bytes → Option Record
  pub unmarshal-marshal : (r : Record) (b : Bytes) → marshal r ≡ some b → unmarshal b ≡ some r

-- getHashKey's field
unfoldable pub hash_field : Bytes → Bytes → Bytes
hash_field type id = type ++ codes "/" ++ id

abbrev pub field_of : Record → Bytes
field_of r = hash_field r.type r.id

abbrev pub read_or_zero : Option ℕ → ℕ
read_or_zero none = 0
read_or_zero (some v) = v

-- version++ in incrementVersion, of the version that was read
abbrev pub next_version : Option ℕ → ℕ
next_version read = (read_or_zero read + 1) % 2 ^ 64

-- What Put's query makes of the record.
abbrev pub stored : ℤ → Option ℕ → Record → Record
stored now read r = record r { modified_at = some now; version = next_version read }

abbrev pub field_command : Option ℤ → Bytes → Bytes → Command
field_command (some deleted) f bs = hash_delete f
field_command none f bs = hash_set f bs

-- What Put's commit and incrementVersion queue for EXEC.
abbrev pub commands_for : Record → Option Bytes → Option (List Command)
commands_for r none = none
commands_for r (some bs) = some (
    field_command r.deleted_at (field_of r) bs
    ∷ add_change r.version bs
    ∷ set_version r.version
    ∷ publish r.version
    ∷ [])

unfoldable pub put_commands : Codec → ℤ → Option ℕ → Record → Option (List Command)
unfolding hash_field
put_commands C now read r = commands_for (stored now read r) (C.marshal (stored now read r))

module _ (R : Redis) where
  abbrev pub run_all : List Command → R.State → R.State
  run_all [] s = s
  run_all (c ∷ cs) s = run_all cs (R.run c s)

  module _ (C : Codec) where
    abbrev pub decoded : Option Record → Result RedisError Record
    decoded none = err unmarshal_failed
    decoded (some r) = ok r

    abbrev pub read_raw : Option Bytes → Result RedisError Record
    read_raw none = err not_found
    read_raw (some raw) = decoded (C.unmarshal raw)

    -- Get, where the command does not fail otherwise
    unfoldable pub get : R.State → Bytes → Bytes → Result RedisError Record
    unfolding hash_field
    get s type id = read_raw (R.hash_get (hash_field type id) s)

    abbrev pub with_record : Option Record → List Record → List Record
    with_record none records = records
    with_record (some r) records = r ∷ records

    abbrev pub valid_records : List Bytes → List Record
    valid_records [] = []
    valid_records (raw ∷ results) = with_record (C.unmarshal raw) (valid_records results)

    -- GetAll, given what Exec of a pipeline returns where GET finds no key
    unfoldable pub get_all : Option RedisError → R.State → Result RedisError (List Record × ℕ)
    get_all exec_nil s = elim (R.get_version s) [
      | some v ↦ ok (valid_records (R.hash_values s), v)
      | none ↦ elim exec_nil [ some e ↦ err e | none ↦ ok (valid_records (R.hash_values s), 0) ]
    ]

    abbrev pub is_kept : ℤ → Option Record → Bool
    is_kept cutoff none = false
    is_kept cutoff (some r) = ltb_ℤ cutoff (as_time r.modified_at)

    abbrev pub unless_kept : ℤ → Option Bytes → Option Bytes
    unless_kept cutoff none = none
    unless_kept cutoff (some raw) = if is_kept cutoff (C.unmarshal raw) then none else some raw

    -- A round of the loop of removeChangesBefore up to its second command: what is to be removed,
    -- if the loop does not end
    unfoldable pub find_expired : ℤ → R.State → Option Bytes
    find_expired cutoff s = unless_kept cutoff (first_member (R.changes s))

  -- The second command of the round
  unfoldable pub remove_found : Option Bytes → R.State → R.State
  remove_found none s = s
  remove_found (some raw) s = R.remove_change raw s

abbrev pub is_tx_failed : RedisError → Bool
is_tx_failed tx_failed = true
is_tx_failed not_found = false
is_tx_failed redis_nil = false
is_tx_failed exceeded_max_retries = false
is_tx_failed canceled = false
is_tx_failed marshal_failed = false
is_tx_failed unmarshal_failed = false
is_tx_failed connection_failed = false

-- The loop of incrementVersion, given what Watch returns at each round, none where the transaction is
-- successful, and the context's error while it waits after the round.
unfoldable pub retry : ℕ → ℕ → (ℕ → Option RedisError) → (ℕ → Option RedisError) → Option RedisError
retry zero i watch done = some exceeded_max_retries
retry (suc rounds) i watch done =
    let again = retry rounds (suc i) watch done in
    elim (watch i) [
      | none ↦ none
      | some e ↦ if is_tx_failed e then elim (done i) [ some c ↦ some c | none ↦ again ] else some e
    ]

abbrev max_transaction_retries : ℕ
max_transaction_retries = 100

-- incrementVersion
unfoldable pub increment_version :
    (ℕ → Option RedisError) → (ℕ → Option RedisError) → Option RedisError
unfolding retry
increment_version watch done = retry max_transaction_retries 0 watch done

-- A recordStream; the fields record and err are nil at first.
pub record RecordStream : Type 0 where
  pub version : ℕ
  pub latest : Option Record
  pub error : Option RedisError

module _ (R : Redis) (C : Codec) where
  abbrev pub record_or_last : Option Record → Option Record → Option Record
  record_or_last none last = last
  record_or_last (some r) last = some r

  abbrev pub deliver : RecordStream → Option Bytes → Bool × RecordStream
  deliver stream none = (false, stream)
  deliver stream (some raw) = (
    true,
    record {
      version = (stream.version + 1) % 2 ^ 64;
      latest = record_or_last (C.unmarshal raw) stream.latest;
      error = none;
    },
  )

  -- Next(false), given the fault of its command, if it has one
  unfoldable pub next : RecordStream → Option RedisError → R.State → Bool × RecordStream
  next stream fault s = elim stream.error [
    | some e ↦ (false, stream)
    | none ↦ elim fault [
      | some e ↦ (false, record stream { error = some e })
      | none ↦ deliver stream (first_above stream.version (R.changes s))
    ]
  ]
