-- ===== src/Databroker/Syncer.antt =====
-- pkg/grpc/databroker/syncer.go: a client that keeps a handler's copy of the databroker's records
-- up to date. Its calls of the handler are a list; the backoff between the rounds of `Run` is time
-- only and is left out.
pub mod Replica
use pomerium.Prelude.{
  ℕ, ◌+◌, ◌-◌, ◌%◌, ◌^◌, Bytes, Bool, true, false, ◌||◌, List, [], ◌∷◌, ◌++◌, Option, none, some,
  ◌==◌, if◌then◌else◌,
}
use pomerium.Strings.{bytes_eq}
use pomerium.Storage.{Record, Result, ok, err}
use pomerium.Databroker.{RpcError, Latest, Snapshot, initial_sync}

pub record Syncer : Type 0 where
  pub type_url : Bytes
  pub record_version : ℕ
  pub server_version : ℕ

-- ClearRecords and UpdateRecords of the SyncerHandler
pub data HandlerCall : Type 0 where
  clear_records : HandlerCall
  update_records : List Record → HandlerCall

-- How a call of init or sync ends.
pub data Outcome : Type 0 where
  -- it returned nil, an error, or is still receiving
  done failed receiving : Outcome

pub record Round : Type 0 where
  pub syncer : Syncer
  pub calls : List HandlerCall
  pub outcome : Outcome

pub new_syncer : Bytes → Syncer
new_syncer type_url = record { type_url = type_url; record_version = 0; server_version = 0 }

-- init, given what the SyncLatest stream gives
unfoldable pub init : Syncer → List Latest → Round
init s stream = elim (initial_sync stream) [
  | none ↦ record { syncer = s; calls = []; outcome = receiving }
  | some res ↦ elim res [
    | err e ↦ record { syncer = s; calls = []; outcome = failed }
    | ok snapshot ↦ record {
      syncer = record s {
        record_version = snapshot.record_version;
        server_version = snapshot.server_version;
      };
      calls = clear_records ∷ update_records snapshot.records ∷ [];
      outcome = done;
    }
  ]
]

-- What stream.Recv() of Sync gives: the status Aborted, another error, or a record.
pub data Received : Type 0 where
  aborted broken : Received
  received : Record → Received

-- uint64: version - 1
abbrev pub before_version : ℕ → ℕ
before_version v = (v + 2 ^ 64 - 1) % 2 ^ 64

abbrev pub wants : Bytes → Bytes → Bool
wants type_url type = bytes_eq type_url [] || bytes_eq type_url type

unfoldable pub calls_for : Syncer → Record → List HandlerCall
calls_for s r = if wants s.type_url r.type then update_records (r ∷ []) ∷ [] else []

abbrev pub add_calls : List HandlerCall → Round → Round
add_calls calls r = record r { calls = calls ++ r.calls }

-- The loop of sync.
unfoldable pub sync : Syncer → List Received → Round
unfolding calls_for
sync s [] = record { syncer = s; calls = []; outcome = receiving }
sync s (aborted ∷ stream) = record {
  syncer = record s { server_version = 0 };
  calls = [];
  outcome = done;
}
sync s (broken ∷ stream) = record { syncer = s; calls = []; outcome = failed }
sync s (received r ∷ stream) =
    let more = sync (record s { record_version = r.version }) stream in
    if s.record_version == before_version r.version
    then add_calls (calls_for s r) more
    else record { syncer = record s { server_version = 0 }; calls = []; outcome = failed }

-- A round of the loop of Run.
unfoldable pub run_round : Syncer → List Latest → List Received → Round
unfolding init sync
run_round s latest stream = if s.server_version == 0 then init s latest else sync s stream
