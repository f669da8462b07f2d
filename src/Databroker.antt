-- ===== src/Databroker.antt =====
-- pkg/grpc/databroker/databroker.go: user ids, paging of query results, and the client's initial
-- sync.
pub mod UserId
pub mod Paging
pub mod Syncer
pub mod Server
use pomerium.Prelude.{
  ℕ, suc, ◌-◌, ℤ, pos, negsuc, Bytes, Bool, true, false, List, [], ◌∷◌, ◌++◌, Option, none, some,
  ltb, leb, length, take, drop, if◌then◌else◌,
}
use pomerium.Storage.{Record, Result, ok, err}
use pomerium.Strings.{index_byte}

-- '/'
abbrev pub slash : ℕ
slash = b'/'

pub get_user_id : Bytes → Bytes → Bytes
get_user_id provider provider_user_id = provider ++ slash ∷ provider_user_id

-- strings.SplitN(userID, "/", 2) has two parts exactly if there is a slash.
pub from_user_id : Bytes → Bytes × Bytes
from_user_id user_id = elim (index_byte user_id slash) [
  | none ↦ ([], user_id)
  | some i ↦ (take i user_id, drop (suc i) user_id)
]

-- all[offset:] and records[:limit]; `none` is the panic of a negative bound.
apply_offset : List Record → ℤ → Option (List Record)
apply_offset all (negsuc n) = none
apply_offset all (pos offset) = some (if ltb offset (length all) then drop offset all else [])

apply_limit : List Record → ℤ → Option (List Record)
apply_limit records (negsuc n) = none
apply_limit records (pos limit) =
    some (if leb limit (length records) then take limit records else records)

with_count : ℕ → Option (List Record) → Option (List Record × ℕ)
with_count n none = none
with_count n (some records) = some (records, n)

limited : List Record → ℤ → Option (List Record) → Option (List Record × ℕ)
unfolding apply_limit with_count
limited all limit none = none
limited all limit (some records) = with_count (length all) (apply_limit records limit)

unfoldable pub apply_offset_and_limit : List Record → ℤ → ℤ → Option (List Record × ℕ)
unfolding apply_offset limited
apply_offset_and_limit all offset limit = limited all limit (apply_offset all offset)

-- What the SyncLatest stream gives: a record, the versions, its end or an error.
pub data Latest : Type 0 where
  latest_record : Record → Latest
  latest_versions : ℕ → ℕ → Latest
  latest_eof : Latest
  latest_error : Latest

pub data RpcError : Type 0 where
  rpc_failed : RpcError

pub record Snapshot : Type 0 where
  pub records : List Record
  pub record_version : ℕ
  pub server_version : ℕ

-- The loop of InitialSync; `none` while the stream has not ended.
unfoldable pub receive_latest : Snapshot → List Latest → Option (Result RpcError Snapshot)
receive_latest s [] = none
receive_latest s (latest_eof ∷ l) = some (ok s)
receive_latest s (latest_error ∷ l) = some (err rpc_failed)
receive_latest s (latest_versions server latest ∷ l) =
    receive_latest (record s { record_version = latest; server_version = server }) l
receive_latest s (latest_record r ∷ l) =
    receive_latest (record s { records = s.records ++ r ∷ [] }) l

unfoldable pub initial_sync : List Latest → Option (Result RpcError Snapshot)
unfolding receive_latest
initial_sync = receive_latest (record { records = []; record_version = 0; server_version = 0 })
