-- ===== src/Databroker/Server.antt =====
-- internal/databroker/server.go: the databroker's gRPC service over a storage backend. Every method
-- takes the server's lock where it touches the server's state; logging and tracing are left out.
pub mod Snapshots
pub mod Streaming
pub mod Recovery
use pomerium.Prelude.{
  ℕ, ℤ, Bytes, Bool, ◌||◌, List, [], ◌∷◌, ◌++◌, Option, none, some, if◌then◌else◌,
}
use pomerium.Strings.{codes, bytes_eq}
use pomerium.Storage.{Any, Record, StorageError, not_found, Result, ok, err, StorageBackend}
use pomerium.Databroker.{
  Latest, latest_record, latest_versions, latest_eof, latest_error, apply_offset_and_limit,
}

-- Status codes of the errors that the methods return.
pub data Status : Type 0 where
  status_not_found status_internal status_aborted : Status
  -- an error of the backend, passed on as it is
  status_unknown : StorageError → Status

abbrev pub record_type_server_version : Bytes
record_type_server_version = codes "server_version"

abbrev pub server_version_key : Bytes
server_version_key = codes "version"

-- What the server takes from outside: the message UInt64Value in an Any and out of it, and
-- storage.MatchAny of a record's data, which walks the message by reflection.
pub record Codec : Type 0 where
  pub pack : ℕ → Any
  pub unpack : Any → Option ℕ
  pub match_any : Option Any → Bytes → Bool
  pub to_lower : Bytes → Bytes

-- The record that initVersion puts under a new version.
abbrev pub version_record : Codec → ℕ → Record
version_record c v = record {
  version = 0;
  type = record_type_server_version;
  id = server_version_key;
  payload = some (c.pack v);
  modified_at = none;
  deleted_at = none;
}

-- The version of the record's data, or the old one if it has none of that type.
stored_version : Codec → ℕ → Option Any → ℕ
stored_version c old none = old
stored_version c old (some a) = elim (c.unpack a) [ none ↦ old | some v ↦ v ]

-- The answer to Get, for what the backend's Get gave.
answer_get : ℕ → Result StorageError Record → Result Status (Record × ℕ)
answer_get version (err e) = elim e [ not_found ↦ err status_not_found | _ ↦ err status_internal ]
answer_get version (ok r) = elim r.deleted_at [
  | some t ↦ err status_not_found
  | none ↦ ok (r, version)
]

-- The loop of Query over all the records.
unfoldable pub select : Codec → Bytes → Bytes → List Record → List Record
select c type query [] = []
select c type query (r ∷ l) =
    let others = select c type query l in
    if bytes_eq r.type type
    then (if bytes_eq query [] || c.match_any r.payload query then r ∷ others else others)
    else others

-- The messages of SyncLatest for the records of one type, or of all types.
unfoldable pub latest_of : Bytes → List Record → List Latest
latest_of type [] = []
latest_of type (r ∷ l) =
    let others = latest_of type l in
    if bytes_eq type [] || bytes_eq type r.type then latest_record r ∷ others else others

module _ (S : StorageBackend) where
  pub record Server : Type 0 where
    pub version : ℕ
    pub backend : Option S.State

module _ {S : StorageBackend} where
  -- getBackend and getBackendLocked: `make` is what newBackendLocked gives for the configuration.
  unfoldable pub get_backend :
      Server S → Result StorageError S.State → Result StorageError (S.State × ℕ) × Server S
  get_backend srv make = elim srv.backend [
    | some b ↦ (ok (b, srv.version), srv)
    | none ↦ elim make [
      | ok b ↦ (ok (b, srv.version), record srv { backend = some b })
      | err e ↦ (err e, srv)
    ]
  ]

  create_version : Codec → ℤ → ℕ → S.State → Server S → Server S
  create_version c now random b srv = elim (S.put b now (some (version_record c random))) [
    | ok (r, b') ↦ record { version = random; backend = some b' }
    | err e ↦ record srv { version = random }
  ]

  load_version : Codec → ℤ → ℕ → S.State → Server S → Server S
  unfolding stored_version create_version
  load_version c now random b srv = elim (S.get b record_type_server_version server_version_key) [
    | ok r ↦ record srv { version = stored_version c srv.version r.payload }
    | err e ↦ elim e [ not_found ↦ create_version c now random b srv | _ ↦ srv ]
  ]

  unfoldable pub init_version : Codec → ℤ → ℕ → Result StorageError S.State → Server S → Server S
  unfolding load_version get_backend
  init_version c now random make srv =
      let (res, srv') = get_backend srv make in
      elim res [ err e ↦ srv' | ok (b, v) ↦ load_version c now random b srv' ]

  -- UpdateConfig; `changed` is whether the new configuration differs from the old one. The old
  -- backend comes back closed, since streams of it may still be in use.
  unfoldable pub update_config :
      Codec → ℤ → ℕ → Result StorageError S.State → Bool → Server S → Option S.State × Server S
  unfolding init_version
  update_config c now random make changed srv =
      if changed
      then (
        elim srv.backend [ none ↦ none | some b ↦ some (S.close b) ],
        init_version c now random make (record srv { backend = none }),
      )
      else (none, srv)

  unfoldable pub get :
      Server S → Result StorageError S.State → Bytes → Bytes → Result Status (Record × ℕ) × Server S
  unfolding get_backend answer_get
  get srv make type id =
      let (res, srv') = get_backend srv make in
      (
        elim res [
          | err e ↦ err (status_unknown e)
          | ok (b, version) ↦ answer_get version (S.get b type id)
        ],
        srv',
      )

  -- The inner `none` is the panic of a negative offset or limit.
  unfoldable pub query :
      Codec
      → Server S
      → Result StorageError S.State
      → Bytes
      → Bytes
      → ℤ
      → ℤ
      → Result Status (Option (List Record × ℕ)) × Server S
  unfolding get_backend select
  query c srv make type q offset limit =
      let (res, srv') = get_backend srv make in
      (
        elim res [
          | err e ↦ err (status_unknown e)
          | ok (b, version) ↦ elim (S.get_all b) [
            | err e ↦ err (status_unknown e)
            | ok (all, latest) ↦
                ok (apply_offset_and_limit (select c type (c.to_lower q) all) offset limit)
          ]
        ],
        srv',
      )

  unfoldable pub put :
      Server S
      → Result StorageError S.State
      → ℤ
      → Option Record
      → Result Status (Record × ℕ) × Server S
  unfolding get_backend
  put srv make now r =
      let (res, srv') = get_backend srv make in
      elim res [
        | err e ↦ (err (status_unknown e), srv')
        | ok (b, version) ↦ elim (S.put b now r) [
          | err e ↦ (err (status_unknown e), srv')
          | ok (r', b') ↦ (ok (r', version), record srv' { backend = some b' })
        ]
      ]

  -- SyncLatest, as what a client receives of its stream when no send fails.
  unfoldable pub sync_latest :
      Server S → Result StorageError S.State → Bytes → List Latest × Server S
  unfolding get_backend latest_of
  sync_latest srv make type =
      let (res, srv') = get_backend srv make in
      (
        elim res [
          | err e ↦ latest_error ∷ []
          | ok (b, version) ↦ elim (S.get_all b) [
            | err e ↦ latest_error ∷ []
            | ok (records, latest) ↦
                latest_of type records ++ latest_versions version latest ∷ latest_eof ∷ []
          ]
        ],
        srv',
      )
