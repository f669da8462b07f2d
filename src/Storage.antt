-- ===== src/Storage.antt =====
-- pkg/storage/storage.go: the errors of a storage backend, and the protobuf messages that it keeps
-- (pkg/grpc/databroker/databroker.pb.go, and `Any` of the protobuf library).
pub mod InMemory
pub mod Encrypted
pub mod Redis
use pomerium.Prelude.{
  ◌≡◌, ◌⊎◌, refl, ap, sym, ◌∙◌, inl, inr, ℕ, ◌*◌, ℤ, pos, Bytes, Bool, List, Option, none, some,
}

pub data StorageError : Type 0 where
  not_found stream_closed nil_record canceled encrypt_failed decrypt_failed : StorageError
  -- a panic, which unwinds the calls as an error does
  panicked : StorageError

pub data Result {ℓ} (E A : Type ℓ) : Type ℓ where
  ok : A → Result E A
  err : E → Result E A

value_or : {E A : Type 0} → A → Result E A → A
value_or a (ok x) = x
value_or a (err e) = a

pub ok-injective : {E A : Type 0} {a b : A} (r : Result E A) → r ≡ ok a → r ≡ ok b → a ≡ b
unfolding value_or
ok-injective {a = a} r h k = ap (value_or a) (sym h ∙ k)

pub Result-cases :
    {E A : Type 0} (r : Result E A) → ((e : E) × (r ≡ err e)) ⊎ ((a : A) × (r ≡ ok a))
Result-cases (err e) = inl (e, refl)
Result-cases (ok a) = inr (a, refl)

-- google.protobuf.Any
pub record Any : Type 0 where
  pub type_url : Bytes
  pub value : Bytes

pub record Record : Type 0 where
  pub version : ℕ
  pub type : Bytes
  pub id : Bytes
  pub payload : Option Any
  pub modified_at : Option ℤ
  pub deleted_at : Option ℤ

-- The Unix epoch, in nanoseconds since the zero time.
abbrev pub unix_epoch : ℤ
unix_epoch = pos (62135596800 * 1_000_000_000)

-- (*timestamppb.Timestamp).AsTime: the nil timestamp stands for the Unix epoch.
abbrev pub as_time : Option ℤ → ℤ
as_time none = unix_epoch
as_time (some t) = t

-- What the databroker's server uses of a storage.Backend. `put` returns the record as the call
-- leaves its argument, beside the new state.
pub record StorageBackend : Type 1 where
  pub State : Type 0
  pub get : State → Bytes → Bytes → Result StorageError Record
  pub get_all : State → Result StorageError (List Record × ℕ)
  pub put : State → ℤ → Option Record → Result StorageError (Record × State)
  pub close : State → State

-- A storage.RecordStream; the argument of `next` is whether it waits.
pub record RecordStream : Type 1 where
  pub State : Type 0
  pub close : State → State
  pub next : State → Bool → Bool × State
  pub record_of : State → Option Record
  pub err : State → Option StorageError
