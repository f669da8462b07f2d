-- ===== src/Storage/Encrypted.antt =====
-- pkg/storage/encrypted.go: a backend that keeps the data of its records encrypted in another one,
-- with Encrypt and Decrypt of pkg/cryptutil/encrypt.go. The cipher and protobuf are arguments, and
-- so is each nonce, which Go draws at random.
pub mod Reading
use pomerium.Prelude.{
  ℕ, ◌-◌, ◌≤◌, ◌<◌, ℤ, Bytes, Bool, true, false, ◌≡◌, List, [], ◌∷◌, ◌++◌, Option, none, some, leb,
  ◌==◌, length, take, drop, if◌then◌else◌,
}
use pomerium.Storage.{
  Any, Record, StorageError, encrypt_failed, decrypt_failed, panicked, Result, ok, err,
  StorageBackend, RecordStream,
}

-- cipher.AEAD without associated data: Seal(nil, nonce, plaintext, nil) and Open (open_sealed).
pub record Aead : Type 0 where
  pub nonce_size : ℕ
  pub seal : Bytes → Bytes → Bytes
  pub open_sealed : Bytes → Bytes → Option Bytes

-- proto.Marshal and proto.Unmarshal of an Any, and the message BytesValue in an Any and out of it.
pub record Proto : Type 0 where
  pub marshal : Option Any → Option Bytes
  pub unmarshal : Bytes → Option Any
  pub pack : Bytes → Option Any
  pub unpack : Any → Option Bytes

-- NewAEADCipher, given chacha20poly1305.NewX
unfoldable pub new_aead_cipher : (Bytes → Option Aead) → Bytes → Option Aead
new_aead_cipher new_x secret = if length secret == 32 then new_x secret else none

-- Encrypt of cryptutil
unfoldable pub encrypt_bytes : Aead → Bytes → Bytes → Bytes
encrypt_bytes c iv plaintext = c.seal iv plaintext ++ iv

-- Decrypt of cryptutil
unfoldable pub decrypt_bytes : Aead → Bytes → Option Bytes
decrypt_bytes c sealed =
    let size = length sealed - c.nonce_size in
    if leb (length sealed) c.nonce_size
    then none
    else c.open_sealed (drop size sealed) (take size sealed)

unfoldable pub encrypt : Aead → Proto → Bytes → Option Any → Result StorageError Any
unfolding encrypt_bytes
encrypt c p iv payload = elim (p.marshal payload) [
  | none ↦ err encrypt_failed
  | some plaintext ↦ elim (p.pack (encrypt_bytes c iv plaintext)) [
    | none ↦ err encrypt_failed
    | some out ↦ ok out
  ]
]

unfoldable pub decrypt : Aead → Proto → Option Any → Result StorageError (Option Any)
unfolding decrypt_bytes
decrypt c p none = ok none
decrypt c p (some payload) = elim (p.unpack payload) [
  | none ↦ err decrypt_failed
  | some sealed ↦ elim (decrypt_bytes c sealed) [
    | none ↦ err decrypt_failed
    | some plaintext ↦ elim (p.unmarshal plaintext) [
      | none ↦ err decrypt_failed
      | some out ↦ ok (some out)
    ]
  ]
]

-- decryptRecord; for a record without data it takes the TypeUrl of a nil pointer, and panics.
unfoldable pub decrypt_record : Aead → Proto → Record → Result StorageError Record
unfolding decrypt
decrypt_record c p r = elim (decrypt c p r.payload) [
  | err e ↦ err e
  | ok found ↦ elim found [
    | none ↦ err panicked
    | some payload ↦ ok (record {
      version = r.version;
      type = payload.type_url;
      id = r.id;
      payload = some payload;
      modified_at = r.modified_at;
      deleted_at = r.deleted_at;
    })
  ]
]

-- The loop of GetAll, which ends at the first error.
unfoldable pub decrypt_records : Aead → Proto → List Record → Result StorageError (List Record)
unfolding decrypt_record
decrypt_records c p [] = ok []
decrypt_records c p (r ∷ l) =
    let others = decrypt_records c p l in
    elim (decrypt_record c p r) [
      | err e ↦ err e
      | ok r' ↦ elim others [ err e ↦ err e | ok l' ↦ ok (r' ∷ l') ]
    ]

module _ (S : StorageBackend) where
  pub record EncryptedBackend : Type 0 where
    pub underlying : S.State
    pub cipher : Aead

module _ {S : StorageBackend} where
  -- NewEncryptedBackend
  unfoldable pub new_encrypted_backend :
      (Bytes → Option Aead) → Bytes → S.State → Option (EncryptedBackend S)
  unfolding new_aead_cipher
  new_encrypted_backend new_x secret underlying = elim (new_aead_cipher new_x secret) [
    | none ↦ none
    | some c ↦ some (record { underlying = underlying; cipher = c })
  ]

  unfoldable pub close : EncryptedBackend S → EncryptedBackend S
  close b = record b { underlying = S.close b.underlying }

  unfoldable pub get : EncryptedBackend S → Proto → Bytes → Bytes → Result StorageError Record
  unfolding decrypt_record
  get b p type id = elim (S.get b.underlying type id) [
    | err e ↦ err e
    | ok r ↦ decrypt_record b.cipher p r
  ]

  unfoldable pub get_all : EncryptedBackend S → Proto → Result StorageError (List Record × ℕ)
  unfolding decrypt_records
  get_all b p = elim (S.get_all b.underlying) [
    | err e ↦ err e
    | ok found ↦ elim (decrypt_records b.cipher p found.0) [
      | err e ↦ err e
      | ok records ↦ ok (records, found.1)
    ]
  ]

  -- Put of a record that is not nil: what the underlying Put stamps is a clone of it.
  unfoldable pub put :
      EncryptedBackend S → Proto → Bytes → ℤ → Record → Result StorageError (EncryptedBackend S)
  unfolding encrypt
  put b p iv now r = elim (encrypt b.cipher p iv r.payload) [
    | err e ↦ err e
    | ok encrypted ↦ elim (S.put b.underlying now (some (record r { payload = some encrypted }))) [
      | err e ↦ err e
      | ok after ↦ ok (record b { underlying = after.1 })
    ]
  ]

module _ (U : RecordStream) where
  pub record EncryptedRecordStream : Type 0 where
    pub underlying : U.State
    pub error : Option StorageError

module _ {U : RecordStream} where
  -- What Sync wraps the underlying stream in.
  unfoldable pub new_stream : U.State → EncryptedRecordStream U
  new_stream underlying = record { underlying = underlying; error = none }

  unfoldable pub close_stream : EncryptedRecordStream U → EncryptedRecordStream U
  close_stream s = record s { underlying = U.close s.underlying }

  unfoldable pub next : EncryptedRecordStream U → Bool → Bool × EncryptedRecordStream U
  next s wait =
      let (more, underlying) = U.next s.underlying wait in
      (more, record s { underlying = underlying })

  -- Record: nil, with the error kept, where the record is not decrypted.
  unfoldable pub record_of :
      EncryptedRecordStream U → Aead → Proto → Option Record × EncryptedRecordStream U
  unfolding decrypt_record
  record_of s c p = elim (U.record_of s.underlying) [
    | none ↦ (none, s)
    | some r ↦ elim (decrypt_record c p r) [
      | err e ↦ (none, record s { error = some e })
      | ok r' ↦ (some r', s)
    ]
  ]

  unfoldable pub stream_err :
      EncryptedRecordStream U → Option StorageError × EncryptedRecordStream U
  stream_err s = elim s.error [
    | some e ↦ (some e, s)
    | none ↦ (U.err s.underlying, record s { error = U.err s.underlying })
  ]
