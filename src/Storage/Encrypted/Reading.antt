-- ===== src/Storage/Encrypted/Reading.antt =====
-- What is read back from an encrypted backend. The laws of the cipher and of protobuf are what
-- their documentation says.
use pomerium.Prelude.{
  ◌-◌, ◌<◌, ℤ, Bytes, false, ◌≡◌, refl, ap, ◌∙◌, ◌⊎◌, same_refl, subst, List, [], ◌∷◌, ◌++◌, Option,
  none, some, arith, leb, length, length-append, take, drop, inl, inr, Option-cases,
}
use pomerium.BTree.{BTree}
use pomerium.Storage.{Any, Record, Result, ok, err}
use pomerium.Storage.InMemory
use pomerium.Storage.InMemory.{less_version, in_memory, key_order, key_of, stamp, put_record}
use pomerium.Storage.InMemory.Table.{get-put_record}
use pomerium.Storage.Encrypted.{
  Aead, Proto, encrypt_bytes, decrypt_bytes, encrypt, decrypt, decrypt_record, EncryptedBackend,
  get, put,
}

-- Open undoes Seal under the same nonce, and what Seal gives is longer than its nonce alone, since
-- it carries a tag.
pub record IsAead (c : Aead) : Type 0 where
  pub open-seal :
      (iv payload : Bytes)
      → length iv ≡ c.nonce_size
      → c.open_sealed iv (c.seal iv payload) ≡ some payload
  pub seal-nonempty : (iv payload : Bytes) → 0 < length (c.seal iv payload)

-- The message that nil is marshalled as.
abbrev pub or_empty : Option Any → Any
or_empty none = record { type_url = []; value = [] }
or_empty (some a) = a

-- What is marshalled is unmarshalled as it was, and what is packed is unpacked as it was.
pub record IsProto (p : Proto) : Type 0 where
  pub unmarshal-marshal :
      (a : Option Any) (b : Bytes) → p.marshal a ≡ some b → p.unmarshal b ≡ some (or_empty a)
  pub unpack-pack : (b : Bytes) (a : Any) → p.pack b ≡ some a → p.unpack a ≡ some b

module _ {ℓ} {A : Type ℓ} where
  pub take_prefix : (xs ys : List A) → take (length xs) (xs ++ ys) ≡ xs
  take_prefix [] ys = refl
  take_prefix (x ∷ xs) ys = ap (λ l. x ∷ l) (take_prefix xs ys)

  pub drop_prefix : (xs ys : List A) → drop (length xs) (xs ++ ys) ≡ ys
  drop_prefix [] ys = refl
  drop_prefix (x ∷ xs) ys = drop_prefix xs ys

-- Decrypt of cryptutil undoes Encrypt.
decrypt_bytes-encrypt_bytes :
    (c : Aead) (iv payload : Bytes)
    → IsAead c
    → length iv ≡ c.nonce_size
    → decrypt_bytes c (encrypt_bytes c iv payload) ≡ some payload
unfolding decrypt_bytes encrypt_bytes
decrypt_bytes-encrypt_bytes c iv payload h n =
    let sealed = c.seal iv payload in
    let len = length-append sealed iv in
    let size : length (sealed ++ iv) - c.nonce_size ≡ length sealed = omega (arith, len, n) in
    let long : leb (length (sealed ++ iv)) c.nonce_size ≡ false =
      ground (arith, len, n, h.seal-nonempty iv payload) in
    rw (long, size, take_prefix sealed iv, drop_prefix sealed iv) (h.open-seal iv payload n)

-- What encrypt gives for a record's data is decrypted as that data; no data becomes the empty Any.
pub decrypt-encrypt :
    (c : Aead) (p : Proto) (iv : Bytes) (payload : Option Any) (sealed : Any)
    → IsAead c
    → IsProto p
    → length iv ≡ c.nonce_size
    → encrypt c p iv payload ≡ ok sealed
    → decrypt c p (some sealed) ≡ ok (some (or_empty payload))
unfolding encrypt decrypt
decrypt-encrypt c p iv payload sealed h q n e = elim (Option-cases (p.marshal payload)) [
  | inl m ↦ absurd (ground (arith, m, e))
  | inr (b, m) ↦ ground (
    arith,
    m,
    e,
    Option-cases (p.pack (encrypt_bytes c iv b)),
    decrypt_bytes-encrypt_bytes c iv b h n,
    q.unpack-pack (encrypt_bytes c iv b) sealed,
    q.unmarshal-marshal payload b m,
  )
]

-- The record as the encrypted backend gives it back.
abbrev pub reread : Record → Record
reread r = record r { type = (or_empty r.payload).type_url; payload = some (or_empty r.payload) }

decrypt_record_ok :
    (c : Aead) (p : Proto) (r : Record) (a : Any)
    → decrypt c p r.payload ≡ ok (some a)
    → decrypt_record c p r ≡ ok (record r { type = a.type_url; payload = some a })
unfolding decrypt_record
decrypt_record_ok c p r a e = rw (e, decrypt_record) refl

Result-cases : {E A : Type 0} (x : Result E A) → ((e : E) × (x ≡ err e)) ⊎ ((a : A) × (x ≡ ok a))
Result-cases (ok a) = inr (a, refl)
Result-cases (err e) = inl (e, refl)

module _ {B : BTree less_version} where
  get_stamped :
      (b : InMemory.Backend B) (now : ℤ) (r : Record)
      → r.deleted_at ≡ none
      → InMemory.get (put_record b now r) r.type r.id ≡ ok (stamp b now r)
  unfolding stamp
  get_stamped b now r alive =
      get-put_record b now r r.type r.id ∙ rw (same_refl key_order (key_of r), alive) refl

  -- Over the in-memory backend: after a Put of a record that is not marked as deleted, Get of its
  -- type and id returns it with the stamp, its data as they were, the empty Any for none, and as
  -- its type the URL of its data's type, whatever type it was put with.
  pub get-put :
      (b b' : EncryptedBackend (in_memory B)) (p : Proto) (iv : Bytes) (now : ℤ) (r : Record)
      → IsAead b.cipher
      → IsProto p
      → length iv ≡ b.cipher.nonce_size
      → r.deleted_at ≡ none
      → put b p iv now r ≡ ok b'
      → get b' p r.type r.id ≡ ok (reread (stamp b.underlying now r))
  unfolding get put InMemory.put
  get-put b b' p iv now r h q n alive e = elim (Result-cases (encrypt b.cipher p iv r.payload)) [
    | inl (x, k) ↦ absurd (ground (arith, k, e))
    | inr (sealed, k) ↦
        let r' : Record = record r { payload = some sealed } in
        let after : EncryptedBackend (in_memory B) = record b {
          underlying = put_record b.underlying now r';
        } in
        let put_ok : put b p iv now r ≡ ok after = rw (k, put) refl in
        let same_after : after ≡ b' = cc (put_ok, e) in
        subst (λ x. get x p r.type r.id ≡ ok (reread (stamp b.underlying now r))) same_after
          (rw (get_stamped b.underlying now r' alive, get)
            (decrypt_record_ok b.cipher p (stamp b.underlying now r') (or_empty r.payload)
              (decrypt-encrypt b.cipher p iv r.payload sealed h q n k)))
  ]
