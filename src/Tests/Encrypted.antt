-- ===== src/Tests/Encrypted.antt =====
-- The encrypted backend, with a cipher that marks and a protobuf that counts.
use pomerium.Prelude.{
  pos, Bytes, ◌≡◌, refl, subst, [], ◌∷◌, ◌++◌, Option, none, some, arith, length, take, drop,
}
use pomerium.Strings.{codes}
use pomerium.Storage.{Any, Record, ok}
use pomerium.Storage.InMemory
use pomerium.Storage.InMemory.{in_memory, new, stamp, put_record}
use pomerium.Storage.Encrypted.{Aead, Proto, encrypt_bytes, EncryptedBackend, get, put}
use pomerium.Storage.Encrypted.Reading.{
  IsAead, IsProto, or_empty, take_prefix, drop_prefix, reread, get-put,
}
use pomerium.Tests.Sample.{tree, record_a}

abbrev unmark : Bytes → Option Bytes
unmark [] = none
unmark (mark ∷ plaintext) = some plaintext

abbrev marking : Aead
marking = record {
  nonce_size = 1;
  seal = λ iv plaintext. 0 ∷ plaintext;
  open_sealed = λ iv sealed. unmark sealed;
}

marking-IsAead : IsAead marking
marking-IsAead = record {
  open-seal = λ iv plaintext n. refl;
  seal-nonempty = λ iv plaintext. omega arith;
}

abbrev count : Option Any → Option Bytes
count none = some []
count (some a) = some (length a.type_url ∷ a.type_url ++ a.value)

abbrev uncount : Bytes → Option Any
uncount [] = some (or_empty none)
uncount (n ∷ bytes) = some (record { type_url = take n bytes; value = drop n bytes })

abbrev counting : Proto
counting = record {
  marshal = count;
  unmarshal = uncount;
  pack = λ bytes. some (record { type_url = []; value = bytes });
  unpack = λ a. some a.value;
}

uncount-count : (a : Option Any) (b : Bytes) → count a ≡ some b → uncount b ≡ some (or_empty a)
uncount-count none [] e = refl
uncount-count none (n ∷ b) e = absurd (ground (arith, e))
uncount-count (some a) b e =
    let split : uncount (length a.type_url ∷ a.type_url ++ a.value) ≡ some a =
      rw (take_prefix a.type_url a.value, drop_prefix a.type_url a.value) refl in
    let same : length a.type_url ∷ a.type_url ++ a.value ≡ b = cc e in
    subst (λ bytes. uncount bytes ≡ some a) same split

counting-IsProto : IsProto counting
counting-IsProto = record {
  unmarshal-marshal = uncount-count;
  unpack-pack = λ b a e. ground (arith, e);
}

abbrev secret : Option Any
secret = some (record { type_url = codes "t"; value = codes "v" })

abbrev sealed_secret : Any
sealed_secret = record { type_url = []; value = encrypt_bytes marking (7 ∷ []) (1 ∷ codes "tv") }

abbrev start : EncryptedBackend (in_memory tree)
start = record { underlying = new (pos 5); cipher = marking }

abbrev secret_record : Record
secret_record = record record_a { payload = secret }

abbrev after_put : EncryptedBackend (in_memory tree)
after_put = record start {
  underlying =
      put_record start.underlying (pos 9) (record secret_record { payload = some sealed_secret });
}

get-put_example :
    get after_put counting secret_record.type secret_record.id
    ≡ ok (reread (stamp start.underlying (pos 9) secret_record))
unfolding put InMemory.put
get-put_example =
    get-put start after_put counting (7 ∷ []) (pos 9) secret_record marking-IsAead counting-IsProto
      refl refl refl
