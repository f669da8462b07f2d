-- ===== src/Tests/Sample.antt =====
-- An in-memory backend after two puts, whole and with its first change expired.
use pomerium.Prelude.{pos, ◌≡◌, refl, arith, false, List, [], ◌∷◌, none, some, bytes_lt}
use pomerium.BTree.{BTree, listed}
use pomerium.GoMap
use pomerium.Signal
use pomerium.Strings.{codes}
use pomerium.Storage.{Record}
use pomerium.Storage.InMemory.{less_version, Backend, key_of, put_lookup}
use pomerium.Storage.InMemory.History.{replay, IsHistory}

abbrev pub tree : BTree less_version
tree = listed less_version

abbrev pub record_a : Record
record_a = record {
  version = 1;
  type = codes "user";
  id = codes "a";
  payload = none;
  modified_at = some (pos 5);
  deleted_at = none;
}

abbrev pub record_b : Record
record_b = record {
  version = 2;
  type = codes "user";
  id = codes "b";
  payload = none;
  modified_at = some (pos 7);
  deleted_at = none;
}

abbrev pub two_puts : List Record
two_puts = record_a ∷ record_b ∷ []

abbrev pub backend_with : List Record → Backend tree
backend_with changes = record {
  expiry = pos 0;
  on_change = Signal.new;
  last_version = 2;
  closed = false;
  lookup = (key_of record_a, record_a) ∷ (key_of record_b, record_b) ∷ [];
  changes = changes;
}

abbrev pub whole : Backend tree
whole = backend_with two_puts

abbrev pub trimmed : Backend tree
trimmed = backend_with (record_b ∷ [])

pub whole-IsHistory : IsHistory {B = tree} two_puts whole
unfolding replay put_lookup GoMap.insert bytes_lt
whole-IsHistory = record {
  gone = 0;
  gone_le = omega arith;
  numbered = omega arith;
  count = refl;
  current = refl;
  retained = refl;
}

pub gone-whole : whole-IsHistory.gone ≡ 0
unfolding whole-IsHistory
gone-whole = refl

pub trimmed-IsHistory : IsHistory {B = tree} two_puts trimmed
unfolding replay put_lookup GoMap.insert bytes_lt
trimmed-IsHistory = record {
  gone = 1;
  gone_le = omega arith;
  numbered = omega arith;
  count = refl;
  current = refl;
  retained = refl;
}

pub gone-trimmed : trimmed-IsHistory.gone ≡ 1
unfolding trimmed-IsHistory
gone-trimmed = refl
