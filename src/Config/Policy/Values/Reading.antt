-- ===== src/Config/Policy/Values/Reading.antt =====
-- What is read of claims after their message.
use pomerium.Prelude.{
  Bytes, bytes_order, same, true, false, ◌&&◌, ◌≡◌, refl, ap, sym, ◌∙◌, List, [], ◌∷◌, ◌++◌, none,
  some, All, arith,
}
use mathlib.Core.List.{append-nil, append_assoc}
use pomerium.GoMap
use pomerium.GoMap.{GoMap, Lacks, HasDistinctKeys}
use pomerium.Config.Policy.{Claims}
use pomerium.Config.Policy.Values.{
  GoValue, GoValues, GoEntries, go_nil, go_other, go_bool, go_float, go_float32, go_integer,
  go_string, go_slice, go_map, go_end, go_cons, no_entries, go_entry, go_value, go_values,
  go_entries, read_lists, are_made_of, Json, to_struct, to_structs, to_fields, to_list, slice_of,
  flatten_onto, flatten_claims, lists_to_pb, claims_to_pb, claims_from_pb,
}

-- A value as it is read after its message: integers are floats, and what is no JSON is nil.
unfoldable mutual
  pub as_read : Json → GoValue → GoValue
  as_read J go_nil = go_nil
  as_read J go_other = go_nil
  as_read J (go_bool b) = go_bool b
  as_read J (go_float x) = go_float x
  as_read J (go_float32 x) = go_float x
  as_read J (go_integer n) = go_float (J.to_float n)
  as_read J (go_string s) = go_string s
  as_read J (go_slice vs) = go_slice (values_as_read J vs)
  as_read J (go_map es) = go_map (entries_as_read J es)

  pub values_as_read : Json → GoValues → GoValues
  values_as_read J go_end = go_end
  values_as_read J (go_cons v vs) = go_cons (as_read J v) (values_as_read J vs)

  pub entries_as_read : Json → GoEntries → GoEntries
  entries_as_read J no_entries = no_entries
  entries_as_read J (go_entry k v es) = go_entry k (as_read J v) (entries_as_read J es)

abbrev pub list_as_read : Json → List GoValue → List GoValue
list_as_read J [] = []
list_as_read J (v ∷ vs) = as_read J v ∷ list_as_read J vs

abbrev pub lists_as_read : Json → GoMap Bytes (List GoValue) → GoMap Bytes (List GoValue)
lists_as_read J [] = []
lists_as_read J ((k, vs) ∷ claims) = (k, list_as_read J vs) ∷ lists_as_read J claims

mutual
  unfolding go_value to_struct as_read

  go_value-to_struct : (J : Json) (v : GoValue) → go_value (to_struct J v) ≡ as_read J v
  go_value-to_struct J go_nil = refl
  go_value-to_struct J go_other = refl
  go_value-to_struct J (go_bool b) = refl
  go_value-to_struct J (go_float x) = refl
  go_value-to_struct J (go_float32 x) = refl
  go_value-to_struct J (go_integer n) = refl
  go_value-to_struct J (go_string s) = refl
  go_value-to_struct J (go_slice vs) = ap go_slice (go_values-to_structs J vs)
  go_value-to_struct J (go_map es) = ap go_map (go_entries-to_fields J es)

  go_values-to_structs :
      (J : Json) (vs : GoValues) → go_values (to_structs J vs) ≡ values_as_read J vs
  go_values-to_structs J go_end = refl
  go_values-to_structs J (go_cons v vs) =
      rw (go_value-to_struct J v, go_values-to_structs J vs) refl

  go_entries-to_fields :
      (J : Json) (es : GoEntries) → go_entries (to_fields J es) ≡ entries_as_read J es
  go_entries-to_fields J no_entries = refl
  go_entries-to_fields J (go_entry k v es) =
      rw (go_value-to_struct J v, go_entries-to_fields J es) refl

slice_of-to_list :
    (J : Json) (vs : List GoValue) → slice_of (go_values (to_list J vs)) ≡ list_as_read J vs
unfolding slice_of go_value to_list
slice_of-to_list J [] = refl
slice_of-to_list J (v ∷ vs) = rw (go_value-to_struct J v, slice_of-to_list J vs) refl

insert_lacking :
    {V : Type 0} (k : Bytes) (v : V) (m : GoMap Bytes V)
    → Lacks bytes_order k m
    → GoMap.insert bytes_order k v m ≡ m ++ (k, v) ∷ []
unfolding GoMap.insert
insert_lacking k v [] h = refl
insert_lacking k v ((j, w) ∷ m) (h, lacks) = rw (h, insert_lacking k v m lacks) refl

Lacks-more :
    {V : Type 0} (k j : Bytes) (v : V) (m : GoMap Bytes V)
    → Lacks bytes_order k m
    → same bytes_order j k ≡ false
    → Lacks bytes_order k (m ++ (j, v) ∷ [])
Lacks-more k j v [] h d = (ground (arith, d), tt)
Lacks-more k j v (e ∷ m) (h, lacks) d = (h, Lacks-more k j v m lacks d)

-- The keys of the second map are not in the first.
abbrev AreApart : {V W : Type 0} → GoMap Bytes V → GoMap Bytes W → Type 0
AreApart m k = All (λ e. Lacks bytes_order e.0 m) k

apart_more :
    {V W : Type 0} (j : Bytes) (v : V) (m : GoMap Bytes V) (k : GoMap Bytes W)
    → AreApart m k
    → Lacks bytes_order j k
    → AreApart (m ++ (j, v) ∷ []) k
apart_more j v m [] h d = tt
apart_more j v m (e ∷ k) (h, apart) (d, lacks) =
    (Lacks-more e.0 j v m h d, apart_more j v m k apart lacks)

apart_from_none : (claims : GoMap Bytes (List GoValue)) → AreApart {V = List GoValue} [] claims
apart_from_none [] = tt
apart_from_none (e ∷ claims) = (tt, apart_from_none claims)

flatten_onto-lists :
    (J : Json) (flattened claims : GoMap Bytes (List GoValue))
    → HasDistinctKeys bytes_order claims
    → AreApart flattened claims
    → flatten_onto flattened (read_lists (lists_to_pb J claims))
      ≡ flattened ++ lists_as_read J claims
unfolding flatten_onto read_lists
flatten_onto-lists J flattened [] distinct apart = sym (append-nil flattened)
flatten_onto-lists J flattened ((k, vs) ∷ claims) (lacks, distinct) (new, apart) =
    let read = list_as_read J vs in
    ap
      (λ x.
        flatten_onto (GoMap.insert bytes_order k x flattened) (read_lists (lists_to_pb J claims)))
      (slice_of-to_list J vs)
    ∙ ap (λ m. flatten_onto m (read_lists (lists_to_pb J claims)))
        (insert_lacking k read flattened new)
    ∙ flatten_onto-lists J (flattened ++ (k, read) ∷ []) claims distinct
        (apart_more k read flattened claims apart lacks)
    ∙ append_assoc flattened ((k, read) ∷ []) (lists_as_read J claims)

-- Claims as they are read after their message; with none there are no claims.
abbrev pub claims_as_read : Json → Claims GoValue → Claims GoValue
claims_as_read J none = some []
claims_as_read J (some claims) = some (lists_as_read J claims)

-- A Go map of claims whose keys and values are finite numbers and texts in UTF-8.
abbrev pub IsReadable : Json → Claims GoValue → Type 0
IsReadable J none = Unit
IsReadable J (some claims) =
    HasDistinctKeys bytes_order claims
    × All (λ e. J.is_utf8 e.0 && are_made_of J.is_finite J.is_utf8 e.1 ≡ true)
        (lists_to_pb J claims)

pub claims_from_pb-claims_to_pb :
    (J : Json) (claims : Claims GoValue)
    → IsReadable J claims
    → claims_from_pb J (claims_to_pb J claims) ≡ claims_as_read J claims
unfolding claims_from_pb claims_to_pb flatten_claims
claims_from_pb-claims_to_pb J none h = refl
claims_from_pb-claims_to_pb J (some claims) (distinct, plain) =
    rw (claims_from_pb, J.reread_plain (lists_to_pb J claims) plain)
      (ap some (flatten_onto-lists J [] claims distinct (apart_from_none claims)))
