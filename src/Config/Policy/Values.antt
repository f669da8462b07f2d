-- ===== src/Config/Policy/Values.antt =====
-- The values of claims and their messages: internal/identity/claims.go and pkg/protoutil/struct.go.
pub mod Reading
use pomerium.Prelude.{
  ℕ, ℤ, Bytes, bytes_order, Bool, true, false, ◌&&◌, List, [], ◌∷◌, ◌++◌, Option, none, some,
  if◌then◌else◌, All, ◌≡◌,
}
use pomerium.Strings.{codes}
use pomerium.GoMap
use pomerium.Config.Policy.{Claims}
use pomerium.GoMap.{GoMap}

-- The values that an interface{} of a claim holds: a float64 or float32 as the bits of the float64; an
-- integer of any type; a slice; a map, whose keys are as fmt.Sprint writes them; or something else.
mutual
  pub data GoValue : Type 0 where
    go_nil go_other : GoValue
    go_bool : Bool → GoValue
    go_float go_float32 : ℕ → GoValue
    go_integer : ℤ → GoValue
    go_string : Bytes → GoValue
    go_slice : GoValues → GoValue
    go_map : GoEntries → GoValue

  pub data GoValues : Type 0 where
    go_end : GoValues
    go_cons : GoValue → GoValues → GoValues

  pub data GoEntries : Type 0 where
    no_entries : GoEntries
    go_entry : Bytes → GoValue → GoEntries → GoEntries

-- structpb.Value, ListValue and Struct
mutual
  pub data PbValue : Type 0 where
    null_value : PbValue
    bool_value : Bool → PbValue
    number_value : ℕ → PbValue
    string_value : Bytes → PbValue
    list_value : PbValues → PbValue
    struct_value : PbEntries → PbValue

  pub data PbValues : Type 0 where
    pb_end : PbValues
    pb_cons : PbValue → PbValues → PbValues

  pub data PbEntries : Type 0 where
    no_fields : PbEntries
    pb_field : Bytes → PbValue → PbEntries → PbEntries

-- What encoding/json documents of the values that a message's JSON gives.
unfoldable mutual
  pub go_value : PbValue → GoValue
  go_value null_value = go_nil
  go_value (bool_value b) = go_bool b
  go_value (number_value x) = go_float x
  go_value (string_value s) = go_string s
  go_value (list_value vs) = go_slice (go_values vs)
  go_value (struct_value es) = go_map (go_entries es)

  pub go_values : PbValues → GoValues
  go_values pb_end = go_end
  go_values (pb_cons v vs) = go_cons (go_value v) (go_values vs)

  pub go_entries : PbEntries → GoEntries
  go_entries no_fields = no_entries
  go_entries (pb_field k v es) = go_entry k (go_value v) (go_entries es)

-- A value whose numbers and texts satisfy the tests.
unfoldable mutual
  pub is_made_of : (ℕ → Bool) → (Bytes → Bool) → PbValue → Bool
  is_made_of num str null_value = true
  is_made_of num str (bool_value b) = true
  is_made_of num str (number_value x) = num x
  is_made_of num str (string_value s) = str s
  is_made_of num str (list_value vs) = are_made_of num str vs
  is_made_of num str (struct_value es) = fields_made_of num str es

  pub are_made_of : (ℕ → Bool) → (Bytes → Bool) → PbValues → Bool
  are_made_of num str pb_end = true
  are_made_of num str (pb_cons v vs) = is_made_of num str v && are_made_of num str vs

  pub fields_made_of : (ℕ → Bool) → (Bytes → Bool) → PbEntries → Bool
  fields_made_of num str no_fields = true
  fields_made_of num str (pb_field k v es) =
      str k && (is_made_of num str v && fields_made_of num str es)

-- The lists of a message as the slices of a map.
unfoldable pub read_lists : GoMap Bytes PbValues → GoEntries
read_lists [] = no_entries
read_lists ((k, vs) ∷ m) = go_entry k (go_slice (go_values vs)) (read_lists m)

-- Go's conversion of an integer to float64, which float64s are finite, which texts are UTF-8; and
-- json.Marshal of a map of ListValues with json.Unmarshal into a map[string]interface{}, none where
-- one of them fails. JSON keeps lists of finite numbers and texts in UTF-8.
pub record Json : Type 0 where
  pub to_float : ℤ → ℕ
  pub is_finite : ℕ → Bool
  pub is_utf8 : Bytes → Bool
  pub reread : GoMap Bytes PbValues → Option GoEntries
  pub reread_plain :
      (m : GoMap Bytes PbValues)
      → All (λ e. is_utf8 e.0 && are_made_of is_finite is_utf8 e.1 ≡ true) m
      → reread m ≡ some (read_lists m)

-- ToStruct of pkg/protoutil/struct.go
unfoldable mutual
  pub to_struct : Json → GoValue → PbValue
  to_struct J go_nil = null_value
  to_struct J go_other = null_value
  to_struct J (go_bool b) = bool_value b
  to_struct J (go_float x) = number_value x
  to_struct J (go_float32 x) = number_value x
  to_struct J (go_integer n) = number_value (J.to_float n)
  to_struct J (go_string s) = string_value s
  to_struct J (go_slice vs) = list_value (to_structs J vs)
  to_struct J (go_map es) = struct_value (to_fields J es)

  pub to_structs : Json → GoValues → PbValues
  to_structs J go_end = pb_end
  to_structs J (go_cons v vs) = pb_cons (to_struct J v) (to_structs J vs)

  pub to_fields : Json → GoEntries → PbEntries
  to_fields J no_entries = no_fields
  to_fields J (go_entry k v es) = pb_field k (to_struct J v) (to_fields J es)

-- The inner loop of ToPB
unfoldable pub to_list : Json → List GoValue → PbValues
unfolding to_struct
to_list J [] = pb_end
to_list J (v ∷ vs) = pb_cons (to_struct J v) (to_list J vs)

-- for sk, sv := range subClaims.Flatten()
unfoldable pub add_sub_claims :
    Bytes → GoMap Bytes (List GoValue) → GoMap Bytes (List GoValue) → GoMap Bytes (List GoValue)
unfolding GoMap.insert
add_sub_claims k [] flattened = flattened
add_sub_claims k ((sk, sv) ∷ sub) flattened =
    add_sub_claims k sub (GoMap.insert bytes_order (k ++ codes "." ++ sk) sv flattened)

unfoldable pub slice_of : GoValues → List GoValue
slice_of go_end = []
slice_of (go_cons v vs) = v ∷ slice_of vs

-- The loop of Flatten over the claims, and its switch
unfoldable mutual
  unfolding add_sub_claims slice_of GoMap.insert

  pub flatten_onto : GoMap Bytes (List GoValue) → GoEntries → GoMap Bytes (List GoValue)
  flatten_onto flattened no_entries = flattened
  flatten_onto flattened (go_entry k v claims) = flatten_onto (flatten_claim flattened k v) claims

  pub flatten_claim : GoMap Bytes (List GoValue) → Bytes → GoValue → GoMap Bytes (List GoValue)
  flatten_claim flattened k (go_map sub) = add_sub_claims k (flatten_onto [] sub) flattened
  flatten_claim flattened k (go_slice vs) = GoMap.insert bytes_order k (slice_of vs) flattened
  flatten_claim flattened k go_nil = GoMap.insert bytes_order k (go_nil ∷ []) flattened
  flatten_claim flattened k go_other = GoMap.insert bytes_order k (go_other ∷ []) flattened
  flatten_claim flattened k (go_bool b) = GoMap.insert bytes_order k (go_bool b ∷ []) flattened
  flatten_claim flattened k (go_float x) = GoMap.insert bytes_order k (go_float x ∷ []) flattened
  flatten_claim flattened k (go_float32 x) =
      GoMap.insert bytes_order k (go_float32 x ∷ []) flattened
  flatten_claim flattened k (go_integer n) =
      GoMap.insert bytes_order k (go_integer n ∷ []) flattened
  flatten_claim flattened k (go_string s) = GoMap.insert bytes_order k (go_string s ∷ []) flattened

-- Flatten
unfoldable pub flatten_claims : GoEntries → GoMap Bytes (List GoValue)
unfolding flatten_onto
flatten_claims claims = flatten_onto [] claims

-- Claims in a message; nil is none.
abbrev pub ClaimsMessage : Type 0
ClaimsMessage = Option (GoMap Bytes PbValues)

-- The loop of ToPB over the claims
abbrev pub lists_to_pb : Json → GoMap Bytes (List GoValue) → GoMap Bytes PbValues
lists_to_pb J [] = []
lists_to_pb J ((k, vs) ∷ claims) = (k, to_list J vs) ∷ lists_to_pb J claims

-- ToPB
unfoldable pub claims_to_pb : Json → Claims GoValue → ClaimsMessage
unfolding to_list
claims_to_pb J none = none
claims_to_pb J (some claims) = some (lists_to_pb J claims)

-- NewFlattenedClaimsFromPB, with UnmarshalJSON of the claims: an error leaves them empty
unfoldable pub claims_from_pb : Json → ClaimsMessage → Claims GoValue
unfolding flatten_claims
claims_from_pb J none = some []
claims_from_pb J (some m) = elim (J.reread m) [
  | none ↦ some []
  | some unflattened ↦ some (flatten_claims unflattened)
]
