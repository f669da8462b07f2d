-- ===== src/Authorize/Evaluator.antt =====
-- authorize/evaluator: evaluator.go, custom.go and functions.go, which decide about a request from
-- what the rego engine makes of the policies. The engine, fmt.Sprint, strconv.Atoi and the X.509
-- library are arguments; the route policy that matched is left out of the result.
pub mod Access
use pomerium.Prelude.{
  ℕ, ℤ, pos, Bytes, bytes_order, Bool, true, false, ◌&&◌, not, List, [], ◌∷◌, Option, none, some,
  ◌==◌, if◌then◌else◌,
}
use pomerium.GoMap
use pomerium.GoMap.{GoMap}
use pomerium.Strings.{codes, bytes_eq}

-- The values of rego as Go values. The order of an object's fields is that of `range`.
mutual
  pub data Value : Type 0 where
    null : Value
    boolean : Bool → Value
    text : Bytes → Value
    number : Bytes → Value
    array : Values → Value
    object : Fields → Value

  pub data Values : Type 0 where
    nil : Values
    cons : Value → Values → Values

  pub data Fields : Type 0 where
    end : Fields
    field : Bytes → Value → Fields → Fields

-- m[name]
unfoldable pub field_of : Bytes → Fields → Option Value
field_of name end = none
field_of name (field k v fs) =
    let others = field_of name fs in if bytes_eq k name then some v else others

-- vars["result"].(map[string]interface{})
abbrev pub as_object : Option Value → Option Fields
as_object (some (object fs)) = some fs
as_object (some v) = none
as_object none = none

unfoldable pub result_of : Fields → Option Fields
unfolding field_of
result_of vars = as_object (field_of (codes "result") vars)

abbrev pub as_bool : Option Value → Option Bool
as_bool (some (boolean b)) = some b
as_bool (some v) = none
as_bool none = none

abbrev pub or_false : Option Bool → Bool
or_false none = false
or_false (some b) = b

unfoldable pub get_allow_var : Fields → Bool
unfolding result_of field_of
get_allow_var vars = elim (result_of vars) [
  | none ↦ false
  | some result ↦ or_false (as_bool (field_of (codes "allow") result))
]

-- fmt.Sprint and strconv.Atoi
pub record Text : Type 0 where
  pub sprint : Value → Bytes
  pub atoi : Bytes → Option ℤ

pub record Denial : Type 0 where
  pub status : ℤ
  pub message : Bytes

-- The loop of getDenyVar.
unfoldable pub denials : Text → Values → List Denial
denials t nil = []
denials t (cons (array (cons status (cons message nil))) vs) =
    let others = denials t vs in
    elim (t.atoi (t.sprint status)) [
      | none ↦ others
      | some n ↦ (record { status = n; message = t.sprint message }) ∷ others
    ]
denials t (cons v vs) = denials t vs

abbrev pub as_array : Option Value → Values
as_array (some (array vs)) = vs
as_array (some v) = nil
as_array none = nil

unfoldable pub get_deny_var : Text → Fields → List Denial
unfolding result_of field_of denials
get_deny_var t vars = elim (result_of vars) [
  | none ↦ []
  | some result ↦ denials t (as_array (field_of (codes "deny") result))
]

abbrev pub Headers : Type 0
Headers = GoMap Bytes Bytes

-- The loop of getHeadersVar.
unfoldable pub add_headers : Text → Fields → Headers → Headers
add_headers t end headers = headers
add_headers t (field k v fs) headers =
    add_headers t fs (GoMap.insert bytes_order k (t.sprint v) headers)

unfoldable pub get_headers_var : Text → Fields → Headers
unfolding result_of field_of add_headers
get_headers_var t vars = elim (result_of vars) [
  | none ↦ []
  | some result ↦ elim (as_object (field_of (codes "identity_headers") result)) [
    | none ↦ []
    | some m ↦ add_headers t m []
  ]
]

-- CustomEvaluatorResponse
pub record CustomResponse : Type 0 where
  pub allowed : Bool
  pub denied : Bool
  pub reason : Bytes
  pub headers : Headers

-- The loop over the reasons of `deny[reason] = true`.
unfoldable pub deny_reasons : Fields → CustomResponse → CustomResponse
deny_reasons end res = res
deny_reasons (field k (boolean b) fs) res = deny_reasons fs (record res { denied = b; reason = k })
deny_reasons (field k v fs) res = deny_reasons fs res

abbrev pub with_deny : Option Value → CustomResponse → CustomResponse
with_deny none res = res
with_deny (some (boolean b)) res = record res { denied = b }
with_deny (some (object fs)) res = deny_reasons fs res
with_deny (some v) res = res

-- Evaluate of the custom evaluator, on the bindings of the query
unfoldable pub custom_response : Text → Fields → CustomResponse
unfolding result_of field_of deny_reasons get_headers_var
custom_response t bindings =
    let vars = elim (result_of bindings) as (λ o. Fields) [ none ↦ end | some fs ↦ fs ] in
    with_deny (field_of (codes "deny") vars) (record {
      allowed = or_false (as_bool (field_of (codes "allow") vars));
      denied = false;
      reason = [];
      headers = get_headers_var t bindings;
    })

-- isValidClientCertificate, with what its cache has, and the parser and verifier of X.509
unfoldable pub is_valid_client_certificate :
    {X : Type 0}
    → (Bytes → Bytes → Option Bool)
    → (Bytes → Option X)
    → (Bytes → X → Bool)
    → Bytes
    → Bytes
    → Option Bool
is_valid_client_certificate cached parse verify ca cert =
    if bytes_eq ca []
    then some true
    else if bytes_eq cert []
    then some false
    else elim (cached ca cert) [
      | some v ↦ some v
      | none ↦ elim (parse cert) [ none ↦ none | some x ↦ some (verify ca x) ]
    ]

pub record Reply : Type 0 where
  pub status : ℤ
  pub message : Bytes
  pub headers : Headers

-- for k, v := range cres.Headers
unfoldable pub merge_headers : Headers → Headers → Headers
merge_headers [] headers = headers
merge_headers ((k, v) ∷ more) headers = merge_headers more (GoMap.insert bytes_order k v headers)

abbrev pub with_reason : CustomResponse → Reply → Reply
with_reason c reply = if bytes_eq c.reason [] then reply else record reply { message = c.reason }

-- The loop over the custom policies; none if one of them fails.
unfoldable pub apply_custom :
    (Bytes → Option CustomResponse) → List Bytes → Bool → Reply → Option (Bool × Reply)
unfolding merge_headers
apply_custom custom [] allow reply = some (allow, reply)
apply_custom custom (src ∷ policies) allow reply = elim (custom src) [
  | none ↦ none
  | some c ↦
      let reply' = with_reason c reply in
      apply_custom custom policies (allow && (c.allowed && not c.denied))
        (record reply' { headers = merge_headers c.headers reply'.headers })
]

-- The statuses that Evaluate gives, and their texts.
abbrev pub status_ok : ℤ
status_ok = pos 200

abbrev pub status_unauthorized : ℤ
status_unauthorized = pos 401

abbrev pub status_forbidden : ℤ
status_forbidden = pos 403

-- The end of Evaluate.
unfoldable pub decide : Bytes → Bool × Reply → Reply
decide session_id (allow, reply) =
    if allow
    then record reply { status = status_ok; message = codes "OK" }
    else if bytes_eq session_id []
    then record reply { status = status_unauthorized; message = codes "login required" }
    else record reply {
      status = status_forbidden;
      message = if bytes_eq reply.message [] then codes "Forbidden" else reply.message;
    }

-- A Request, as far as Evaluate reads it itself.
pub record Request : Type 0 where
  pub session_id : Bytes
  pub custom_policies : List Bytes

-- Evaluate, given what the query gives for the validity of the client's certificate.
unfoldable pub evaluate :
    Text
    → Option Bool
    → (Bool → Option Fields)
    → (Bytes → Option CustomResponse)
    → Request
    → Option Reply
unfolding get_deny_var get_allow_var get_headers_var apply_custom decide
evaluate t certificate query custom req = elim certificate [
  | none ↦ none
  | some is_valid ↦ elim (query is_valid) [
    | none ↦ none
    | some vars ↦ elim (get_deny_var t vars) [
      | d ∷ denied ↦ some (record { status = d.status; message = d.message; headers = [] })
      | [] ↦
          let reply : Reply = record {
            status = pos 0;
            message = [];
            headers = get_headers_var t vars;
          } in
          let policies = elim (get_allow_var vars) as (λ b. List Bytes) [
            | true ↦ req.custom_policies
            | false ↦ []
          ] in
          elim (apply_custom custom policies (get_allow_var vars) reply) [
            | none ↦ none
            | some decided ↦ some (decide req.session_id decided)
          ]
    ]
  ]
]
