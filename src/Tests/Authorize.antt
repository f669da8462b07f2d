-- ===== src/Tests/Authorize.antt =====
-- The authorize service.
use pomerium.Prelude.{Bytes, ◌≡◌, refl, arith, true, false, ◌&&◌, [], ◌∷◌, Option, none, some}
use pomerium.Strings.{codes, bytes_eq}
use pomerium.Storage.{Any}
use pomerium.Storage.InMemory
use pomerium.GoMap
use pomerium.Databroker.Syncer.{sync}
use pomerium.Databroker.Server.Snapshots.{serving}
use pomerium.Databroker.Server.Streaming.{serve_sync}
use pomerium.Authorize.Store.{Synced, get_record_data, on_calls}
use pomerium.Authorize.Store.Mirror.{Mirrors, message_got, get_record_data-get}
use pomerium.Authorize.Evaluator.{
  boolean, object, Fields, field, end, Text, CustomResponse, Reply, get_deny_var, get_allow_var,
  evaluate, status_ok, Request,
}
use pomerium.Authorize.Evaluator.Access.{all_grant, status-evaluate}
use pomerium.Authorize.Check.{Client, Store, Env, check_session, check, respond}
use pomerium.Authorize.Check.Decisions.{check-unknown, ok-check_session}
use pomerium.Tests.Sample.{record_a, two_puts, whole, whole-IsHistory, gone-whole}
use pomerium.Tests.Syncer.{syncer, make, empty-IsCopy}

abbrev value_of : Option Any → Option Bytes
value_of none = none
value_of (some a) = some a.value

abbrev unsynced : Synced Bytes
unsynced = record { store = []; initial_sync = false }

empty-Mirrors : Mirrors value_of unsynced.store []
unfolding get_record_data GoMap.lookup
empty-Mirrors type_url id = refl

get_record_data-get_example :
    let r = sync syncer (serve_sync (serving 7 whole) make 7 0).0 in
    get_record_data (on_calls value_of unsynced r.calls).store record_a.type record_a.id
    ≡ message_got value_of (InMemory.get whole record_a.type record_a.id)
get_record_data-get_example =
    get_record_data-get value_of two_puts syncer [] unsynced whole make record_a.type record_a.id
      whole-IsHistory (omega arith) (omega (arith, gone-whole)) (omega arith) refl empty-IsCopy
      empty-Mirrors

-- An engine that allows everything.
abbrev bindings : Fields
bindings = field (codes "result") (object (field (codes "allow") (boolean true) end)) end

abbrev printer : Text
printer = record { sprint = λ v. []; atoi = λ s. none }

abbrev agreeing : CustomResponse
agreeing = record { allowed = true; denied = false; reason = []; headers = [] }

abbrev env : Env
env = record {
  verify = false;
  policies = some (codes "p" ∷ []);
  certificate = some true;
  text = printer;
  query = λ id is_valid. some bindings;
  custom = λ id src. some agreeing;
}

abbrev granted : Reply
granted = record { status = status_ok; message = codes "OK"; headers = [] }

nothing_denied : get_deny_var printer bindings ≡ []
unfolding get_deny_var bytes_eq
nothing_denied = refl

abbrev request : Request
request = record { session_id = codes "s"; custom_policies = codes "p" ∷ [] }

status-evaluate_example : granted.status ≡ status_ok
unfolding evaluate bytes_eq get_allow_var
status-evaluate_example =
    status-evaluate printer true (λ is_valid. some bindings) (λ src. some agreeing) request bindings
      granted refl nothing_denied refl

ok-check_session_example :
    (get_allow_var bindings && all_grant (env.custom (codes "s")) (codes "p" ∷ [])) ≡ true
unfolding check_session respond evaluate get_deny_var get_allow_var bytes_eq
ok-check_session_example =
    ok-check_session env (some (codes "s")) true (codes "p" ∷ []) bindings granted refl refl refl
      nothing_denied refl

-- A databroker that has nothing.
abbrev client : Client
client = record {
  session_type = codes "session";
  service_account_type = codes "account";
  user_type = codes "user";
  unmarshal = λ a. none;
  get = λ type id. none;
}

abbrev empty_store : Store
empty_store = []

check-unknown_example :
    check env client empty_store (some (codes "s")) ≡ check env client empty_store none
unfolding get_record_data GoMap.lookup
check-unknown_example = check-unknown env client empty_store (codes "s") refl refl refl
