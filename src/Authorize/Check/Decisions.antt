-- ===== src/Authorize/Check/Decisions.antt =====
-- What Check decides, over the evaluator and the store.
use pomerium.Prelude.{
  Bytes, same→eq, time_order, ◌≡◌, refl, sym, ◌∙◌, Bool, true, false, ◌&&◌, List, [], Option, none,
  some, arith, inl, inr, Option-cases, Bool-cases, if◌then◌else◌,
}
use pomerium.Strings.{bytes_eq}
use pomerium.Authorize.Store.{get_record_data}
use pomerium.Authorize.Evaluator.{
  Fields, Reply, get_deny_var, get_allow_var, evaluate, status_ok, status_unauthorized,
  status_forbidden,
}
use pomerium.Authorize.Evaluator.Access.{all_grant, status-evaluate}
use pomerium.Authorize.Check.{
  Client, as_session, as_account, Store, force_sync, force_sync_session, no_interface, ok_response,
  check_error, respond, Env, id_of, check_session, check,
}

not_found :
    (client : Client) (store : Store) (id : Bytes)
    → as_session (get_record_data store client.session_type id) ≡ none
    → as_account (get_record_data store client.service_account_type id) ≡ none
    → client.get client.session_type id ≡ none
    → force_sync_session client store id ≡ (no_interface, store)
unfolding force_sync_session
not_found client store id s a g =
    rw (s, force_sync_session) (rw (a, force_sync_session) (rw (g, force_sync_session) refl))

-- A session state of which neither the store nor the databroker has a session or a service account
-- counts as none: the request is decided on as if it had come without a session.
pub check-unknown :
    (env : Env) (client : Client) (store : Store) (id : Bytes)
    → as_session (get_record_data store client.session_type id) ≡ none
    → as_account (get_record_data store client.service_account_type id) ≡ none
    → client.get client.session_type id ≡ none
    → check env client store (some id) ≡ check env client store none
unfolding check force_sync
check-unknown env client store id s a g = rw (not_found client store id s a g) refl

errors : (verify : Bool) → respond verify none ≡ check_error
unfolding respond
errors verify = refl

respond_ok :
    (verify : Bool) (rep reply : Reply)
    → respond verify (some rep) ≡ ok_response reply
    → rep.status ≡ status_ok
unfolding respond
respond_ok verify rep reply e =
    ground (arith, e, same→eq time_order rep.status status_ok, Bool-cases verify)

decided_ok :
    (granted no_session : Bool)
    → (if granted then status_ok else if no_session then status_unauthorized else status_forbidden)
      ≡ status_ok
    → granted ≡ true
decided_ok true no_session e = refl
decided_ok false true e = ground (arith, e)
decided_ok false false e = ground (arith, e)

-- Where the route's policies deny nothing to the session that the request is decided on, a request
-- is let through only if they allow it, and all custom policies of its route allow it and none
-- denies it.
pub ok-check_session :
    (env : Env) (state : Option Bytes) (is_valid : Bool) (policies : List Bytes) (vars : Fields)
    (reply : Reply)
    → env.certificate ≡ some is_valid
    → env.policies ≡ some policies
    → env.query (id_of state) is_valid ≡ some vars
    → get_deny_var env.text vars ≡ []
    → check_session env state ≡ ok_response reply
    → (get_allow_var vars && all_grant (env.custom (id_of state)) policies) ≡ true
unfolding check_session
ok-check_session env state is_valid policies vars reply c p q d e =
    elim (Option-cases (
      evaluate env.text (some is_valid) (env.query (id_of state)) (env.custom (id_of state))
        (record { session_id = id_of state; custom_policies = policies }))) [
          | inl n ↦ absurd (ground (arith, c, p, n, e, errors env.verify))
          | inr (rep, k) ↦
              let status =
                status-evaluate env.text is_valid (env.query (id_of state))
                  (env.custom (id_of state))
                  (record { session_id = id_of state; custom_policies = policies }) vars rep q d
                  k in
              let ok : rep.status ≡ status_ok =
                respond_ok env.verify rep reply (ground (arith, c, p, k, e)) in
              decided_ok (get_allow_var vars && all_grant (env.custom (id_of state)) policies)
                (bytes_eq (id_of state) []) (sym status ∙ ok)
        ]
