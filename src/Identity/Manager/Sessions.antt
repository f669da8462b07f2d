-- ===== src/Identity/Manager/Sessions.antt =====
-- What the manager does about sessions.
use pomerium.Prelude.{
  ℤ, ltb_ℤ, Bytes, bytes_order, pair_order, same, Bool, true, false, not, ◌≡◌, List, [], ◌∷◌,
  Option, none, some, arith, if◌then◌else◌,
}
use pomerium.BTree.Laws.{get-replace_or_insert, get-delete}
use pomerium.Scheduler
use pomerium.Scheduler.Laws.{due, due-add, due-remove}
use pomerium.Storage.{as_time, ok, err}
use pomerium.Strings.Splitting.{Lacks}
use pomerium.Identity.Keys.{
  separator, to_session_scheduler_key, from_session_scheduler_key-to_session_scheduler_key,
}
use pomerium.Identity.Data.{
  PbSession, OauthToken, Session, from_oauth_token, to_oauth_token, next_refresh, get_session,
  delete_session, session_item,
}
use pomerium.Identity.Data.Collections.{session_key}
use pomerium.Identity.Manager.{
  Trees, Manager, Config, Env, AuthError, BrokerCall, delete_session_call, put_session_call,
  put_user_call, is_temporary_error, on_update_session, refresh_token, refresh_session,
  refresh_due_session,
}

-- The session as onUpdateSession keeps it.
abbrev pub managed : Config → ℤ → PbSession → Session
managed cfg now session = record {
  session = session;
  last_refresh = now;
  grace_period = cfg.session_refresh_grace_period;
  cool_off_duration = cfg.session_refresh_cool_off_duration;
}

module _ {T : Trees} where
  -- An update of a session puts it into the collection and schedules it for when it is due, or, if
  -- it is deleted, takes it out of both; every other session stays, scheduled as it was.
  pub on_update_session-effect :
      (m : Manager T) (cfg : Config) (now : ℤ) (deleted : Bool) (p : PbSession)
      (user_id id key : Bytes)
      → let m' = on_update_session m cfg now deleted p in
        let s = managed cfg now p in
        (get_session T.session_tree m'.sessions user_id id ≡ (
          if same (pair_order bytes_order bytes_order) (user_id, id) (p.user_id, p.id)
          then (if deleted then none else some s)
          else get_session T.session_tree m.sessions user_id id))
        × (due m'.session_scheduler key ≡ (
            if same bytes_order key (to_session_scheduler_key p.user_id p.id)
            then (if deleted then none else some (next_refresh s))
            else due m.session_scheduler key))
  unfolding on_update_session get_session delete_session
  on_update_session-effect m cfg now true p user_id id key = (
    get-delete (pair_order bytes_order bytes_order) session_key T.session_tree m.sessions
        (session_item p.user_id p.id) (session_item user_id id),
    due-remove m.session_scheduler (to_session_scheduler_key p.user_id p.id) key,
  )
  on_update_session-effect m cfg now false p user_id id key = (
    get-replace_or_insert (pair_order bytes_order bytes_order) session_key T.session_tree m.sessions
        (managed cfg now p) (session_item user_id id),
    ground (
      arith,
      due-add (Scheduler.remove m.session_scheduler (to_session_scheduler_key p.user_id p.id))
          (next_refresh (managed cfg now p)) (to_session_scheduler_key p.user_id p.id) key,
      due-remove m.session_scheduler (to_session_scheduler_key p.user_id p.id) key,
    ),
  )

-- Whether the provider rejects the session for good: its token cannot be refreshed, or its user info
-- cannot be fetched with the new token, with an error that is not temporary.
rejected_info : Option AuthError → Bool
rejected_info none = false
rejected_info (some e) = not (is_temporary_error e)

unfoldable pub rejects : Env → Session → Bool
unfolding rejected_info
rejects env s = elim s.session.oauth_token [
  | none ↦ false
  | some token ↦ elim (env.refresh (from_oauth_token token) s) [
    | err e ↦ not (is_temporary_error e)
    | ok token' ↦
        rejected_info
          (env.update_session_info (from_oauth_token (to_oauth_token token')) (record s {
            session = record s.session { oauth_token = some (to_oauth_token token') };
          })).1
  ]
]

abbrev pub deletes : List BrokerCall → Bool
deletes [] = false
deletes (delete_session_call id ∷ l) = true
deletes (put_session_call p ∷ l) = deletes l
deletes (put_user_call p ∷ l) = deletes l

module _ {T : Trees} where
  -- Refreshing a session deletes it at the databroker exactly if it has expired or the provider
  -- rejects it for good.
  pub deletes-refresh_session :
      (m : Manager T) (cfg : Config) (env : Env) (now later : ℤ) (user_id id : Bytes) (s : Session)
      → get_session T.session_tree m.sessions user_id id ≡ some s
      → deletes (refresh_session m cfg env now later user_id id).1
        ≡ (if ltb_ℤ now (as_time s.session.expires_at) then rejects env s else true)
  unfolding refresh_session rejects
  deletes-refresh_session m cfg env now later user_id id s h =
      rw (h, refresh_session) (ground arith)

  -- A due session that is refreshed while the provider has a temporary error is left unscheduled.
  pub due-refresh_due_session :
      (m : Manager T) (cfg : Config) (env : Env) (now later : ℤ) (user_id id : Bytes) (s : Session)
      (token : OauthToken) (e : AuthError)
      → Lacks separator user_id
      → get_session T.session_tree m.sessions user_id id ≡ some s
      → ltb_ℤ now (as_time s.session.expires_at) ≡ true
      → s.session.oauth_token ≡ some token
      → env.refresh (from_oauth_token token) s ≡ err e
      → is_temporary_error e ≡ true
      → let key = to_session_scheduler_key user_id id in
        let r = refresh_due_session m cfg env now later key in
        (due r.0.session_scheduler key ≡ none) × (r.1 ≡ [])
  unfolding refresh_due_session
  due-refresh_due_session m cfg env now later user_id id s token e l h x t f y =
      let k = (from_session_scheduler_key-to_session_scheduler_key user_id id l).0 in
      rw (k, refresh_due_session, h, refresh_session, x, t, f, refresh_token, y)
        (ground (
          arith,
          bytes_order.irrefl (to_session_scheduler_key user_id id),
          due-remove m.session_scheduler (to_session_scheduler_key user_id id)
              (to_session_scheduler_key user_id id),
        ))
