-- ===== src/Identity/Manager.antt =====
-- manager.go of internal/identity/manager. The identity provider and the databroker's client are
-- arguments, and so is each reading of the clock; the calls that change the databroker are a list.
-- A `Session` or `User` of Go holds a pointer to its message, which the collection's item shares, so
-- what the provider writes into the message shows in the collection too.
pub mod Sessions
pub mod Users
pub mod Directory
pub mod Loop
use pomerium.Prelude.{
  ℕ, suc, ℤ, pos, ltb_ℤ, Bytes, bytes_order, Bool, true, false, ◌||◌, List, [], ◌∷◌, ◌++◌, Option,
  none, some, if◌then◌else◌,
}
use pomerium.BTree.{BTree}
use pomerium.GoMap
use pomerium.GoMap.{GoMap}
use pomerium.Scheduler
use pomerium.Scheduler.{less_by_time, less_by_key, Scheduler}
use pomerium.Strings.{bytes_eq}
use pomerium.Storage.{Any, Record, as_time, Result, ok, err}
use pomerium.Identity.Keys.{to_session_scheduler_key, from_session_scheduler_key}
use pomerium.Identity.Data.{
  OauthToken, Oauth2Token, PbSession, PbUser, from_oauth_token, to_oauth_token, User, Session,
  less_session, less_user, zero_time, next_refresh, next_refresh_user, session_item, get_session,
  delete_session, get_sessions_for_user, get_user, delete_user, user_item,
}

-- An error of the provider, as isTemporaryError looks at it: whether it is one of the context's, and
-- what its method Temporary says, if it has one.
pub record AuthError : Type 0 where
  pub of_context : Bool
  pub temporary : Option Bool

unfoldable pub is_temporary_error : AuthError → Bool
is_temporary_error e = if e.of_context then true else elim e.temporary [ none ↦ false | some t ↦ t ]

-- What UpdateUserInfo unmarshals into a user.
pub record UserInfo : Type 0 where
  pub name : Bytes
  pub email : Bytes
  pub claims : Option Any

-- The authenticator and the databroker's client. UpdateUserInfo may write before it fails.
pub record Env : Type 0 where
  pub refresh : Oauth2Token → Session → Result AuthError Oauth2Token
  pub update_session_info : Oauth2Token → Session → Option Any × Option AuthError
  pub update_user_info : Oauth2Token → User → UserInfo × Option AuthError
  pub put_session : PbSession → Option Record
  pub put_user : PbUser → Option Record

pub record Config : Type 0 where
  pub group_refresh_interval : ℤ
  pub session_refresh_grace_period : ℤ
  pub session_refresh_cool_off_duration : ℤ

pub data BrokerCall : Type 0 where
  delete_session_call : Bytes → BrokerCall
  put_session_call : PbSession → BrokerCall
  put_user_call : PbUser → BrokerCall

pub record Trees : Type 1 where
  pub by_time : BTree less_by_time
  pub by_key : BTree less_by_key
  pub session_tree : BTree less_session
  pub user_tree : BTree less_user

module _ (T : Trees) where
  pub record Manager : Type 0 where
    pub session_scheduler : Scheduler T.by_time T.by_key
    pub user_scheduler : Scheduler T.by_time T.by_key
    pub sessions : T.session_tree.Tree
    pub users : T.user_tree.Tree

-- The record's DeletedAt is set.
abbrev pub is_deleted : Record → Bool
is_deleted r = elim r.deleted_at [ none ↦ false | some t ↦ true ]

-- The manager after a call, and what the call sent to the databroker.
abbrev pub Outcome : Trees → Type 0
Outcome T = Manager T × List BrokerCall

module _ {T : Trees} where
  -- onUpdateSession; `deleted` is whether the record has a DeletedAt.
  unfoldable pub on_update_session : Manager T → Config → ℤ → Bool → PbSession → Manager T
  on_update_session m cfg now deleted session =
      let key = to_session_scheduler_key session.user_id session.id in
      let unscheduled = Scheduler.remove m.session_scheduler key in
      let s : Session = record {
        session = session;
        last_refresh = now;
        grace_period = cfg.session_refresh_grace_period;
        cool_off_duration = cfg.session_refresh_cool_off_duration;
      } in
      if deleted
      then record m {
        session_scheduler = unscheduled;
        sessions = delete_session T.session_tree m.sessions session.user_id session.id;
      }
      else record m {
        session_scheduler = Scheduler.add unscheduled (next_refresh s) key;
        sessions = T.session_tree.replace_or_insert m.sessions s;
      }

  -- onUpdateUser
  unfoldable pub on_update_user : Manager T → Config → ℤ → Bool → PbUser → Manager T
  on_update_user m cfg now deleted user =
      let unscheduled = Scheduler.remove m.user_scheduler user.id in
      let u : User = record {
        user = user;
        last_refresh = now;
        refresh_interval = cfg.group_refresh_interval;
      } in
      if deleted
      then record m {
        user_scheduler = unscheduled;
        users = delete_user T.user_tree m.users user.id;
      }
      else record m {
        user_scheduler = Scheduler.add unscheduled (next_refresh_user u) user.id;
        users = T.user_tree.replace_or_insert m.users u;
      }

  -- A write through the pointer that the collection's item shares.
  abbrev pub write_session : Manager T → Session → Manager T
  write_session m s = record m { sessions = T.session_tree.replace_or_insert m.sessions s }

  abbrev pub write_user : Manager T → User → Manager T
  write_user m u = record m { users = T.user_tree.replace_or_insert m.users u }

  -- The end of refreshSession: the session goes to the databroker and what it answers is taken in.
  unfoldable pub save_session : Manager T → Config → Env → ℤ → Session → Outcome T
  unfolding on_update_session
  save_session m cfg env later s = elim (env.put_session s.session) [
    | none ↦ (m, put_session_call s.session ∷ [])
    | some r ↦
        (on_update_session m cfg later (is_deleted r) s.session, put_session_call s.session ∷ [])
  ]

  -- An error of the provider: the session is deleted at the databroker unless it is temporary.
  unfoldable pub on_auth_error : Manager T → AuthError → Bytes → Outcome T
  unfolding is_temporary_error
  on_auth_error m e id = if is_temporary_error e then (m, []) else (m, delete_session_call id ∷ [])

  -- From UpdateUserInfo on, with the new token in the session.
  unfoldable pub update_session : Manager T → Config → Env → ℤ → OauthToken → Session → Outcome T
  unfolding save_session on_auth_error
  update_session m cfg env later token s =
      let (claims, failure) = env.update_session_info (from_oauth_token token) s in
      let s' : Session = record s { session = record s.session { claims = claims } } in
      let m' = write_session m s' in
      elim failure [
        | some e ↦ on_auth_error m' e s.session.id
        | none ↦ save_session m' cfg env later s'
      ]

  -- From Refresh on.
  unfoldable pub refresh_token : Manager T → Config → Env → ℤ → OauthToken → Session → Outcome T
  unfolding update_session on_auth_error
  refresh_token m cfg env later token s = elim (env.refresh (from_oauth_token token) s) [
    | err e ↦ on_auth_error m e s.session.id
    | ok token' ↦
        let new = to_oauth_token token' in
        let s' : Session = record s { session = record s.session { oauth_token = some new } } in
        update_session (write_session m s') cfg env later new s'
  ]

  unfoldable pub refresh_found : Manager T → Config → Env → ℤ → ℤ → Session → Outcome T
  unfolding refresh_token
  refresh_found m cfg env now later s =
      let refreshed : Outcome T = elim s.session.oauth_token [
        | none ↦ (m, [])
        | some token ↦ refresh_token m cfg env later token s
      ] in
      if ltb_ℤ now (as_time s.session.expires_at)
      then refreshed
      else (m, delete_session_call s.session.id ∷ [])

  -- refreshSession; `now` is when the expiry is looked at, `later` when the new session is taken in.
  unfoldable pub refresh_session : Manager T → Config → Env → ℤ → ℤ → Bytes → Bytes → Outcome T
  unfolding refresh_found
  refresh_session m cfg env now later user_id session_id =
      elim (get_session T.session_tree m.sessions user_id session_id) [
        | none ↦ (m, [])
        | some s ↦ refresh_found m cfg env now later s
      ]

  -- A round of the loop of refreshLoop over the sessions that are due.
  unfoldable pub refresh_due_session : Manager T → Config → Env → ℤ → ℤ → Bytes → Outcome T
  unfolding refresh_session
  refresh_due_session m cfg env now later key =
      let (user_id, session_id) = from_session_scheduler_key key in
      refresh_session (record m { session_scheduler = Scheduler.remove m.session_scheduler key })
        cfg env now later user_id session_id
