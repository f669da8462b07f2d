-- ===== src/Identity/Manager/Users.antt =====
-- refreshUser and onUpdateRecords of internal/identity/manager/manager.go.
pub mod Missing
use pomerium.Prelude.{
  ℕ, suc, ℤ, Bytes, Bool, true, false, List, [], ◌∷◌, ◌++◌, Option, none, some, if◌then◌else◌,
}
use pomerium.Scheduler
use pomerium.Strings.{bytes_eq}
use pomerium.Storage.{Any, Record}
use pomerium.Identity.Data.{
  PbSession, PbUser, OauthToken, from_oauth_token, User, Session, next_refresh_user,
  get_sessions_for_user, get_user,
}
use pomerium.Identity.Manager.{
  Trees, Manager, Config, Env, UserInfo, BrokerCall, put_user_call, Outcome, is_deleted,
  is_temporary_error, on_auth_error, on_update_session, on_update_user, write_user,
}

-- The user with what the provider wrote into its message.
abbrev pub with_info : User → UserInfo → User
with_info u i = record u {
  user = record u.user { name = i.name; email = i.email; claims = i.claims };
}

-- The types of records that onUpdateRecords tells apart, and how their data is unmarshaled.
pub record Messages : Type 0 where
  pub session_type : Bytes
  pub user_type : Bytes
  pub unmarshal_session : Option Any → Option PbSession
  pub unmarshal_user : Option Any → Option PbUser

module _ {T : Trees} where
  abbrev prepend_call : BrokerCall → Outcome T → Outcome T
  prepend_call c r = (r.0, c ∷ r.1)

  abbrev prepend_calls : List BrokerCall → Outcome T → Outcome T
  prepend_calls cs r = (r.0, cs ++ r.1)

  -- A write into the message of the user, which the collection's item shares while it is there.
  unfoldable pub write_info : Manager T → Bytes → UserInfo → Manager T
  write_info m id info = elim (get_user T.user_tree m.users id) [
    | none ↦ m
    | some item ↦ write_user m (with_info item info)
  ]

  -- The loop of refreshUser over the user's sessions; `clock` gives the time in each round.
  unfoldable pub refresh_user_sessions :
      Manager T → Config → Env → (ℕ → ℤ) → User → List Session → Outcome T
  unfolding on_auth_error on_update_user write_info
  refresh_user_sessions m cfg env clock u [] = (m, [])
  refresh_user_sessions m cfg env clock u (s ∷ l) = elim s.session.oauth_token [
    | none ↦ refresh_user_sessions m cfg env (λ i. clock (suc i)) u l
    | some token ↦
        let (info, failure) = env.update_user_info (from_oauth_token token) u in
        let u' = with_info u info in
        let m' = write_info m u.user.id info in
        elim failure [
          | some e ↦
              let (m'', calls) = on_auth_error m' e s.session.id in
              if is_temporary_error e
              then (m'', calls)
              else prepend_calls calls (refresh_user_sessions m'' cfg env (λ i. clock (suc i)) u' l)
          | none ↦ elim (env.put_user u'.user) [
            | none ↦
                prepend_call (put_user_call u'.user)
                  (refresh_user_sessions m' cfg env (λ i. clock (suc i)) u' l)
            | some r ↦ prepend_call (put_user_call u'.user) (
                refresh_user_sessions (on_update_user m' cfg (clock 0) (is_deleted r) u'.user) cfg
                  env (λ i. clock (suc i)) u' l)
          ]
        ]
  ]

  -- refreshUser
  unfoldable pub refresh_user : Manager T → Config → Env → ℤ → (ℕ → ℤ) → Bytes → Outcome T
  unfolding refresh_user_sessions
  refresh_user m cfg env now clock user_id = elim (get_user T.user_tree m.users user_id) [
    | none ↦ (m, [])
    | some u ↦
        let u' = record u { last_refresh = now } in
        let m' = record m {
          user_scheduler = Scheduler.add m.user_scheduler (next_refresh_user u') u'.user.id;
        } in
        refresh_user_sessions m' cfg env clock u'
          (get_sessions_for_user T.session_tree m'.sessions user_id)
  ]

  -- A round of the loop of refreshLoop over the users that are due.
  unfoldable pub refresh_due_user : Manager T → Config → Env → ℤ → (ℕ → ℤ) → Bytes → Outcome T
  unfolding refresh_user
  refresh_due_user m cfg env now clock key =
      refresh_user (record m { user_scheduler = Scheduler.remove m.user_scheduler key }) cfg env now
        clock key

  -- The cases of onUpdateRecords for sessions and users, for a record received at the time `now`.
  unfoldable pub on_update_record : Manager T → Config → Messages → ℤ → Record → Manager T
  unfolding on_update_session
  on_update_record m cfg msg now r =
      if bytes_eq r.type msg.session_type
      then elim (msg.unmarshal_session r.payload) [
        | none ↦ m
        | some session ↦ on_update_session m cfg now (is_deleted r) session
      ]
      else if bytes_eq r.type msg.user_type
      then elim (msg.unmarshal_user r.payload) [ none ↦ m | some user ↦ m ]
      else m
