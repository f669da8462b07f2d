-- ===== src/Identity/Manager/Loop/Follows.antt =====
-- What a refresh of a session does to what is due.
use pomerium.Prelude.{
  ℤ, pos, ◌≤ℤ◌, +ℤ_parts, ltb_ℤ, Bytes, bytes_order, pair_order, same, same→eq, Bool, true, false,
  ◌≡◌, ◌⊎◌, ap, sym, subst, some, arith, Option-cases, Bool-cases, inl, inr,
}
use pomerium.BTree.{BTree}
use pomerium.BTree.Laws.{get-key}
use pomerium.Scheduler
use pomerium.Scheduler.{Scheduler, less_by_time, less_by_key, max_time}
use pomerium.Scheduler.Laws.{IsSynced, due, add-IsSynced, remove-IsSynced}
use pomerium.Storage.{as_time, Result-cases}
use pomerium.Identity.Keys.{to_session_scheduler_key}
use pomerium.Identity.Data.{
  PbSession, OauthToken, Session, next_refresh, get_session, from_oauth_token, to_oauth_token,
  session_item,
}
use pomerium.Identity.Data.Collections.{session_key}
use pomerium.Identity.Data.Refresh.{next_refresh_bounds}
use pomerium.Identity.Manager.{
  Trees, Manager, Config, Env, AuthError, on_update_session, save_session, on_auth_error,
  update_session, refresh_token, refresh_found, refresh_session, is_deleted, is_temporary_error,
  write_session,
}
use pomerium.Identity.Manager.Sessions.{managed, on_update_session-effect}

-- What is due at the time in the second scheduler, was so in the first; and what is scheduled there at
-- all, but for the key given, was scheduled for that time.
abbrev pub Follows :
    {T : BTree less_by_time} {K : BTree less_by_key}
    → ℤ
    → Bytes
    → Scheduler T K
    → Scheduler T K
    → Type 0
Follows now key s s' =
    IsSynced s'
    × ((j : Bytes) (t : ℤ) → due s' j ≡ some t → ltb_ℤ now t ≡ false → due s j ≡ some t)
    × ((j : Bytes) (t : ℤ) → due s' j ≡ some t → (due s j ≡ some t) ⊎ (j ≡ key))

next_is_later :
    (cfg : Config) (now later : ℤ) (p : PbSession)
    → ltb_ℤ (pos 0) cfg.session_refresh_cool_off_duration ≡ true
    → now ≤ℤ later
    → ltb_ℤ now (next_refresh (managed cfg later p)) ≡ true
next_is_later cfg now later p cool h =
    let bound = (next_refresh_bounds (managed cfg later p)).0 in
    ground (arith, bound, +ℤ_parts later cfg.session_refresh_cool_off_duration)

module _ {T : Trees} (cfg : Config) (now : ℤ)
    (cool : ltb_ℤ (pos 0) cfg.session_refresh_cool_off_duration ≡ true) where
  pub on_update_session-Follows :
      (m : Manager T) (later : ℤ) (deleted : Bool) (p : PbSession)
      → now ≤ℤ later
      → IsSynced m.session_scheduler
      → Follows now
          (to_session_scheduler_key p.user_id p.id)
          m.session_scheduler
          (on_update_session m cfg later deleted p).session_scheduler
  unfolding on_update_session
  on_update_session-Follows m later deleted p h v =
      let key = to_session_scheduler_key p.user_id p.id in
      let removed = remove-IsSynced m.session_scheduler key v in
      (
        elim (Bool-cases deleted) [
          | inl d ↦ rw d removed
          | inr d ↦ rw d (
              add-IsSynced (Scheduler.remove m.session_scheduler key)
                (next_refresh (managed cfg later p)) key removed)
        ],
        (λ j t d n. ground (
          arith,
          (on_update_session-effect m cfg later deleted p p.user_id p.id j).1,
          next_is_later cfg now later p cool h,
          d,
          n,
        )),
        λ j t d. elim (Bool-cases (same bytes_order j key)) [
          | inl e ↦ inr (same→eq bytes_order j key e)
          | inr e ↦ inl (
              ground
                (arith, (on_update_session-effect m cfg later deleted p p.user_id p.id j).1, e, d))
        ],
      )

  save_session-Follows :
      (m : Manager T) (env : Env) (later : ℤ) (s : Session)
      → now ≤ℤ later
      → IsSynced m.session_scheduler
      → Follows now
          (to_session_scheduler_key s.session.user_id s.session.id)
          m.session_scheduler
          (save_session m cfg env later s).0.session_scheduler
  unfolding save_session
  save_session-Follows m env later s h v = elim (Option-cases (env.put_session s.session)) [
    | inl e ↦ rw (e, save_session) (v, (λ j t d n. d), λ j t d. inl d)
    | inr (r, e) ↦
        rw (e, save_session) (on_update_session-Follows m later (is_deleted r) s.session h v)
  ]

  on_auth_error-Follows :
      (m : Manager T) (e : AuthError) (key id : Bytes)
      → IsSynced m.session_scheduler
      → Follows now key m.session_scheduler (on_auth_error m e id).0.session_scheduler
  unfolding on_auth_error
  on_auth_error-Follows m e key id v = elim (Bool-cases (is_temporary_error e)) [
    | inl t ↦ rw (t, on_auth_error) (v, (λ j t d n. d), λ j t d. inl d)
    | inr t ↦ rw (t, on_auth_error) (v, (λ j t d n. d), λ j t d. inl d)
  ]

  update_session-Follows :
      (m : Manager T) (env : Env) (later : ℤ) (token : OauthToken) (s : Session)
      → now ≤ℤ later
      → IsSynced m.session_scheduler
      → Follows now
          (to_session_scheduler_key s.session.user_id s.session.id)
          m.session_scheduler
          (update_session m cfg env later token s).0.session_scheduler
  unfolding update_session
  update_session-Follows m env later token s h v =
      let (claims, failure) = env.update_session_info (from_oauth_token token) s in
      let s' : Session = record s { session = record s.session { claims = claims } } in
      elim (Option-cases (env.update_session_info (from_oauth_token token) s).1) [
        | inl e ↦
            rw (e, update_session) (save_session-Follows (write_session m s') env later s' h v)
        | inr (f, e) ↦
            rw (e, update_session)
              (on_auth_error-Follows (write_session m s') f
                (to_session_scheduler_key s.session.user_id s.session.id) s.session.id v)
      ]

  refresh_token-Follows :
      (m : Manager T) (env : Env) (later : ℤ) (token : OauthToken) (s : Session)
      → now ≤ℤ later
      → IsSynced m.session_scheduler
      → Follows now
          (to_session_scheduler_key s.session.user_id s.session.id)
          m.session_scheduler
          (refresh_token m cfg env later token s).0.session_scheduler
  unfolding refresh_token
  refresh_token-Follows m env later token s h v =
      elim (Result-cases (env.refresh (from_oauth_token token) s)) [
        | inl (e, r) ↦
            rw (r, refresh_token)
              (on_auth_error-Follows m e (to_session_scheduler_key s.session.user_id s.session.id)
                s.session.id v)
        | inr (token', r) ↦
            let s' : Session = record s {
              session = record s.session { oauth_token = some (to_oauth_token token') };
            } in
            rw (r, refresh_token)
              (update_session-Follows (write_session m s') env later (to_oauth_token token') s' h v)
      ]

  refresh_found-Follows :
      (m : Manager T) (env : Env) (at later : ℤ) (s : Session)
      → now ≤ℤ later
      → IsSynced m.session_scheduler
      → Follows now
          (to_session_scheduler_key s.session.user_id s.session.id)
          m.session_scheduler
          (refresh_found m cfg env at later s).0.session_scheduler
  unfolding refresh_found
  refresh_found-Follows m env at later s h v =
      elim (Bool-cases (ltb_ℤ at (as_time s.session.expires_at))) [
        | inr x ↦ rw x (v, (λ j t d n. d), λ j t d. inl d)
        | inl x ↦ elim (Option-cases s.session.oauth_token) [
          | inl o ↦ rw (x, o) (v, (λ j t d n. d), λ j t d. inl d)
          | inr (token, o) ↦ rw (x, o) (refresh_token-Follows m env later token s h v)
        ]
      ]

  -- A session is found under the key of its own ids.
  key_of_found :
      (m : Manager T) (user_id id : Bytes) (s : Session)
      → get_session T.session_tree m.sessions user_id id ≡ some s
      → to_session_scheduler_key s.session.user_id s.session.id
        ≡ to_session_scheduler_key user_id id
  unfolding get_session
  key_of_found m user_id id s g = sym (
      ap (λ (k : Bytes × Bytes). to_session_scheduler_key k.0 k.1)
        (get-key (pair_order bytes_order bytes_order) session_key T.session_tree m.sessions
          (session_item user_id id) s g))

  pub refresh_session-Follows :
      (m : Manager T) (env : Env) (at later : ℤ) (user_id id : Bytes)
      → now ≤ℤ later
      → IsSynced m.session_scheduler
      → Follows now
          (to_session_scheduler_key user_id id)
          m.session_scheduler
          (refresh_session m cfg env at later user_id id).0.session_scheduler
  unfolding refresh_session refresh_found
  refresh_session-Follows m env at later user_id id h v =
      elim (Option-cases (get_session T.session_tree m.sessions user_id id)) [
        | inl g ↦ rw (g, refresh_session) (v, (λ j t d n. d), λ j t d. inl d)
        | inr (s, g) ↦
            rw (g, refresh_session)
              (subst
                (λ k.
                  Follows now k m.session_scheduler
                    (refresh_found m cfg env at later s).0.session_scheduler)
                (key_of_found m user_id id s g) (refresh_found-Follows m env at later s h v))
      ]
