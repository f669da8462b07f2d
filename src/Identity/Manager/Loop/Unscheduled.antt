-- ===== src/Identity/Manager/Loop/Unscheduled.antt =====
-- What becomes of a session that is not scheduled, while the loop refreshes others.
use pomerium.Prelude.{
  ℤ, pos, ◌≤ℤ◌, ltb_ℤ, Bytes, bytes_order, same, same→eq, Bool, true, false, ◌≡◌, ◌≢◌, refl, ap,
  sym, ◌∙◌, subst, List, [], ◌∷◌, ◌++◌, none, some, All, any_of, arith, Option-cases, Bool-cases,
  inl, inr, if◌then◌else◌,
}
use pomerium.BTree.{BTree}
use pomerium.Scheduler
use pomerium.Scheduler.{Scheduler, less_by_time, less_by_key, max_time}
use pomerium.Scheduler.Laws.{IsSynced, due, due-remove}
use pomerium.Scheduler.Next.{due-next}
use pomerium.Storage.{as_time, err}
use pomerium.Strings.Splitting.{Lacks}
use pomerium.Identity.Keys.{
  separator, to_session_scheduler_key, from_session_scheduler_key,
  from_session_scheduler_key-to_session_scheduler_key,
}
use pomerium.Identity.Data.{PbSession, OauthToken, Session, from_oauth_token, get_session}
use pomerium.Identity.Manager.{
  Trees, Manager, Config, Env, AuthError, is_temporary_error, on_update_session,
  refresh_due_session,
}
use pomerium.Identity.Manager.Sessions.{due-refresh_due_session}
use pomerium.Identity.Manager.Loop.Follows.{Follows, on_update_session-Follows}
use pomerium.Identity.Manager.Loop.Sessions.{refresh_due_session-Follows}

-- What the loop does to sessions: a round over what is due at the time `now`, with the times that the
-- refresh reads, or an update of a session by the databroker.
pub data Step : Type 0 where
  attempt : Env → ℤ → ℤ → ℤ → Step
  update : ℤ → Bool → PbSession → Step

module _ {T : Trees} (cfg : Config) where
  unfoldable pub step : Manager T → Step → Manager T
  unfolding refresh_due_session on_update_session
  step m (attempt env now at later) =
      let (tm, key) = Scheduler.next m.session_scheduler in
      let (m', calls) = refresh_due_session m cfg env at later key in if ltb_ℤ now tm then m else m'
  step m (update now deleted p) = on_update_session m cfg now deleted p

  -- The key that a step takes off the scheduler to refresh its session.
  abbrev pub taken : Manager T → Step → List Bytes
  taken m (attempt env now at later) =
      if ltb_ℤ now (Scheduler.next m.session_scheduler).0
      then []
      else (Scheduler.next m.session_scheduler).1 ∷ []
  taken m (update now deleted p) = []

  unfoldable pub attempted : Manager T → List Step → List Bytes
  unfolding step
  attempted m [] = []
  attempted m (s ∷ steps) = taken m s ++ attempted (step m s) steps

-- The key is of a user id without the separator.
abbrev pub IsKey : Bytes → Type 0
IsKey j = (u : Bytes) × (i : Bytes) × Lacks separator u × (j ≡ to_session_scheduler_key u i)

abbrev pub HasKeys : {T : BTree less_by_time} {K : BTree less_by_key} → Scheduler T K → Type 0
HasKeys s = (j : Bytes) (t : ℤ) → due s j ≡ some t → IsKey j

-- A step that is no update of the session with the key, at times before the maximal one.
abbrev pub IsQuiet : Bytes → Step → Type 0
IsQuiet key (attempt env now at later) = (ltb_ℤ now max_time ≡ true) × (now ≤ℤ later)
IsQuiet key (update now deleted p) =
    Lacks separator p.user_id × (key ≢ to_session_scheduler_key p.user_id p.id)

key_again :
    (k : Bytes)
    → IsKey k
    → to_session_scheduler_key (from_session_scheduler_key k).0 (from_session_scheduler_key k).1 ≡ k
key_again k (u, i, l, e) =
    let back = (from_session_scheduler_key-to_session_scheduler_key u i l).0 in
    ap (λ (x : Bytes × Bytes). to_session_scheduler_key x.0 x.1)
      (ap from_session_scheduler_key e ∙ back)
    ∙ sym e

any_of-append :
    (key : Bytes) (a b : List Bytes)
    → any_of (same bytes_order key) a ≡ false
    → any_of (same bytes_order key) b ≡ false
    → any_of (same bytes_order key) (a ++ b) ≡ false
any_of-append key [] b h k = k
any_of-append key (x ∷ a) b h k = ground (arith, h, any_of-append key a b, k)

module _ {T : BTree less_by_time} {K : BTree less_by_key} where
  Follows-HasKeys :
      (now : ℤ) (k : Bytes) (s s' : Scheduler T K)
      → Follows now k s s'
      → IsKey k
      → HasKeys s
      → HasKeys s'
  Follows-HasKeys now k s s' (v, due_then, others) (u, i, l, e) keys j t d = elim (others j t d) [
    | inl before ↦ keys j t before
    | inr q ↦ (u, i, l, q ∙ e)
  ]

  Follows-none :
      (now : ℤ) (key k : Bytes) (s s' : Scheduler T K)
      → Follows now k s s'
      → key ≢ k
      → due s key ≡ none
      → due s' key ≡ none
  Follows-none now key k s s' (v, due_then, others) other off = elim (Option-cases (due s' key)) [
    | inl e ↦ e
    | inr (t, e) ↦ elim (others key t e) [
      | inl before ↦ absurd (cc (before, off))
      | inr q ↦ absurd (other q)
    ]
  ]

  remove-HasKeys : (s : Scheduler T K) (k : Bytes) → HasKeys s → HasKeys (Scheduler.remove s k)
  remove-HasKeys s k keys j t d = elim (Bool-cases (same bytes_order j k)) [
    | inl e ↦ absurd (ground (arith, d, e, due-remove s k j))
    | inr e ↦ keys j t (ground (arith, d, e, due-remove s k j))
  ]

  remove-none :
      (s : Scheduler T K) (k key : Bytes) → due s key ≡ none → due (Scheduler.remove s k) key ≡ none
  remove-none s k key off = ground (arith, off, due-remove s k key)

module _ {T : Trees} (cfg : Config)
    (cool : ltb_ℤ (pos 0) cfg.session_refresh_cool_off_duration ≡ true) where
  -- The trees of the scheduler agree, its keys are of sessions, and the key is not among them.
  record IsOff (key : Bytes) (m : Manager T) : Type 0 where
    synced : IsSynced m.session_scheduler
    keys : HasKeys m.session_scheduler
    off : due m.session_scheduler key ≡ none

  refreshed-IsOff :
      (m : Manager T) (env : Env) (now at later : ℤ) (key k : Bytes)
      → now ≤ℤ later
      → IsKey k
      → key ≢ k
      → IsOff key m
      → IsOff key (refresh_due_session m cfg env at later k).0
  refreshed-IsOff m env now at later key k le is_key other h =
      let r = (refresh_due_session m cfg env at later k).0 in
      let f : Follows now k (Scheduler.remove m.session_scheduler k) r.session_scheduler =
        subst (λ x. Follows now x (Scheduler.remove m.session_scheduler k) r.session_scheduler)
          (key_again k is_key)
          (refresh_due_session-Follows cfg now cool m env at later k le h.synced) in
      record {
        synced = f.0;
        keys =
            Follows-HasKeys now k (Scheduler.remove m.session_scheduler k) r.session_scheduler f
              is_key (remove-HasKeys m.session_scheduler k h.keys);
        off =
            Follows-none now key k (Scheduler.remove m.session_scheduler k) r.session_scheduler f
              other (remove-none m.session_scheduler k key h.off);
      }

  updated-IsOff :
      (m : Manager T) (now : ℤ) (deleted : Bool) (p : PbSession) (key : Bytes)
      → IsQuiet key (update now deleted p)
      → IsOff key m
      → IsOff key (on_update_session m cfg now deleted p)
  updated-IsOff m now deleted p key (l, other) h =
      let k = to_session_scheduler_key p.user_id p.id in
      let s = m.session_scheduler in
      let s' = (on_update_session m cfg now deleted p).session_scheduler in
      let f : Follows now k s s' =
        on_update_session-Follows cfg now cool m now deleted p (ground arith) h.synced in
      record {
        synced = f.0;
        keys = Follows-HasKeys now k s s' f (p.user_id, p.id, l, refl) h.keys;
        off = Follows-none now key k s s' f other h.off;
      }

  attempted_off :
      (steps : List Step) (key : Bytes) (m : Manager T)
      → All (IsQuiet key) steps
      → IsOff key m
      → any_of (same bytes_order key) (attempted cfg m steps) ≡ false
  unfolding attempted step
  attempted_off [] key m quiet h = refl
  attempted_off (update now deleted p ∷ steps) key m (q, quiet) h =
      attempted_off steps key _ quiet (updated-IsOff m now deleted p key q h)
  attempted_off (attempt env now at later ∷ steps) key m ((soon, le), quiet) h =
      let s = m.session_scheduler in
      let k = (Scheduler.next s).1 in
      elim (Bool-cases (ltb_ℤ now (Scheduler.next s).0)) [
        | inl e ↦ rw e (attempted_off steps key m quiet h)
        | inr e ↦ elim (due-next s h.synced) [
          | inl idle ↦ absurd (ground (arith, soon, e, ap (λ x. x.0) idle))
          | inr d ↦
              let other : key ≢ k = λ q. cc (ap (due s) q, d, h.off) in
              rw e (
                any_of-append key (k ∷ [])
                  (attempted cfg (refresh_due_session m cfg env at later k).0 steps)
                  (ground (arith, same→eq bytes_order key k, other))
                  (attempted_off steps key (refresh_due_session m cfg env at later k).0 quiet (
                    refreshed-IsOff m env now at later key k le (h.keys k (Scheduler.next s).0 d)
                      other h)))
        ]
      ]

  -- With a positive cool-off, over a scheduler whose trees agree and whose keys are of user ids without
  -- the separator: a due session that has not expired, and whose refresh at the provider fails with an
  -- error that is temporary, is never taken off the scheduler again to be refreshed or, once it has
  -- expired, deleted, whatever other sessions the loop refreshes afterwards at times before the
  -- maximal one and whatever updates the databroker sends of other sessions.
  pub attempted-refresh_due_session :
      (m : Manager T) (env : Env) (now later : ℤ) (user_id id : Bytes) (s : Session)
      (token : OauthToken) (e : AuthError) (steps : List Step)
      → IsSynced m.session_scheduler
      → HasKeys m.session_scheduler
      → now ≤ℤ later
      → Lacks separator user_id
      → get_session T.session_tree m.sessions user_id id ≡ some s
      → ltb_ℤ now (as_time s.session.expires_at) ≡ true
      → s.session.oauth_token ≡ some token
      → env.refresh (from_oauth_token token) s ≡ err e
      → is_temporary_error e ≡ true
      → All (IsQuiet (to_session_scheduler_key user_id id)) steps
      → let key = to_session_scheduler_key user_id id in
        any_of
          (same bytes_order key)
          (attempted cfg (refresh_due_session m cfg env now later key).0 steps)
        ≡ false
  attempted-refresh_due_session m env now later user_id id s token e steps v keys le l h x t f y
        quiet =
      let key = to_session_scheduler_key user_id id in
      let is_key : IsKey key = (user_id, id, l, refl) in
      let r = (refresh_due_session m cfg env now later key).0 in
      let follows : Follows now key (Scheduler.remove m.session_scheduler key) r.session_scheduler =
        subst (λ k. Follows now k (Scheduler.remove m.session_scheduler key) r.session_scheduler)
          (key_again key is_key)
          (refresh_due_session-Follows cfg now cool m env now later key le v) in
      attempted_off steps key r quiet (record {
        synced = follows.0;
        keys =
            Follows-HasKeys now key (Scheduler.remove m.session_scheduler key) r.session_scheduler
              follows is_key (remove-HasKeys m.session_scheduler key keys);
        off = (due-refresh_due_session m cfg env now later user_id id s token e l h x t f y).0;
      })
