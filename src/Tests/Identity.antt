-- ===== src/Tests/Identity.antt =====
-- The identity manager.
use pomerium.Prelude.{
  Bytes, bytes_order, same, same→eq, ◌≢◌, false, List, any_of, arith, Bool-cases, inl, inr, pos,
  ◌≤ℤ◌, ◌+ℤ◌, ◌⊎◌, ◌≡◌, refl, true, [], ◌∷◌, none, some, bytes_lt,
}
use pomerium.BTree.{listed}
use pomerium.Scheduler
use pomerium.Scheduler.{Scheduler, less_by_time, less_by_key, new}
use pomerium.Scheduler.Laws.{due, due-add, add-IsSynced, new-IsSynced}
use pomerium.Identity.Keys.{to_session_scheduler_key}
use pomerium.Strings.{codes}
use pomerium.Storage.{err}
use pomerium.Identity.Data.{
  OauthToken, Session, less_session, less_user, get_session, get_user, next_refresh, zero_time,
}
use pomerium.Identity.Data.Refresh.{next_refresh_bounds, NotAfter, grace_before}
use pomerium.Identity.Manager.{
  Trees, Manager, Config, Env, AuthError, is_temporary_error, refresh_due_session,
}
use pomerium.Identity.Manager.Loop.Unscheduled.{
  Step, attempt, update, HasKeys, attempted, attempted-refresh_due_session,
}
use pomerium.Identity.Manager.Users.{Messages, refresh_due_user}
use pomerium.Identity.Manager.Users.Missing.{receives, run, no_users}
use pomerium.Tests.Sample.{record_a}

abbrev pub trees : Trees
trees = record {
  by_time = listed less_by_time;
  by_key = listed less_by_key;
  session_tree = listed less_session;
  user_tree = listed less_user;
}

abbrev token : OauthToken
token = record { access_token = []; token_type = []; refresh_token = []; expires_at = none }

abbrev session : Session
session = record {
  session = record {
    user_id = codes "okta/1";
    id = codes "s";
    expires_at = some (pos 100);
    oauth_token = some token;
    claims = none;
  };
  last_refresh = pos 1;
  grace_period = pos 2;
  cool_off_duration = pos 3;
}

abbrev pub manager : Manager trees
manager = record {
  session_scheduler = new;
  user_scheduler = new;
  sessions = session ∷ [];
  users = [];
}

abbrev pub config : Config
config = record {
  group_refresh_interval = pos 9;
  session_refresh_grace_period = pos 2;
  session_refresh_cool_off_duration = pos 3;
}

abbrev canceled : AuthError
canceled = record { of_context = true; temporary = none }

-- A provider that cannot be reached.
abbrev pub env : Env
env = record {
  refresh = λ t s. err canceled;
  update_session_info = λ t s. (none, some canceled);
  update_user_info = λ t u. (record { name = []; email = []; claims = none }, some canceled);
  put_session = λ s. none;
  put_user = λ u. none;
}

abbrev pub messages : Messages
messages = record {
  session_type = codes "session";
  user_type = codes "user";
  unmarshal_session = λ a. none;
  unmarshal_user = λ a. some (record { id = codes "a"; name = []; email = []; claims = none });
}

found : get_session trees.session_tree manager.sessions (codes "okta/1") (codes "s") ≡ some session
unfolding get_session bytes_lt
found = refl

temporary : is_temporary_error canceled ≡ true
unfolding is_temporary_error
temporary = refl

abbrev due_key : Bytes
due_key = to_session_scheduler_key (codes "okta/1") (codes "s")

abbrev other_key : Bytes
other_key = to_session_scheduler_key (codes "b") (codes "r")

-- The session is due, and so is another one.
abbrev two_due : Manager trees
two_due = record manager {
  session_scheduler = Scheduler.add (Scheduler.add new (pos 40) due_key) (pos 45) other_key;
}

two_due-HasKeys : HasKeys two_due.session_scheduler
unfolding due new
two_due-HasKeys j t d =
    let one : Scheduler trees.by_time trees.by_key = Scheduler.add new (pos 40) due_key in
    elim (Bool-cases (same bytes_order j other_key)) [
      | inl e ↦ (codes "b", codes "r", omega arith, same→eq bytes_order j other_key e)
      | inr e ↦ elim (Bool-cases (same bytes_order j due_key)) [
        | inl f ↦ (codes "okta/1", codes "s", omega arith, same→eq bytes_order j due_key f)
        | inr f ↦ absurd (
            ground (
              arith,
              d,
              e,
              f,
              due-add one (pos 45) other_key j,
              due-add (new {T = trees.by_time} {K = trees.by_key}) (pos 40) due_key j,
            ))
      ]
    ]

-- A round over what is due, an update of a session of another user, and a later round.
abbrev afterwards : List Step
afterwards =
    attempt env (pos 50) (pos 52) (pos 53)
    ∷ update (pos 60) false (record session.session { user_id = codes "b" })
    ∷ attempt env (pos 200) (pos 201) (pos 202)
    ∷ []

others_updated : due_key ≢ to_session_scheduler_key (codes "b") (codes "s")
unfolding to_session_scheduler_key
others_updated e = cc (e)

attempted-refresh_due_session_example :
    any_of (same bytes_order due_key) (
      attempted config
        (refresh_due_session two_due config env (pos 50) (pos 51) due_key).0
        afterwards)
    ≡ false
attempted-refresh_due_session_example =
    attempted-refresh_due_session config refl two_due env (pos 50) (pos 51) (codes "okta/1")
      (codes "s") session token canceled afterwards
      (add-IsSynced (Scheduler.add new (pos 40) due_key) (pos 45) other_key
        (add-IsSynced new (pos 40) due_key new-IsSynced))
      two_due-HasKeys (omega arith) (omega arith) found refl refl refl temporary
      ((refl, omega arith), ((omega arith, others_updated), ((refl, omega arith), tt)))

no_users_example :
    let m = run manager config env messages (λ i j. pos 5) (receives record_a ∷ []) in
    (get_user trees.user_tree m.users (codes "a") ≡ none)
    × ((refresh_due_user m config env (pos 6) (λ i. pos 7) (codes "a")).1 ≡ [])
no_users_example =
    no_users manager config env messages (λ i j. pos 5) (receives record_a ∷ []) (pos 6)
      (λ i. pos 7) (codes "a") refl

next_refresh_bounds_example :
    (pos 4 ≤ℤ next_refresh session)
    × ((next_refresh session ≡ pos 4)
        ⊎ (NotAfter (next_refresh session) (some (pos 100))
            × (NotAfter (next_refresh session) none ⊎ (grace_before session ≡ some zero_time))))
unfolding ◌+ℤ◌
next_refresh_bounds_example = next_refresh_bounds session
