-- ===== src/Identity/Manager/Users/Missing.antt =====
-- The manager never learns of a user.
use pomerium.Prelude.{ℕ, ◌+◌, ℤ, Bytes, ◌≡◌, refl, ap, ◌∙◌, List, [], ◌∷◌, none, arith}
use pomerium.Storage.{Record}
use pomerium.Identity.Data.{get_user}
use pomerium.Identity.Manager.{Trees, Manager, Config, Env, refresh_due_session}
use pomerium.Identity.Manager.Users.{Messages, refresh_user, refresh_due_user, on_update_record}

-- What happens to a manager between two clearings of its collections.
pub data Event : Type 0 where
  receives : Record → Event
  session_is_due user_is_due : Bytes → Event

module _ {T : Trees} where
  -- The manager after an event, with the databroker's and the provider's answers and the times.
  unfoldable pub step : Manager T → Config → Env → Messages → (ℕ → ℤ) → Event → Manager T
  step m cfg env msg clock (receives r) = on_update_record m cfg msg (clock 0) r
  step m cfg env msg clock (session_is_due key) =
      (refresh_due_session m cfg env (clock 0) (clock 1) key).0
  step m cfg env msg clock (user_is_due key) = (refresh_due_user m cfg env (clock 0) clock key).0

  unfoldable pub run : Manager T → Config → Env → Messages → (ℕ → ℕ → ℤ) → List Event → Manager T
  run m cfg env msg clock [] = m
  run m cfg env msg clock (e ∷ es) =
      run (step m cfg env msg (clock 0) e) cfg env msg (λ i. clock (i + 1)) es

  users-on_update_record :
      (m : Manager T) (cfg : Config) (msg : Messages) (now : ℤ) (r : Record)
      → (on_update_record m cfg msg now r).users ≡ m.users
  unfolding on_update_record
  users-on_update_record m cfg msg now r = ground arith

  users-refresh_due_session :
      (m : Manager T) (cfg : Config) (env : Env) (now later : ℤ) (key : Bytes)
      → (refresh_due_session m cfg env now later key).0.users ≡ m.users
  unfolding refresh_due_session
  users-refresh_due_session m cfg env now later key = ground arith

  get_user_empty :
      (m : Manager T) (key : Bytes)
      → T.user_tree.items m.users ≡ []
      → get_user T.user_tree m.users key ≡ none
  unfolding get_user
  get_user_empty m key h = rw (T.user_tree.get-items, h) refl

  refresh_user_empty :
      (m : Manager T) (cfg : Config) (env : Env) (now : ℤ) (clock : ℕ → ℤ) (key : Bytes)
      → T.user_tree.items m.users ≡ []
      → ((refresh_due_user m cfg env now clock key).0.users ≡ m.users)
        × ((refresh_due_user m cfg env now clock key).1 ≡ [])
  unfolding refresh_due_user
  refresh_user_empty m cfg env now clock key h =
      rw (get_user_empty m key h, refresh_due_user, refresh_user) (refl, refl)

  users-step :
      (m : Manager T) (cfg : Config) (env : Env) (msg : Messages) (clock : ℕ → ℤ) (e : Event)
      → T.user_tree.items m.users ≡ []
      → (step m cfg env msg clock e).users ≡ m.users
  unfolding step
  users-step m cfg env msg clock (receives r) h = users-on_update_record m cfg msg (clock 0) r
  users-step m cfg env msg clock (session_is_due key) h =
      users-refresh_due_session m cfg env (clock 0) (clock 1) key
  users-step m cfg env msg clock (user_is_due key) h =
      (refresh_user_empty m cfg env (clock 0) clock key h).0

  users-run :
      (m : Manager T) (cfg : Config) (env : Env) (msg : Messages) (clock : ℕ → ℕ → ℤ)
      (es : List Event)
      → T.user_tree.items m.users ≡ []
      → (run m cfg env msg clock es).users ≡ m.users
  unfolding run
  users-run m cfg env msg clock [] h = refl
  users-run m cfg env msg clock (e ∷ es) h =
      let one = users-step m cfg env msg (clock 0) e h in
      users-run (step m cfg env msg (clock 0) e) cfg env msg (λ i. clock (i + 1)) es
        (ap T.user_tree.items one ∙ h)
      ∙ one

  -- Whatever records the databroker sends, those of users among them, and whatever is refreshed, a
  -- manager whose collection of users was cleared has no users, and refreshing a user sends
  -- nothing to the databroker.
  pub no_users :
      (m : Manager T) (cfg : Config) (env : Env) (msg : Messages) (clock : ℕ → ℕ → ℤ)
      (es : List Event) (now : ℤ) (times : ℕ → ℤ) (user_id : Bytes)
      → T.user_tree.items m.users ≡ []
      → let m' = run m cfg env msg clock es in
        (get_user T.user_tree m'.users user_id ≡ none)
        × ((refresh_due_user m' cfg env now times user_id).1 ≡ [])
  no_users m cfg env msg clock es now times user_id h =
      let m' = run m cfg env msg clock es in
      let empty = ap T.user_tree.items (users-run m cfg env msg clock es h) ∙ h in
      (get_user_empty m' user_id empty, (refresh_user_empty m' cfg env now times user_id empty).1)
