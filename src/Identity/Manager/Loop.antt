-- ===== src/Identity/Manager/Loop.antt =====
-- refreshLoop of internal/identity/manager/manager.go, and what sync.go sends to it. A round of the
-- loop is a function of what its select statement takes in, of the times and of the answers of the
-- provider, the databroker and the directory.
pub mod Follows
pub mod Sessions
pub mod Unscheduled
pub mod Keyed
pub mod Run
use pomerium.Prelude.{
  ℕ, zero, suc, ◌*◌, ◌+◌, ℤ, pos, ◌+ℤ◌, ltb_ℤ, Bytes, Bool, true, false, List, [], ◌∷◌, ◌++◌,
  Option, none, some, if◌then◌else◌,
}
use pomerium.Storage.{Any, Record}
use pomerium.Strings.{bytes_eq}
use pomerium.Scheduler
use pomerium.Databroker.Syncer.{HandlerCall, clear_records, update_records}
use pomerium.Identity.Manager.{
  Trees, Manager, Config, Env, BrokerCall, Outcome, refresh_due_session,
}
use pomerium.Identity.Manager.Users.{Messages, on_update_record, refresh_due_user}
use pomerium.Identity.Manager.Directory.{Entry, Entries, on_update_entry, refresh_directory}

-- The types of the directory's records, how their data is unmarshaled, and how a new record's data is
-- packed.
pub record DirectoryMessages : Type 0 where
  pub group_type : Bytes
  pub directory_user_type : Bytes
  pub unmarshal_group : Option Any → Option Entry
  pub unmarshal_directory_user : Option Any → Option Entry
  pub pack_group : Entry → Option Any
  pub pack_directory_user : Entry → Option Any

-- The manager with its directory.
pub record LoopState (T : Trees) : Type 0 where
  pub manager : Manager T
  pub directory_groups : Entries
  pub directory_users : Entries
  pub directory_next_refresh : ℤ

-- What the select statement takes in: what a syncer tells its handler, which comes through the
-- channels `clear` and `update`, or the timer.
pub data Received : Type 0 where
  from_syncer : HandlerCall → Received
  from_timer : Received

-- The answers of a loop over what is due: the manager, what it sent to the databroker, and when the
-- next is due.
abbrev pub Refreshed : Trees → Type 0
Refreshed T = Outcome T × ℤ

-- maxWait
abbrev pub max_wait : ℤ
max_wait = pos (10 * 60 * 1_000_000_000)

-- if tm.Before(nextTime) { nextTime = tm }
abbrev pub sooner : ℤ → ℤ → ℤ
sooner tm next_time = if ltb_ℤ tm next_time then tm else next_time

module _ {T : Trees} where
  -- The case of the channel `clear`.
  unfoldable pub on_clear : LoopState T → LoopState T
  on_clear s = record s {
    manager = record s.manager { sessions = T.session_tree.empty; users = T.user_tree.empty };
    directory_groups = [];
    directory_users = [];
  }

  -- The switch of onUpdateRecords on a record's type.
  unfoldable pub on_record :
      Config → Messages → DirectoryMessages → ℤ → Record → LoopState T → LoopState T
  on_record cfg msg dir now r s =
      if bytes_eq r.type dir.group_type
      then elim (dir.unmarshal_group r.payload) [
        | none ↦ s
        | some g ↦ record s { directory_groups = on_update_entry s.directory_groups g }
      ]
      else if bytes_eq r.type dir.directory_user_type
      then elim (dir.unmarshal_directory_user r.payload) [
        | none ↦ s
        | some u ↦ record s { directory_users = on_update_entry s.directory_users u }
      ]
      else record s { manager = on_update_record s.manager cfg msg now r }

  -- onUpdateRecords; `clock` gives the time for each record.
  unfoldable pub on_update_records :
      Config → Messages → DirectoryMessages → (ℕ → ℤ) → List Record → LoopState T → LoopState T
  unfolding on_record
  on_update_records cfg msg dir clock [] s = s
  on_update_records cfg msg dir clock (r ∷ l) s =
      on_update_records cfg msg dir (λ i. clock (suc i)) l (on_record cfg msg dir (clock 0) r s)

  -- The select statement.
  unfoldable pub receive :
      Config → Messages → DirectoryMessages → (ℕ → ℤ) → Received → LoopState T → LoopState T
  unfolding on_clear on_update_records
  receive cfg msg dir clock (from_syncer clear_records) s = on_clear s
  receive cfg msg dir clock (from_syncer (update_records l)) s =
      on_update_records cfg msg dir clock l s
  receive cfg msg dir clock from_timer s = s

  abbrev pub with_calls : List BrokerCall → Option (Refreshed T) → Option (Refreshed T)
  with_calls calls none = none
  with_calls calls (some ((m, more), tm)) = some ((m, calls ++ more), tm)

  -- The loop over the sessions that are due at the time `now`; each takes two readings of the clock.
  unfoldable pub refresh_sessions :
      ℕ → Manager T → Config → Env → ℤ → (ℕ → ℤ) → Option (Refreshed T)
  unfolding refresh_due_session
  refresh_sessions zero m cfg env now clock = none
  refresh_sessions (suc fuel) m cfg env now clock =
      let (tm, key) = Scheduler.next m.session_scheduler in
      let (m', calls) = refresh_due_session m cfg env (clock 0) (clock 1) key in
      let rest = refresh_sessions fuel m' cfg env now (λ i. clock (i + 2)) in
      if ltb_ℤ now tm then some ((m, []), tm) else with_calls calls rest

  -- The loop over the users that are due.
  unfoldable pub refresh_users :
      ℕ → Manager T → Config → Env → ℤ → (ℕ → ℕ → ℤ) → Option (Refreshed T)
  unfolding refresh_due_user
  refresh_users zero m cfg env now clock = none
  refresh_users (suc fuel) m cfg env now clock =
      let (tm, key) = Scheduler.next m.user_scheduler in
      let (m', calls) = refresh_due_user m cfg env (clock 0 0) (λ i. clock 0 (suc i)) key in
      let rest = refresh_users fuel m' cfg env now (λ i. clock (suc i)) in
      if ltb_ℤ now tm then some ((m, []), tm) else with_calls calls rest

-- After a round: the state, what it put for the directory, its other calls of the databroker, and
-- when the timer fires next.
pub record Round (T : Trees) : Type 0 where
  pub state : LoopState T
  pub puts : List Record
  pub calls : List BrokerCall
  pub next_time : ℤ

-- What a round reads: times for the records and the refreshes, the time after the select statement
-- and those at which deletions are stamped, and what UserGroups of the directory gives.
pub record Readings : Type 0 where
  pub received_at : ℕ → ℤ
  pub now : ℤ
  pub deleted_at : Entry → ℤ
  pub user_groups : Option (List Entry × List Entry)
  pub session_clock : ℕ → ℤ
  pub user_clock : ℕ → ℕ → ℤ

module _ {T : Trees} where
  -- The refresh of the directory in a round: the state, and what it puts.
  unfoldable pub refresh_groups :
      Config → DirectoryMessages → Readings → LoopState T → LoopState T × List Record
  unfolding refresh_directory
  refresh_groups cfg dir at s =
      if ltb_ℤ s.directory_next_refresh at.now
      then (
        record s { directory_next_refresh = at.now +ℤ cfg.group_refresh_interval },
        refresh_directory dir.pack_group dir.pack_directory_user at.deleted_at s.directory_groups
            s.directory_users at.user_groups,
      )
      else (s, [])

  -- The refreshes of the sessions and then of the users that are due, where the timer would fire at
  -- `next_time` without them.
  unfoldable pub refresh_due : ℕ → Config → Env → Readings → ℤ → Manager T → Option (Refreshed T)
  unfolding refresh_sessions refresh_users
  refresh_due fuel cfg env at next_time m =
      elim (refresh_sessions fuel m cfg env at.now at.session_clock) [
        | none ↦ none
        | some ((m', calls), session_time) ↦
            elim (refresh_users fuel m' cfg env at.now at.user_clock) [
              | none ↦ none
              | some ((m'', more), user_time) ↦
                  some ((m'', calls ++ more), sooner user_time (sooner session_time next_time))
            ]
      ]

  abbrev pub round_of : LoopState T → List Record → Refreshed T → Round T
  round_of s puts ((m, calls), next_time) = record {
    state = record s { manager = m };
    puts = puts;
    calls = calls;
    next_time = next_time;
  }

  abbrev pub after_round : LoopState T → List Record → Option (Refreshed T) → Option (Round T)
  after_round s puts none = none
  after_round s puts (some r) = some (round_of s puts r)

  -- A round of the loop, with fuel for its loops over what is due.
  unfoldable pub round :
      ℕ
      → Config
      → Messages
      → DirectoryMessages
      → Env
      → Readings
      → Received
      → LoopState T
      → Option (Round T)
  unfolding receive refresh_groups refresh_due
  round fuel cfg msg dir env at received s =
      let (s', puts) = refresh_groups cfg dir at (receive cfg msg dir at.received_at received s) in
      after_round s' puts (
        refresh_due fuel cfg env at (sooner s'.directory_next_refresh (at.now +ℤ max_wait))
          s'.manager)
