-- ===== src/Identity/Manager/Loop/Keyed.antt =====
-- The maps of the directory's entries over the rounds of the loop.
use pomerium.Prelude.{
  ℕ, suc, ℤ, List, [], ◌∷◌, some, subst, ◌≡◌, ltb_ℤ, Option-cases, Bool-cases, inl, inr, none,
  Option,
}
use mathlib.Core.Option.{some-injective}
use pomerium.Storage.{Record}
use pomerium.Strings.{bytes_eq}
use pomerium.Databroker.Syncer.{clear_records, update_records}
use pomerium.Identity.Manager.{Trees, Config, Env}
use pomerium.Identity.Manager.Users.{Messages}
use pomerium.Identity.Manager.Directory.Keyed.{IsKeyed, on_update_entry-IsKeyed}
use pomerium.Identity.Manager.Loop.{
  DirectoryMessages, LoopState, Received, from_syncer, from_timer, on_clear, on_record,
  on_update_records, receive, refresh_groups, Readings, Round, round, Refreshed, round_of,
  after_round,
}

module _ {T : Trees} where
  abbrev pub HasKeyed : LoopState T → Type 0
  HasKeyed s = IsKeyed s.directory_groups × IsKeyed s.directory_users

  on_record-HasKeyed :
      (cfg : Config) (msg : Messages) (dir : DirectoryMessages) (now : ℤ) (r : Record)
      (s : LoopState T)
      → HasKeyed s
      → HasKeyed (on_record cfg msg dir now r s)
  unfolding on_record
  on_record-HasKeyed cfg msg dir now r s h = elim (Bool-cases (bytes_eq r.type dir.group_type)) [
    | inl e ↦ elim (Option-cases (dir.unmarshal_group r.payload)) [
      | inl u ↦ rw (e, u) h
      | inr (g, u) ↦ rw (e, u) (on_update_entry-IsKeyed s.directory_groups g h.0, h.1)
    ]
    | inr e ↦ elim (Bool-cases (bytes_eq r.type dir.directory_user_type)) [
      | inl d ↦ elim (Option-cases (dir.unmarshal_directory_user r.payload)) [
        | inl u ↦ rw (e, d, u) h
        | inr (g, u) ↦ rw (e, d, u) (h.0, on_update_entry-IsKeyed s.directory_users g h.1)
      ]
      | inr d ↦ rw (e, d) h
    ]
  ]

  pub on_update_records-HasKeyed :
      (cfg : Config) (msg : Messages) (dir : DirectoryMessages) (clock : ℕ → ℤ) (l : List Record)
      (s : LoopState T)
      → HasKeyed s
      → HasKeyed (on_update_records cfg msg dir clock l s)
  unfolding on_update_records
  on_update_records-HasKeyed cfg msg dir clock [] s h = h
  on_update_records-HasKeyed cfg msg dir clock (r ∷ l) s h =
      on_update_records-HasKeyed cfg msg dir (λ i. clock (suc i)) l
        (on_record cfg msg dir (clock 0) r s) (on_record-HasKeyed cfg msg dir (clock 0) r s h)

  receive-HasKeyed :
      (cfg : Config) (msg : Messages) (dir : DirectoryMessages) (clock : ℕ → ℤ) (r : Received)
      (s : LoopState T)
      → HasKeyed s
      → HasKeyed (receive cfg msg dir clock r s)
  unfolding receive on_clear
  receive-HasKeyed cfg msg dir clock (from_syncer clear_records) s h = ((tt, tt), (tt, tt))
  receive-HasKeyed cfg msg dir clock (from_syncer (update_records l)) s h =
      on_update_records-HasKeyed cfg msg dir clock l s h
  receive-HasKeyed cfg msg dir clock from_timer s h = h

  after_round-HasKeyed :
      (s : LoopState T) (puts : List Record) (o : Option (Refreshed T)) (r : Round T)
      → HasKeyed s
      → after_round s puts o ≡ some r
      → HasKeyed r.state
  after_round-HasKeyed s puts none r h ran = cc
  after_round-HasKeyed s puts (some x) r h ran =
      subst (λ y. HasKeyed y.state) (some-injective (round_of s puts x) r ran) h

  refresh_groups-HasKeyed :
      (cfg : Config) (dir : DirectoryMessages) (at : Readings) (s : LoopState T)
      → HasKeyed s
      → HasKeyed (refresh_groups cfg dir at s).0
  unfolding refresh_groups
  refresh_groups-HasKeyed cfg dir at s h =
      elim (Bool-cases (ltb_ℤ s.directory_next_refresh at.now)) [ inl e ↦ rw e h | inr e ↦ rw e h ]

  -- A round of the loop keeps the maps of the directory's groups and users such that every entry
  -- stands under its own id, and only once.
  pub round-HasKeyed :
      (fuel : ℕ) (cfg : Config) (msg : Messages) (dir : DirectoryMessages) (env : Env)
      (at : Readings) (received : Received) (s : LoopState T) (r : Round T)
      → HasKeyed s
      → round fuel cfg msg dir env at received s ≡ some r
      → HasKeyed r.state
  unfolding round
  round-HasKeyed fuel cfg msg dir env at received s r h ran =
      let s' = receive cfg msg dir at.received_at received s in
      after_round-HasKeyed (refresh_groups cfg dir at s').0 _ _ r
        (refresh_groups-HasKeyed cfg dir at s'
          (receive-HasKeyed cfg msg dir at.received_at received s h))
        ran
