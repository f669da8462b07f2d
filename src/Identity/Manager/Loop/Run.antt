-- ===== src/Identity/Manager/Loop/Run.antt =====
-- refreshLoop from its start over many rounds. The configuration does not change meanwhile.
use pomerium.Prelude.{
  ℕ, ℤ, ◌+ℤ◌, ◌≡◌, subst, List, [], ◌∷◌, Option, none, some, Option-cases, inl, inr,
}
use mathlib.Core.Option.{some-injective}
use pomerium.Storage.{Record}
use pomerium.Identity.Manager.{Trees, Config, Env}
use pomerium.Identity.Manager.Users.{Messages}
use pomerium.Identity.Manager.Loop.{
  DirectoryMessages, LoopState, Received, on_clear, on_update_records, max_wait, sooner, Readings,
  round,
}
use pomerium.Identity.Manager.Loop.Keyed.{HasKeyed, on_update_records-HasKeyed, round-HasKeyed}

module _ {T : Trees} where
  -- The wait for the initial sync, and when the timer fires first.
  unfoldable pub start :
      Config
      → Messages
      → DirectoryMessages
      → (ℕ → ℤ)
      → List Record
      → ℤ
      → LoopState T
      → LoopState T × ℤ
  unfolding on_clear on_update_records
  start cfg msg dir clock l now s =
      let s' = on_update_records cfg msg dir clock l (on_clear s) in
      (s', sooner s'.directory_next_refresh (now +ℤ max_wait))

  -- The rounds of the loop, each with what it reads and what it takes in.
  unfoldable pub rounds :
      ℕ
      → Config
      → Messages
      → DirectoryMessages
      → Env
      → List (Readings × Received)
      → LoopState T
      → Option (LoopState T)
  unfolding round
  rounds fuel cfg msg dir env [] s = some s
  rounds fuel cfg msg dir env ((at, received) ∷ l) s =
      elim (round fuel cfg msg dir env at received s) [
        | none ↦ none
        | some r ↦ rounds fuel cfg msg dir env l r.state
      ]

  start-HasKeyed :
      (cfg : Config) (msg : Messages) (dir : DirectoryMessages) (clock : ℕ → ℤ) (l : List Record)
      (now : ℤ) (s : LoopState T)
      → HasKeyed (start cfg msg dir clock l now s).0
  unfolding start on_clear
  start-HasKeyed cfg msg dir clock l now s =
      on_update_records-HasKeyed cfg msg dir clock l (on_clear s) ((tt, tt), (tt, tt))

  rounds-HasKeyed :
      (fuel : ℕ) (cfg : Config) (msg : Messages) (dir : DirectoryMessages) (env : Env)
      (l : List (Readings × Received)) (s t : LoopState T)
      → HasKeyed s
      → rounds fuel cfg msg dir env l s ≡ some t
      → HasKeyed t
  unfolding rounds
  rounds-HasKeyed fuel cfg msg dir env [] s t h ran = subst HasKeyed (some-injective s t ran) h
  rounds-HasKeyed fuel cfg msg dir env ((at, received) ∷ l) s t h ran =
      elim (Option-cases (round fuel cfg msg dir env at received s)) [
        | inl e ↦ cc (rw (e, rounds) at ran)
        | inr (r, e) ↦
            rounds-HasKeyed fuel cfg msg dir env l r.state t
              (round-HasKeyed fuel cfg msg dir env at received s r h e) (rw (e, rounds) at ran)
      ]

  -- Whatever state it starts in, and whatever the loop takes in: the maps of the directory's groups
  -- and users hold every entry under its own id, and only once.
  pub run-HasKeyed :
      (fuel : ℕ) (cfg : Config) (msg : Messages) (dir : DirectoryMessages) (env : Env)
      (clock : ℕ → ℤ) (synced : List Record) (now : ℤ) (l : List (Readings × Received))
      (s t : LoopState T)
      → rounds fuel cfg msg dir env l (start cfg msg dir clock synced now s).0 ≡ some t
      → HasKeyed t
  run-HasKeyed fuel cfg msg dir env clock synced now l s t =
      rounds-HasKeyed fuel cfg msg dir env l (start cfg msg dir clock synced now s).0 t
        (start-HasKeyed cfg msg dir clock synced now s)
