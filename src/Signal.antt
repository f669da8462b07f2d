-- ===== src/Signal.antt =====
-- internal/signal/signal.go. A channel of capacity one is a number, the names of the bound ones are
-- the keys of `chs`, and `full` is what the channels' buffers hold. A bound channel stays in use by
-- its owner after `Unbind`, so the buffers stand beside the map.
pub mod Wakeups
use pomerium.Prelude.{
  ℕ, suc, Bool, true, false, List, [], ◌∷◌, Option, none, some, ◌==◌, keep_if, any_of, not,
  if◌then◌else◌,
}

pub record Signal : Type 0 where
  -- the next channel that `make` returns
  pub fresh : ℕ
  pub chs : List ℕ
  pub full : ℕ → Bool

unfoldable pub new : Signal
new = record { fresh = 0; chs = []; full = λ ch. false }

-- select { case ch <- struct{}{}: default: } for each of the channels
unfoldable pub offer : List ℕ → (ℕ → Bool) → ℕ → Bool
offer [] full = full
offer (ch ∷ chs) full = offer chs (λ c. if c == ch then true else full c)

unfoldable pub broadcast : Signal → Signal
broadcast s = record s { full = offer s.chs s.full }

unfoldable pub bind : Signal → ℕ × Signal
bind s = (s.fresh, record s { fresh = suc s.fresh; chs = s.fresh ∷ s.chs })

unfoldable pub unbind : Signal → ℕ → Signal
unbind s ch = record s { chs = keep_if (λ c. not (c == ch)) s.chs }

-- case <-ch: of a select; `none` where it would block
unfoldable pub receive : Signal → ℕ → Option Signal
receive s ch =
    if s.full ch then some (record s { full = λ c. if c == ch then false else s.full c }) else none

abbrev pub is_bound : Signal → ℕ → Bool
is_bound s ch = any_of (λ c. c == ch) s.chs
