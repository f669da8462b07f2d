-- ===== src/Storage/InMemory/Stream/Waiting.antt =====
-- Next(true): it waits only while there is nothing to deliver, and any change that a wake-up shows
-- ends the wait.
use pomerium.Prelude.{true, false, ◌≡◌, ◌≢◌, List, [], ◌∷◌, none, some, arith, List-cases, inl, inr}
use pomerium.BTree.{BTree}
use pomerium.BTree.Sorted.{rest}
use pomerium.Storage.InMemory.{less_version, Backend, get_since}
use pomerium.Storage.InMemory.Stream.{
  Stream, Wake, ctx_done, stream_closes, changes, last_version_of, fill, await, next_wait, next,
}
use pomerium.Storage.InMemory.Stream.Delivery.{pending}

module _ {B : BTree less_version} where
  await_now :
      (s : Stream) (b : Backend B) (wakes : List (Wake B))
      → get_since b s.version ≢ []
      → await s b wakes ≡ (some true, fill s b)
  unfolding await
  await_now s b [] h = ground (arith, h, List-cases (get_since b s.version))
  await_now s b (ctx_done ∷ wakes) h = ground (arith, h, List-cases (get_since b s.version))
  await_now s b (stream_closes ∷ wakes) h = ground (arith, h, List-cases (get_since b s.version))
  await_now s b (changes b' ∷ wakes) h = ground (arith, h, List-cases (get_since b s.version))

  -- While something is pending, Next(true) does what Next(false) does, without a wait.
  pub next_wait-next :
      (s : Stream) (b : Backend B) (wakes : List (Wake B))
      → pending s b ≢ []
      → next_wait s b wakes ≡ (some true, (next s b).1)
  unfolding pending next_wait next
  next_wait-next s b wakes h = elim (List-cases (rest s.ready)) [
    | inl e ↦ ground (
      arith,
      e,
      h,
      List-cases (get_since b s.version),
      await_now (record s { ready = rest s.ready }) b wakes,
    )
    | inr (x, xs, e) ↦ ground (arith, e)
  ]

  -- With nothing pending Next(true) waits; when the context ends or the stream is closed it returns
  -- false, and when a change wakes it and the backend by then has changes past the stream's
  -- version, it returns true with these ready.
  pub next_wait_idle :
      (s : Stream) (b b' : Backend B) (wakes : List (Wake B))
      → pending s b ≡ []
      → get_since b' s.version ≢ []
      → ((next_wait s b []).0 ≡ none)
        × ((next_wait s b (ctx_done ∷ wakes)).0 ≡ some false)
        × ((next_wait s b (stream_closes ∷ wakes)).0 ≡ some false)
        × (next_wait s b (changes b' ∷ wakes) ≡ (some true, fill s b'))
  unfolding pending next_wait fill await last_version_of
  next_wait_idle s b b' wakes p c = elim (List-cases (rest s.ready)) [
    | inl e ↦ (
      ground (arith, e, p),
      ground (arith, e, p),
      ground (arith, e, p),
      ground (arith, e, p, c, await_now (fill (record s { ready = rest s.ready }) b) b' wakes),
    )
    | inr (x, xs, e) ↦ absurd (ground (arith, e, p))
  ]
