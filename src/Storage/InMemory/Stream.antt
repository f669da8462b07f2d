-- ===== src/Storage/InMemory/Stream.antt =====
-- pkg/storage/inmemory/stream.go: the stream of changes that `Sync` of the in-memory backend
-- returns. A call of `Next` that waits is a loop over the select statement; each round of it sees
-- what woke it up, and the backend at that time.
pub mod Delivery
pub mod Waiting
use pomerium.Prelude.{ℕ, Bool, true, false, List, [], ◌∷◌, Option, none, some, if◌then◌else◌}
use pomerium.BTree.{BTree}
use pomerium.BTree.Sorted.{first, rest}
use pomerium.Signal
use pomerium.Storage.{Record, StorageError, stream_closed, canceled}
use pomerium.Storage.InMemory.{less_version, Backend, get_since}

pub record Stream : Type 0 where
  pub changed : ℕ
  pub ready : List Record
  pub version : ℕ
  pub closed : Bool

abbrev pub is_nil : List Record → Bool
is_nil [] = true
is_nil (r ∷ l) = false

-- ready[len(ready)-1].GetVersion(), or the old version if nothing is ready
unfoldable pub last_version_of : List Record → ℕ → ℕ
last_version_of [] v = v
last_version_of (r ∷ l) v = last_version_of l r.version

unfoldable pub record_of : Stream → Option Record
record_of s = first s.ready

-- What ends a wait; a change shows in the backend as it is by then.
pub data Wake (B : BTree less_version) : Type 0 where
  ctx_done stream_closes : Wake B
  changes : Backend B → Wake B

module _ {B : BTree less_version} where
  -- newRecordStream, which binds a channel of the backend's signal
  unfoldable pub new_record_stream : Backend B → ℕ → Stream × Backend B
  new_record_stream b version =
      let (ch, on_change) = Signal.bind b.on_change in
      (
        record { changed = ch; ready = []; version = version; closed = false },
        record b { on_change = on_change },
      )

  unfoldable pub fill : Stream → Backend B → Stream
  fill s b =
      let ready = get_since b s.version in
      record s { ready = ready; version = last_version_of ready s.version }

  -- Close, which runs once
  unfoldable pub close : Stream → Backend B → Stream × Backend B
  close s b = if s.closed then (s, b) else (
    record s { closed = true },
    record b { on_change = Signal.unbind b.on_change s.changed },
  )

  -- The loop of Next(true): `none` while it still waits.
  unfoldable pub await : Stream → Backend B → List (Wake B) → Option Bool × Stream
  unfolding fill
  await s b [] = let s' = fill s b in (if is_nil s'.ready then none else some true, s')
  await s b (ctx_done ∷ wakes) =
      let s' = fill s b in (if is_nil s'.ready then some false else some true, s')
  await s b (stream_closes ∷ wakes) =
      let s' = fill s b in (if is_nil s'.ready then some false else some true, s')
  await s b (changes b' ∷ wakes) =
      let s' = fill s b in
      let again = await s' b' wakes in if is_nil s'.ready then again else (some true, s')

  -- Next(true)
  unfoldable pub next_wait : Stream → Backend B → List (Wake B) → Option Bool × Stream
  next_wait s b wakes =
      let s' = record s { ready = rest s.ready } in
      let loop = await s' b wakes in if is_nil s'.ready then loop else (some true, s')

  -- Next(false)
  unfoldable pub next : Stream → Backend B → Bool × Stream
  unfolding fill
  next s b =
      let s' = record s { ready = rest s.ready } in
      let s'' = fill s' b in
      if is_nil s'.ready
      then (if is_nil s''.ready then (false, s'') else (true, s''))
      else (true, s')

  -- Err, given whether the context is done
  unfoldable pub err : Stream → Backend B → Bool → Option StorageError
  err s b done =
      if done
      then some canceled
      else if s.closed
      then some stream_closed
      else if b.closed
      then some stream_closed
      else none
