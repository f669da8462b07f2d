-- ===== src/Tests/Backend.antt =====
-- The in-memory backend, its streams and the signal.
use pomerium.Prelude.{
  ℤ, ◌-ℤ◌, same, time_order, List, none, pos, ◌≡◌, refl, arith, false, [], ◌∷◌, take,
}
use pomerium.Signal
use pomerium.Signal.Wakeups
use pomerium.Signal.Wakeups.{
  broadcasts, binds, unbinds, receives, IsMade, pending, full-run, full-run-bind,
}
use pomerium.Storage.InMemory.{RecordKey, key_order, new, get_since, put_record, stamp, on_tick}
use pomerium.Storage.InMemory.History.{replay, IsHistory, on_tick-IsHistory}
use pomerium.Storage.InMemory.Sync.{Event, puts, ticks, run, history, catch_up}
use pomerium.Storage.InMemory.Expiry.{IsTrimmed, StartsAt, newest, run-IsTrimmed}
use pomerium.GoMap
use pomerium.Storage.InMemory.Stream.{Stream}
use pomerium.Storage.InMemory.Stream.Delivery.{drain, drain-pending}
use pomerium.Storage.InMemory.Stream.Delivery
use pomerium.Tests.Sample.{
  tree, record_a, record_b, two_puts, whole, trimmed, whole-IsHistory, gone-whole,
}

abbrev stream : Stream
stream = record { changed = 0; ready = []; version = 0; closed = false }

abbrev late : Stream
late = record { changed = 0; ready = []; version = 2; closed = false }

abbrev put_and_tick : List Event
put_and_tick = puts (pos 5) record_a ∷ ticks (pos 9) ∷ []

run-IsTrimmed_example :
    IsTrimmed {B = tree}
      (pos 1)
      put_and_tick
      (history (new {B = tree} (pos 1)) put_and_tick)
      (run (new (pos 1)) put_and_tick)
    × ((now : ℤ)
        → same time_order (pos 1) (pos 0) ≡ false
        → StartsAt
            (now -ℤ pos 1)
            (tree.items (on_tick (run (new {B = tree} (pos 1)) put_and_tick) now).changes))
    × ((k : RecordKey)
        → GoMap.lookup key_order k (run (new {B = tree} (pos 1)) put_and_tick).lookup
          ≡ newest k none (history (new {B = tree} (pos 1)) put_and_tick))
run-IsTrimmed_example = run-IsTrimmed {B = tree} (pos 1) put_and_tick (omega arith)

catch_up_example : replay (replay [] (take 1 two_puts)) (get_since whole 1) ≡ whole.lookup
catch_up_example = catch_up two_puts whole 1 whole-IsHistory (omega (arith, gone-whole))

since_start : get_since trimmed 0 ≡ record_b ∷ []
unfolding get_since
since_start = refl

on_tick-IsHistory_example : IsHistory two_puts (on_tick whole (pos 9))
on_tick-IsHistory_example = on_tick-IsHistory two_puts whole (pos 9) whole-IsHistory

pending_start : Delivery.pending stream whole ≡ record_a ∷ record_b ∷ []
unfolding Delivery.pending get_since
pending_start = refl

whole_delivered : Delivery.pending late whole ≡ []
unfolding Delivery.pending get_since
whole_delivered = refl

drain-pending_example : drain 3 stream whole ≡ Delivery.pending stream whole
drain-pending_example =
    drain-pending two_puts stream whole 3 whole-IsHistory (rw pending_start (omega arith))

late_changes :
    get_since (put_record whole (pos 9) record_a) late.version ≡ stamp whole (pos 9) record_a ∷ []
unfolding get_since put_record stamp
late_changes = refl

new-IsMade : IsMade Signal.new
unfolding Signal.new
new-IsMade = record { bound = tt; buffered = λ ch h. refl }

full-run-bind_example :
    (Wakeups.run (Signal.bind Signal.new).1 (broadcasts ∷ receives 0 ∷ [])).full
      (Signal.bind Signal.new).0
    ≡ pending (Signal.bind Signal.new).0 false (broadcasts ∷ receives 0 ∷ [])
full-run-bind_example =
    full-run-bind Signal.new (broadcasts ∷ receives 0 ∷ []) new-IsMade (tt, (tt, tt))
