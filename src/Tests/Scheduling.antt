-- ===== src/Tests/Scheduling.antt =====
-- The scheduler.
use pomerium.Prelude.{ℤ, ◌⊎◌, [], pos, Bytes, ◌≡◌, refl, false, none, some, bytes_lt}
use pomerium.BTree.{listed}
use pomerium.Strings.{codes}
use pomerium.Scheduler.{max_time, less_by_time, less_by_key, Scheduler, new, add, next}
use pomerium.Scheduler.Laws.{at, due, IsSynced, new-IsSynced, add-IsSynced, due-add}
use pomerium.Scheduler.Next.{next-cases}

abbrev Sched : Type 0
Sched = Scheduler (listed less_by_time) (listed less_by_key)

abbrev empty : Sched
empty = new

abbrev one : Sched
one = add empty (pos 5) (codes "a")

empty-IsSynced : IsSynced empty
empty-IsSynced = new-IsSynced

one-IsSynced : IsSynced one
one-IsSynced = add-IsSynced empty (pos 5) (codes "a") empty-IsSynced

due-one : due one (codes "a") ≡ some (pos 5)
unfolding bytes_lt
due-one = due-add empty (pos 5) (codes "a") (codes "a")

next-cases_example :
    (((k : Bytes) → due one k ≡ none) × (next one ≡ (max_time, [])))
    ⊎ ((due one (next one).1 ≡ some (next one).0)
        × ((k : Bytes) (t : ℤ)
            → due one k ≡ some t
            → less_by_time (at t k) (at (next one).0 (next one).1) ≡ false))
next-cases_example = next-cases one one-IsSynced

due-empty : (k : Bytes) → due empty k ≡ none
unfolding due new
due-empty k = refl
