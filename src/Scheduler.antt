-- ===== src/Scheduler.antt =====
-- internal/scheduler/scheduler.go: a priority queue of keys by the time at which they are due,
-- kept in two B-trees. The structs itemByKey and itemByTime have the same fields and Go converts
-- between them, so both are `Item`; their methods `Less` are the two orders.
pub mod Laws
pub mod Next
use pomerium.Prelude.{
  ℕ, ◌+◌, ◌-◌, ◌*◌, ◌^◌, ℤ, pos, ltb_ℤ, Bytes, bytes_lt, Bool, true, false, Option, none, some, [],
  ◌==◌, if◌then◌else◌,
}
use pomerium.BTree.{BTree}

pub record Item : Type 0 where
  pub time : ℤ
  pub key : Bytes

-- strings.Compare(i.key, than.key) < 0
abbrev pub less_by_key : Item → Item → Bool
less_by_key i than = bytes_lt i.key than.key

abbrev pub less_by_time : Item → Item → Bool
less_by_time i than =
    if ltb_ℤ i.time than.time
    then true
    else if ltb_ℤ than.time i.time
    then false
    else less_by_key i than

-- Nanoseconds since the zero time, which is 62135596800 s before the Unix epoch.
abbrev pub max_time : ℤ
max_time = pos ((2 ^ 63 - 1) * 1_000_000_000 + 999_999_999)

-- item.time, item.key of the least item; Min returns one, since the tree is not empty
due_item : Option Item → ℤ × Bytes
due_item none = (max_time, [])
due_item (some i) = (i.time, i.key)

module _ (T : BTree less_by_time) (K : BTree less_by_key) where
  pub record Scheduler : Type 0 where
    pub by_time : T.Tree
    pub by_key : K.Tree

module _ {T : BTree less_by_time} {K : BTree less_by_key} where
  unfoldable pub new : Scheduler T K
  new = record { by_time = T.empty; by_key = K.empty }

  -- byTime without the entry that byKey has for the key
  unfoldable pub unschedule : Scheduler T K → Option Item → T.Tree
  unschedule s none = s.by_time
  unschedule s (some i) = T.delete s.by_time i

  unfoldable pub add : Scheduler T K → ℤ → Bytes → Scheduler T K
  unfolding unschedule
  add s due key =
      let item : Item = record { time = due; key = key } in
      record {
        by_time = T.replace_or_insert (unschedule s (K.get s.by_key item)) item;
        by_key = K.replace_or_insert s.by_key item;
      }

  drop : Scheduler T K → Option Item → Scheduler T K
  drop s none = s
  drop s (some i) = record { by_time = T.delete s.by_time i; by_key = K.delete s.by_key i }

  unfoldable pub remove : Scheduler T K → Bytes → Scheduler T K
  unfolding drop
  remove s key = drop s (K.get s.by_key (record { time = pos 0; key = key }))

  unfoldable pub next : Scheduler T K → ℤ × Bytes
  unfolding due_item
  next s = if T.len s.by_time == 0 then (max_time, []) else due_item (T.min s.by_time)
