-- ===== src/Scheduler/Laws.antt =====
-- The two trees of a scheduler agree, so it is a map from keys to times with a least entry.
use pomerium.Prelude.{
  ℤ, pos, Bytes, bytes_order, time_order, pair_order, same, ◌≡◌, refl, Option, none, some, arith,
  Option-cases, inl, inr, if◌then◌else◌,
}
use pomerium.BTree.{BTree}
use pomerium.BTree.Laws.{
  IsSorted, get-empty, get-replace_or_insert, get-delete, empty-IsSorted,
  replace_or_insert-IsSorted, delete-IsSorted, get-key, get_same_key,
}
use pomerium.Scheduler.{
  Item, less_by_key, less_by_time, Scheduler, new, unschedule, add, drop, remove,
}

abbrev pub time_key : Item → ℤ × Bytes
time_key i = (i.time, i.key)

abbrev pub only_key : Item → Bytes
only_key i = i.key

abbrev pub at : ℤ → Bytes → Item
at t k = record { time = t; key = k }

abbrev pub time_of : Option Item → Option ℤ
time_of none = none
time_of (some i) = some i.time

-- The item, if it is due at the time.
abbrev pub if_at : ℤ → Option Item → Option Item
if_at t none = none
if_at t (some i) = if same time_order t i.time then some i else none

module _ {T : BTree less_by_time} {K : BTree less_by_key} where
  -- When the key is due.
  unfoldable pub due : Scheduler T K → Bytes → Option ℤ
  due s k = time_of (K.get s.by_key (at (pos 0) k))

  pub record IsSynced (s : Scheduler T K) : Type 0 where
    pub sorted : IsSorted (pair_order time_order bytes_order) time_key T s.by_time
    pub agree : (x : Item) → T.get s.by_time x ≡ if_at x.time (K.get s.by_key x)

  pub new-IsSynced : IsSynced (new {T = T} {K = K})
  unfolding new
  new-IsSynced = record {
    sorted = empty-IsSorted (pair_order time_order bytes_order) time_key T;
    agree = λ x. simp (
      get-empty (pair_order time_order bytes_order) time_key T,
      get-empty bytes_order only_key K,
    );
  }

  -- After Add the key is due at the new time, and every other key is due when it was.
  pub due-add :
      (s : Scheduler T K) (t : ℤ) (k j : Bytes)
      → due (add s t k) j ≡ (if same bytes_order j k then some t else due s j)
  unfolding due add
  due-add s t k j = rw (get-replace_or_insert bytes_order only_key K) (ground arith)

  -- After Remove the key is not scheduled, and every other key is due when it was.
  pub due-remove :
      (s : Scheduler T K) (k j : Bytes)
      → due (remove s k) j ≡ (if same bytes_order j k then none else due s j)
  unfolding due remove
  due-remove s k j = elim (Option-cases (K.get s.by_key (at (pos 0) k))) [
    | inl e ↦ rw (e, drop) (ground (arith, bytes_order.connected j k))
    | inr (i, e) ↦
        rw (e, drop, get-delete bytes_order only_key K)
          (ground (arith, get-key bytes_order only_key K s.by_key (at (pos 0) k) i))
  ]

  -- What `add` takes out of the tree by time: nothing else is lost.
  get-unschedule :
      (s : Scheduler T K) (k : Bytes) (t : ℤ) (x : Item)
      → IsSynced s
      → T.get (unschedule s (K.get s.by_key (at t k))) x
        ≡ (if same bytes_order x.key k then none else T.get s.by_time x)
  unfolding unschedule
  get-unschedule s k t x v = elim (Option-cases (K.get s.by_key (at t k))) [
    | inl e ↦
        rw (e, unschedule)
          (ground (
            arith,
            v.agree x,
            bytes_order.connected x.key k,
            get_same_key bytes_order only_key K s.by_key x (at t k),
          ))
    | inr (i, e) ↦
        rw (e, unschedule, get-delete (pair_order time_order bytes_order) time_key T)
          (ground (
            arith,
            v.agree x,
            get-key bytes_order only_key K s.by_key (at t k) i e,
            bytes_order.connected x.key k,
            get_same_key bytes_order only_key K s.by_key x (at t k),
          ))
  ]

  unschedule-IsSorted :
      (s : Scheduler T K) (o : Option Item)
      → IsSynced s
      → IsSorted (pair_order time_order bytes_order) time_key T (unschedule s o)
  unfolding unschedule
  unschedule-IsSorted s none v = v.sorted
  unschedule-IsSorted s (some i) v =
      delete-IsSorted (pair_order time_order bytes_order) time_key T s.by_time i v.sorted

  -- Add keeps the two trees in agreement and the tree by time in order, also where it moves a key.
  pub add-IsSynced : (s : Scheduler T K) (t : ℤ) (k : Bytes) → IsSynced s → IsSynced (add s t k)
  unfolding add
  add-IsSynced s t k v = record {
    sorted =
        replace_or_insert-IsSorted (pair_order time_order bytes_order) time_key T _ (at t k)
          (unschedule-IsSorted s (K.get s.by_key (at t k)) v);
    agree = λ x.
        simp
          (
            get-replace_or_insert (pair_order time_order bytes_order) time_key T,
            get-replace_or_insert bytes_order only_key K,
          )
          (ground (arith, get-unschedule s k t x v, v.agree x, time_order.connected x.time t));
  }

  -- Remove keeps the two trees in agreement and the tree by time in order.
  pub remove-IsSynced : (s : Scheduler T K) (k : Bytes) → IsSynced s → IsSynced (remove s k)
  unfolding remove
  remove-IsSynced s k v = elim (Option-cases (K.get s.by_key (at (pos 0) k))) [
    | inl e ↦ rw (e, drop) v
    | inr (i, e) ↦
        rw (e, drop)
          (record {
            sorted =
                delete-IsSorted (pair_order time_order bytes_order) time_key T s.by_time i v.sorted;
            agree = λ x.
                simp
                  (
                    get-delete (pair_order time_order bytes_order) time_key T,
                    get-delete bytes_order only_key K,
                  )
                  (ground (
                    arith,
                    v.agree x,
                    get-key bytes_order only_key K s.by_key (at (pos 0) k) i e,
                    bytes_order.connected x.key k,
                    get_same_key bytes_order only_key K s.by_key x (at (pos 0) k),
                  ));
          })
  ]

  pub due_of_item :
      (s : Scheduler T K) (i : Item)
      → IsSynced s
      → T.get s.by_time i ≡ some i
      → due s i.key ≡ some i.time
  unfolding due
  due_of_item s i v h = ground (
    arith,
    v.agree i,
    time_order.connected i.time,
    get_same_key bytes_order only_key K s.by_key (at (pos 0) i.key) i refl,
  )

  -- Add keeps the two trees in agreement and the tree by time in order, also where it moves a key;
  -- after it the key is due at the new time, and every other key is due when it was.
  pub add_effect :
      (s : Scheduler T K) (t : ℤ) (k j : Bytes)
      → IsSynced s
      → IsSynced (add s t k)
        × (due (add s t k) j ≡ (if same bytes_order j k then some t else due s j))
  add_effect s t k j v = (add-IsSynced s t k v, due-add s t k j)

  -- Remove keeps the two trees in agreement and the tree by time in order; after it the key is not
  -- scheduled, and every other key is due when it was.
  pub remove_effect :
      (s : Scheduler T K) (k j : Bytes)
      → IsSynced s
      → IsSynced (remove s k)
        × (due (remove s k) j ≡ (if same bytes_order j k then none else due s j))
  remove_effect s k j v = (remove-IsSynced s k v, due-remove s k j)
