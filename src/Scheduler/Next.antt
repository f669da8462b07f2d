-- ===== src/Scheduler/Next.antt =====
-- `Next` against the map view of a scheduler.
use pomerium.Prelude.{
  ℤ, pos, Bytes, bytes_order, time_order, pair_order, ◌≡◌, ◌≢◌, ◌⊎◌, refl, false, none, some, List,
  [], ◌∷◌, arith, Option-cases, inl, inr, length, ◌==◌, if◌then◌else◌,
}
use pomerium.BTree.{BTree}
use pomerium.BTree.Sorted.{find, first}
use pomerium.BTree.Laws.{get-min, min_least, get_same_key, get-key}
use pomerium.Scheduler.{Item, less_by_key, less_by_time, max_time, Scheduler, due_item, next}
use pomerium.Scheduler.Laws.{time_key, only_key, at, due, IsSynced, due_of_item}

pick :
    (l : List Item)
    → (if length l == 0 then (max_time, []) else due_item (first l)) ≡ due_item (first l)
unfolding due_item
pick [] = refl
pick (i ∷ l) = ground arith

not_found : (l : List Item) (x : Item) → first l ≡ none → find less_by_time x l ≡ none
not_found [] x h = refl
not_found (i ∷ l) x h = cc

module _ {T : BTree less_by_time} {K : BTree less_by_key} where
  next-min : (s : Scheduler T K) → next s ≡ due_item (T.min s.by_time)
  unfolding next
  next-min s = rw (T.len-items, T.min-items) (pick (T.items s.by_time))

  -- A key that is due has an item in the tree by time.
  item_of :
      (s : Scheduler T K) (k : Bytes) (t : ℤ)
      → IsSynced s
      → due s k ≡ some t
      → T.get s.by_time (at t k) ≡ some (at t k)
  unfolding due
  item_of s k t v h = elim (Option-cases (K.get s.by_key (at (pos 0) k))) [
    | inl e ↦ absurd (ground (arith, e))
    | inr (i, e) ↦ ground (
      arith,
      v.agree (at t k),
      get-key bytes_order only_key K s.by_key (at (pos 0) k) i e,
      get_same_key bytes_order only_key K s.by_key (at t k) (at (pos 0) k) refl,
      time_order.irrefl t,
    )
  ]

  min-ne-none :
      (s : Scheduler T K) (x i : Item) → T.get s.by_time x ≡ some i → T.min s.by_time ≢ none
  min-ne-none s x i h e =
      cc (not_found (T.items s.by_time) x (rw T.min-items at e), (rw T.get-items at h))

  -- With something scheduled, `Next` returns a time and key that are scheduled together, and no later
  -- in the order by time and then by key.
  pub next_least :
      (s : Scheduler T K) (k : Bytes) (t : ℤ)
      → IsSynced s
      → due s k ≡ some t
      → (due s (next s).1 ≡ some (next s).0)
        × (less_by_time (at t k) (at (next s).0 (next s).1) ≡ false)
  unfolding due_item
  next_least s k t v h = elim (Option-cases (T.min s.by_time)) [
    | inl e ↦ absurd (min-ne-none s (at t k) (at t k) (item_of s k t v h) e)
    | inr (i, e) ↦
        rw (next-min s, e, due_item)
          (
            due_of_item s i v
                (get-min (pair_order time_order bytes_order) time_key T s.by_time i e),
            min_least (pair_order time_order bytes_order) time_key T s.by_time i (at t k) (at t k)
                v.sorted e (item_of s k t v h),
          )
  ]

  -- With nothing scheduled `Next` returns the maximal time and the empty key.
  pub next_idle :
      (s : Scheduler T K) → IsSynced s → ((k : Bytes) → due s k ≡ none) → next s ≡ (max_time, [])
  unfolding due_item
  next_idle s v h = elim (Option-cases (T.min s.by_time)) [
    | inl e ↦ rw (next-min s, e, due_item)
    | inr (i, e) ↦ cc (
      h i.key,
      due_of_item s i v (get-min (pair_order time_order bytes_order) time_key T s.by_time i e),
    )
  ]

  -- What `Next` returns is scheduled, unless it is the maximal time.
  pub due-next :
      (s : Scheduler T K)
      → IsSynced s
      → (next s ≡ (max_time, [])) ⊎ (due s (next s).1 ≡ some (next s).0)
  unfolding due_item
  due-next s v = elim (Option-cases (T.min s.by_time)) [
    | inl e ↦ inl (rw (next-min s, e, due_item) refl)
    | inr (i, e) ↦ inr (
        rw (next-min s, e, due_item)
          (due_of_item s i v
            (get-min (pair_order time_order bytes_order) time_key T s.by_time i e)))
  ]

  -- Of a scheduler whose trees agree, either nothing is scheduled, and `Next` returns the maximal time
  -- and the empty key; or it returns a time and key that are scheduled together, and nothing that is
  -- scheduled comes before them in the order by time and then by key.
  pub next-cases :
      (s : Scheduler T K)
      → IsSynced s
      → (((k : Bytes) → due s k ≡ none) × (next s ≡ (max_time, [])))
        ⊎ ((due s (next s).1 ≡ some (next s).0)
            × ((k : Bytes) (t : ℤ)
                → due s k ≡ some t
                → less_by_time (at t k) (at (next s).0 (next s).1) ≡ false))
  unfolding due_item
  next-cases s v = elim (Option-cases (T.min s.by_time)) [
    | inl e ↦ inl (
      (λ k. elim (Option-cases (due s k)) [
        | inl d ↦ d
        | inr (t, d) ↦ absurd (min-ne-none s (at t k) (at t k) (item_of s k t v d) e)
      ]),
      rw (next-min s, e, due_item) refl,
    )
    | inr (i, e) ↦ inr (
      rw (next-min s, e, due_item)
          (due_of_item s i v
            (get-min (pair_order time_order bytes_order) time_key T s.by_time i e)),
      λ k t d. (next_least s k t v d).1,
    )
  ]
