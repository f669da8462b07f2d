-- ===== src/Identity/Manager/Loop/Sessions.antt =====
-- The loop over the sessions that are due comes to its end.
use pomerium.Prelude.{
  ℕ, zero, suc, ◌+◌, ◌<◌, ◌≤◌, ℤ, pos, ◌≤ℤ◌, ltb_ℤ, Bytes, bytes_order, same, same_refl, true,
  false, not, ◌≡◌, refl, ap, same→eq, ◌++◌, List, [], ◌∷◌, some, arith, length, any_of, keep_if,
  Bool-cases, inl, inr,
}
use pomerium.BTree.{BTree}
use pomerium.Scheduler
use pomerium.Scheduler.{Scheduler, less_by_time, less_by_key, max_time}
use pomerium.Scheduler.Laws.{IsSynced, due, due-remove, remove-IsSynced}
use pomerium.Scheduler.Next.{next_least, due-next}
use pomerium.Identity.Keys.{from_session_scheduler_key, to_session_scheduler_key}
use pomerium.Identity.Manager.{Trees, Manager, Config, Env, refresh_due_session}
use pomerium.Identity.Manager.Loop.Follows.{Follows, refresh_session-Follows}
use pomerium.Identity.Manager.Loop.{Refreshed, refresh_sessions}

-- The list has every key that is due.
abbrev pub HoldsDue :
    {T : BTree less_by_time} {K : BTree less_by_key} → ℤ → Scheduler T K → List Bytes → Type 0
HoldsDue now s ks =
    (j : Bytes) (t : ℤ)
    → due s j ≡ some t
    → ltb_ℤ now t ≡ false
    → any_of (same bytes_order j) ks ≡ true

abbrev pub without_key : Bytes → List Bytes → List Bytes
without_key k = keep_if (λ j. not (same bytes_order j k))

length-without_key : (k : Bytes) (ks : List Bytes) → length (without_key k ks) ≤ length ks
length-without_key k [] = ground arith
length-without_key k (j ∷ ks) = ground (arith, length-without_key k ks)

fewer :
    (k : Bytes) (ks : List Bytes)
    → any_of (same bytes_order k) ks ≡ true
    → length (without_key k ks) < length ks
fewer k [] h = absurd (ground (arith, h))
fewer k (j ∷ ks) h = ground (
  arith,
  fewer k ks,
  length-without_key k ks,
  bytes_order.connected j k,
  same_refl bytes_order k,
  same_refl bytes_order j,
)

still_there :
    (j k : Bytes) (ks : List Bytes)
    → any_of (same bytes_order j) ks ≡ true
    → same bytes_order j k ≡ false
    → any_of (same bytes_order j) (without_key k ks) ≡ true
still_there j k [] h d = h
still_there j k (i ∷ ks) h d = ground (arith, still_there j k ks, same→eq bytes_order j i)

module _ {T : Trees} (cfg : Config) (now : ℤ)
    (cool : ltb_ℤ (pos 0) cfg.session_refresh_cool_off_duration ≡ true) where
  -- A round takes the key off, and what is due after it was due before it.
  pub refresh_due_session-Follows :
      (m : Manager T) (env : Env) (at later : ℤ) (key : Bytes)
      → now ≤ℤ later
      → IsSynced m.session_scheduler
      → Follows now
          (to_session_scheduler_key
            (from_session_scheduler_key key).0
            (from_session_scheduler_key key).1)
          (Scheduler.remove m.session_scheduler key)
          (refresh_due_session m cfg env at later key).0.session_scheduler
  unfolding refresh_due_session
  refresh_due_session-Follows m env at later key h v =
      refresh_session-Follows cfg now cool
        (record m { session_scheduler = Scheduler.remove m.session_scheduler key }) env at later
        (from_session_scheduler_key key).0 (from_session_scheduler_key key).1 h
        (remove-IsSynced m.session_scheduler key v)

  HoldsDue-refresh_due_session :
      (m : Manager T) (env : Env) (at later : ℤ) (key : Bytes) (ks : List Bytes)
      → now ≤ℤ later
      → IsSynced m.session_scheduler
      → HoldsDue now m.session_scheduler ks
      → HoldsDue now
          (refresh_due_session m cfg env at later key).0.session_scheduler
          (without_key key ks)
  HoldsDue-refresh_due_session m env at later key ks h v holds j t d n =
      let before = (refresh_due_session-Follows m env at later key h v).1 j t d n in
      let was = due-remove m.session_scheduler key j in
      elim (Bool-cases (same bytes_order j key)) [
        | inl e ↦ absurd (ground (arith, before, was, e))
        | inr e ↦ still_there j key ks (holds j t (ground (arith, before, was, e)) n) e
      ]

  -- With a positive cool-off, at a time before the maximal one and with no reading of the clock before
  -- it, over a scheduler whose trees agree: the loop over the sessions comes to its end with more fuel
  -- than a list has keys that holds every key that is due, whatever the provider and the databroker
  -- answer. The time that it returns is past, and no session is scheduled before it.
  pub refresh_sessions_ends :
      (fuel : ℕ) (m : Manager T) (env : Env) (clock : ℕ → ℤ) (ks : List Bytes)
      → ltb_ℤ now max_time ≡ true
      → ((i : ℕ) → now ≤ℤ clock i)
      → IsSynced m.session_scheduler
      → HoldsDue now m.session_scheduler ks
      → length ks < fuel
      → (r : Refreshed T) × (refresh_sessions fuel m cfg env now clock ≡ some r)
        × IsSynced r.0.0.session_scheduler
        × (ltb_ℤ now r.1 ≡ true)
        × ((j : Bytes) (t : ℤ) → due r.0.0.session_scheduler j ≡ some t → ltb_ℤ t r.1 ≡ false)
  unfolding refresh_sessions
  refresh_sessions_ends zero m env clock ks soon c v holds f = absurd (omega (arith, f))
  refresh_sessions_ends (suc fuel) m env clock ks soon c v holds f =
      let s = m.session_scheduler in
      let key = (Scheduler.next s).1 in
      let next = refresh_due_session m cfg env (clock 0) (clock 1) key in
      elim (Bool-cases (ltb_ℤ now (Scheduler.next s).0)) [
        | inl e ↦ (
          ((m, []), (Scheduler.next s).0),
          rw e refl,
          v,
          e,
          λ j t d. ground (arith, (next_least s j t v d).1),
        )
        | inr e ↦ elim (due-next s v) [
          | inl idle ↦ absurd (ground (arith, soon, e, ap (λ x. x.0) idle))
          | inr d ↦
              let (((m', calls), tm), ran, v', is_later, least) =
                refresh_sessions_ends fuel next.0 env (λ i. clock (i + 2)) (without_key key ks) soon
                  (λ i. c (i + 2))
                  (refresh_due_session-Follows m env (clock 0) (clock 1) key (c 1) v).0
                  (HoldsDue-refresh_due_session m env (clock 0) (clock 1) key ks (c 1) v holds)
                  (omega (arith, f, fewer key ks (holds key (Scheduler.next s).0 d e))) in
              (((m', next.1 ++ calls), tm), rw (e, ran) refl, v', is_later, least)
        ]
      ]
