-- ===== src/Storage/InMemory/Expiry.antt =====
-- Which changes an in-memory backend has dropped after any puts and expiry ticks, and which it has not.
use mathlib.Core.List.{append-nil, append_assoc}
use pomerium.Prelude.{
  ℕ, zero, suc, ◌+◌, ◌^◌, ◌≤◌, ◌<◌, ℤ, pos, ◌-ℤ◌, ltb_ℤ, same, time_order, Bool, true, false, ◌||◌,
  ◌≡◌, refl, sym, ap, ◌∙◌, subst, List, [], ◌∷◌, ◌++◌, Option, none, some, All, any_of, arith,
  length, length-append, take, drop, drop_while, run_length, Bool-cases, inl, inr, if◌then◌else◌,
}
use pomerium.BTree.{BTree}
use pomerium.GoMap
use pomerium.GoMap.{GoMap}
use pomerium.Storage.{Record, as_time}
use pomerium.Storage.InMemory.{
  RecordKey, key_order, key_of, less_version, Backend, new, on_tick, put_record, stamp, put_lookup,
  remove_changes_before,
}
use pomerium.Storage.InMemory.History.{
  replay, expired, IsHistory, new-IsHistory, put_record-IsHistory, gone-put_record,
  remove_changes_before-IsHistory, gone-remove_changes_before, items-remove_changes_before,
}
use pomerium.Storage.InMemory.Table.{lookup-put_lookup}
use pomerium.Storage.InMemory.Sync.{Event, puts, ticks, step, run, history}

-- The time of the change is before the cutoff.
abbrev pub is_before : ℤ → Record → Bool
is_before cutoff r = ltb_ℤ (as_time r.modified_at) cutoff

-- The event is a tick for which the change was older than the expiry.
abbrev pub is_late : ℤ → Record → Event → Bool
is_late expiry r (puts now q) = false
is_late expiry r (ticks now) = is_before (now -ℤ expiry) r

-- What the last change of a key leaves under it.
unfoldable pub newest : RecordKey → Option Record → List Record → Option Record
newest k entry [] = entry
newest k entry (r ∷ l) =
    newest k
      (if same key_order k (key_of r)
        then elim r.deleted_at [ none ↦ some r | some t ↦ none ]
        else entry)
      l

lookup-replay :
    (k : RecordKey) (m : GoMap RecordKey Record) (l : List Record)
    → GoMap.lookup key_order k (replay m l) ≡ newest k (GoMap.lookup key_order k m) l
unfolding replay newest
lookup-replay k m [] = refl
lookup-replay k m (r ∷ l) =
    lookup-replay k (put_lookup r m) l ∙ ap (λ o. newest k o l) (lookup-put_lookup r k m)

-- The oldest of the changes is not before the cutoff.
abbrev pub StartsAt : ℤ → List Record → Type 0
StartsAt cutoff [] = Unit
StartsAt cutoff (r ∷ l) = is_before cutoff r ≡ false

drop_while-StartsAt :
    (cutoff : ℤ) (l : List Record) → StartsAt cutoff (drop_while (expired cutoff) l)
drop_while-StartsAt cutoff [] = tt
drop_while-StartsAt cutoff (r ∷ l) = elim (Bool-cases (expired cutoff r)) [
  | inl e ↦ rw e (drop_while-StartsAt cutoff l)
  | inr e ↦ rw e e
]

take-append_le : (n : ℕ) (l k : List Record) → n ≤ length l → take n (l ++ k) ≡ take n l
take-append_le zero l k h = refl
take-append_le (suc n) [] k h = absurd (omega (arith, h))
take-append_le (suc n) (x ∷ l) k h = ap (◌∷◌ x) (take-append_le n l k (omega (arith, h)))

-- The records that a run of drops takes away satisfy the test.
take_run-All :
    (P : Record → Type 0) (p : Record → Bool) (n : ℕ) (l : List Record)
    → ((r : Record) → p r ≡ true → P r)
    → All P (take n l)
    → All P (take (n + run_length p (drop n l)) l)
take_run-All P p zero [] h all =
    let e : 0 + 0 ≡ 0 = omega arith in subst (λ n. All P (take n [])) (sym e) tt
take_run-All P p zero (r ∷ l) h all = elim (Bool-cases (p r)) [
  | inl e ↦
      let d : 0 + suc (run_length p l) ≡ suc (0 + run_length p l) = omega arith in
      rw e (subst (λ n. All P (take n (r ∷ l))) (sym d) (h r e, take_run-All P p zero l h tt))
  | inr e ↦ let d : 0 + 0 ≡ 0 = omega arith in rw e (subst (λ n. All P (take n (r ∷ l))) (sym d) tt)
]
take_run-All P p (suc n) [] h all =
    let d : suc n + 0 ≡ suc n = omega arith in subst (λ k. All P (take k [])) (sym d) tt
take_run-All P p (suc n) (r ∷ l) h all =
    let d : suc n + run_length p (drop n l) ≡ suc (n + run_length p (drop n l)) = omega arith in
    subst (λ k. All P (take k (r ∷ l))) (sym d) (all.0, take_run-All P p n l h all.1)

none_gone :
    (expiry : ℤ) (es : List Event) (n : ℕ)
    → All (λ r. any_of (is_late expiry r) es ≡ true) (take n [])
none_gone expiry es zero = tt
none_gone expiry es (suc n) = tt

-- Each of the events is one of the others.
abbrev AreAmong : ℤ → List Event → List Event → Type 0
AreAmong expiry all =
    All (λ e. (r : Record) → is_late expiry r e ≡ true → any_of (is_late expiry r) all ≡ true)

among_more :
    (expiry : ℤ) (all : List Event) (e : Event) (es : List Event)
    → AreAmong expiry all es
    → AreAmong expiry (e ∷ all) es
among_more expiry all e [] h = tt
among_more expiry all e (x ∷ es) h =
    ((λ r late. ground (arith, h.0 r late)), among_more expiry all e es h.1)

among_themselves : (expiry : ℤ) (es : List Event) → AreAmong expiry es es
among_themselves expiry [] = tt
among_themselves expiry (e ∷ es) =
    ((λ r late. ground (arith, late)), among_more expiry es e es (among_themselves expiry es))

module _ {B : BTree less_version} where
  -- The backend has the history, it is open with the expiry given, and each change that it has dropped
  -- was older than the expiry at one of the ticks.
  pub record IsTrimmed (expiry : ℤ) (es : List Event) (l : List Record) (b : Backend B)
      : Type 0 where
    pub kept : IsHistory l b
    pub past : All (λ r. any_of (is_late expiry r) es ≡ true) (take kept.gone l)
    pub same_expiry : b.expiry ≡ expiry
    pub open_still : b.closed ≡ false

  put_record-IsTrimmed :
      (expiry : ℤ) (es : List Event) (l : List Record) (b : Backend B) (now : ℤ) (r : Record)
      → b.last_version + 1 < 2 ^ 64
      → IsTrimmed expiry es l b
      → IsTrimmed expiry es (l ++ stamp b now r ∷ []) (put_record b now r)
  unfolding put_record
  put_record-IsTrimmed expiry es l b now r fits h = record {
    kept = put_record-IsHistory l b now r fits h.kept;
    past =
        let cut = take-append_le h.kept.gone l (stamp b now r ∷ []) h.kept.gone_le in
        subst
          (λ n. All (λ x. any_of (is_late expiry x) es ≡ true) (take n (l ++ stamp b now r ∷ [])))
          (sym (gone-put_record l b now r fits h.kept))
          (subst (All (λ x. any_of (is_late expiry x) es ≡ true)) (sym cut) h.past);
    same_expiry = h.same_expiry;
    open_still = h.open_still;
  }

  remove_changes_before-IsTrimmed :
      (expiry : ℤ) (es : List Event) (l : List Record) (b : Backend B) (cutoff : ℤ)
      → ((r : Record) → is_before cutoff r ≡ true → any_of (is_late expiry r) es ≡ true)
      → IsTrimmed expiry es l b
      → IsTrimmed expiry es l (remove_changes_before b cutoff)
  unfolding remove_changes_before
  remove_changes_before-IsTrimmed expiry es l b cutoff among h = record {
    kept = remove_changes_before-IsHistory l b cutoff h.kept;
    past =
        subst (λ n. All (λ x. any_of (is_late expiry x) es ≡ true) (take n l))
          (sym (gone-remove_changes_before l b cutoff h.kept))
          (take_run-All (λ x. any_of (is_late expiry x) es ≡ true) (expired cutoff) h.kept.gone l
            among h.past);
    same_expiry = h.same_expiry;
    open_still = h.open_still;
  }

  on_tick-IsTrimmed :
      (expiry : ℤ) (es : List Event) (l : List Record) (b : Backend B) (now : ℤ)
      → ((r : Record) → is_before (now -ℤ expiry) r ≡ true → any_of (is_late expiry r) es ≡ true)
      → IsTrimmed expiry es l b
      → IsTrimmed expiry es l (on_tick b now)
  unfolding on_tick
  on_tick-IsTrimmed expiry es l b now among h =
      elim (Bool-cases (same time_order b.expiry (pos 0) || b.closed)) [
        | inl e ↦ rw e h
        | inr e ↦ rw e (
            remove_changes_before-IsTrimmed expiry es l b (now -ℤ b.expiry)
              (subst
                (λ x.
                  (r : Record)
                  → is_before (now -ℤ x) r ≡ true
                  → any_of (is_late expiry r) es ≡ true)
                (sym h.same_expiry) among)
              h)
      ]

  -- A tick leaves an oldest change that is not older than the expiry.
  on_tick-StartsAt :
      (b : Backend B) (now : ℤ)
      → same time_order b.expiry (pos 0) ≡ false
      → b.closed ≡ false
      → StartsAt (now -ℤ b.expiry) (B.items (on_tick b now).changes)
  unfolding on_tick remove_changes_before
  on_tick-StartsAt b now e c =
      rw (e, c)
        (subst (StartsAt (now -ℤ b.expiry)) (sym (items-remove_changes_before b (now -ℤ b.expiry)))
          (drop_while-StartsAt (now -ℤ b.expiry) (B.items b.changes)))

  run_from-IsTrimmed :
      (expiry : ℤ) (all : List Event) (l : List Record) (b : Backend B) (es : List Event)
      → b.last_version + length es < 2 ^ 64
      → AreAmong expiry all es
      → IsTrimmed expiry all l b
      → IsTrimmed expiry all (l ++ history b es) (run b es)
  unfolding run history step
  run_from-IsTrimmed expiry all l b [] fits among h =
      subst (λ k. IsTrimmed expiry all k b) (sym (append-nil l)) h
  run_from-IsTrimmed expiry all l b (puts now r ∷ es) fits among h =
      let one : b.last_version + 1 < 2 ^ 64 = omega arith in
      let next = put_record-IsTrimmed expiry all l b now r one h in
      subst (λ k. IsTrimmed expiry all k (run (put_record b now r) es))
        (append_assoc l (stamp b now r ∷ []) (history (put_record b now r) es))
        (run_from-IsTrimmed expiry all (l ++ stamp b now r ∷ []) (put_record b now r) es
          (omega (arith, next.kept.count, h.kept.count, length-append l (stamp b now r ∷ [])))
          among.1 next)
  run_from-IsTrimmed expiry all l b (ticks now ∷ es) fits among h =
      let next = on_tick-IsTrimmed expiry all l b now among.0 h in
      run_from-IsTrimmed expiry all l (on_tick b now) es
        (omega (arith, next.kept.count, h.kept.count)) among.1 next

  -- After fewer than 2^64 puts and ticks from a new backend: the records that the puts stamped are
  -- numbered from 1 up, and the changes are those records without a part at the old end, each of which
  -- was older than the expiry at one of the ticks; a further tick, where there is an expiry, leaves no
  -- oldest change that is older than that; and the table has, under each key, the last record that was
  -- put for it, or nothing where that is marked as deleted.
  pub run-IsTrimmed :
      (expiry : ℤ) (es : List Event)
      → length es < 2 ^ 64
      → IsTrimmed expiry es (history (new {B = B} expiry) es) (run (new expiry) es)
        × ((now : ℤ)
            → same time_order expiry (pos 0) ≡ false
            → StartsAt
                (now -ℤ expiry)
                (B.items (on_tick (run (new {B = B} expiry) es) now).changes))
        × ((k : RecordKey)
            → GoMap.lookup key_order k (run (new {B = B} expiry) es).lookup
              ≡ newest k none (history (new {B = B} expiry) es))
  unfolding new GoMap.lookup
  run-IsTrimmed expiry es fits =
      let b = run (new {B = B} expiry) es in
      let h : IsTrimmed expiry es (history (new {B = B} expiry) es) b =
        run_from-IsTrimmed expiry es [] (new expiry) es (omega arith) (among_themselves expiry es)
          (record {
            kept = new-IsHistory expiry;
            past = none_gone expiry es (new-IsHistory {B = B} expiry).gone;
            same_expiry = refl;
            open_still = refl;
          }) in
      (
        h,
        (λ now e.
            subst (λ x. StartsAt (now -ℤ x) (B.items (on_tick b now).changes)) h.same_expiry
              (on_tick-StartsAt b now
                (subst (λ x. same time_order x (pos 0) ≡ false) (sym h.same_expiry) e)
                h.open_still)),
        (λ k.
            ap (GoMap.lookup key_order k) h.kept.current
            ∙ lookup-replay k [] (history (new {B = B} expiry) es)),
      )
