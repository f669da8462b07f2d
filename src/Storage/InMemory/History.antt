-- ===== src/Storage/InMemory/History.antt =====
-- An in-memory backend against the full history of its changes, from which old changes may expire.
use pomerium.Prelude.{
  ℕ, zero, suc, ◌+◌, ◌-◌, ◌^◌, ◌≤◌, ◌<◌, ℤ, ltb, ltb_ℤ, Bool, not, ◌≡◌, refl, sym, ap, ◌∙◌, subst,
  List, [], ◌∷◌, ◌++◌, some, arith, length, length-append, keep_if, drop, drop_while, run_length,
  drop_while-drop, drop-drop, drop_nil, drop-append, length-drop, run_length-le, same, time_order,
  pos, ◌||◌, ◌-ℤ◌, ◌==◌, Bool-cases, inl, inr,
}
use pomerium.BTree.{BTree}
use pomerium.BTree.Sorted.{place, first, rest}
use pomerium.GoMap.{GoMap}
use pomerium.Storage.{Record, as_time}
use pomerium.Storage.InMemory.{
  RecordKey, less_version, put_lookup, remove_before, Backend, new, remove_changes_before, on_tick,
  next_version, stamp, put_record, get_since,
}

-- The versions go up by one from n + 1.
abbrev pub Numbered : ℕ → List Record → Type 0
Numbered n [] = Unit
Numbered n (r ∷ l) = (r.version ≡ n + 1) × Numbered (n + 1) l

-- What the changes make of a table of records.
unfoldable pub replay : GoMap RecordKey Record → List Record → GoMap RecordKey Record
replay m [] = m
replay m (r ∷ l) = replay (put_lookup r m) l

pub replay-append :
    (m : GoMap RecordKey Record) (l k : List Record) → replay m (l ++ k) ≡ replay (replay m l) k
unfolding replay
replay-append m [] k = refl
replay-append m (r ∷ l) k = replay-append (put_lookup r m) l k

pub Numbered-append :
    (n : ℕ) (l : List Record) (r : Record)
    → Numbered n l
    → r.version ≡ n + length l + 1
    → Numbered n (l ++ r ∷ [])
Numbered-append n [] r h e = (omega arith, tt)
Numbered-append n (x ∷ l) r h e = (h.0, Numbered-append (n + 1) l r h.1 (omega arith))

pub Numbered-drop : (n k : ℕ) (l : List Record) → Numbered n l → Numbered (n + k) (drop k l)
Numbered-drop n zero l h = subst (λ m. Numbered m l) (omega arith) h
Numbered-drop n (suc k) [] h = tt
Numbered-drop n (suc k) (x ∷ l) h =
    subst (λ m. Numbered m (drop k l)) (omega arith) (Numbered-drop (n + 1) k l h.1)

-- A change with a version past all others goes to the end.
place_last :
    (n : ℕ) (l : List Record) (r : Record)
    → Numbered n l
    → n + length l < r.version
    → place less_version r l ≡ l ++ r ∷ []
place_last n [] r h e = refl
place_last n (x ∷ l) r h e = ground (arith, place_last (n + 1) l r h.1)

-- The changes past a version are what is left when the earlier ones are dropped.
keep_since :
    (n v : ℕ) (l : List Record)
    → Numbered n l
    → keep_if (λ r. not (r.version == v)) (keep_if (λ r. not (ltb r.version v)) l) ≡ drop (v - n) l
keep_since n v [] h = sym (drop_nil (v - n))
keep_since n v (x ∷ l) h = elim (Bool-cases (ltb n v)) [
  | inl e ↦
      let d : v - n ≡ suc (v - (n + 1)) = ground (arith, e) in
      rw d (ground (arith, e, keep_since (n + 1) v l h.1, h.0))
  | inr e ↦
      let d : v - n ≡ 0 = ground (arith, e) in
      let d' : v - (n + 1) ≡ 0 = ground (arith, e) in
      rw d (ground (arith, e, rw d' at (keep_since (n + 1) v l h.1), h.0))
]

-- What the loop leaves, given fuel for every change.
abbrev pub expired : ℤ → Record → Bool
expired cutoff r = ltb_ℤ (as_time r.modified_at) cutoff

items-remove_before :
    (B : BTree less_version) (fuel : ℕ) (t : B.Tree) (cutoff : ℤ) (l : List Record)
    → B.items t ≡ l
    → length l ≤ fuel
    → B.items (remove_before B fuel t cutoff) ≡ drop_while (expired cutoff) l
unfolding remove_before
items-remove_before B zero t cutoff [] e h = e
items-remove_before B zero t cutoff (x ∷ l) e h = absurd (omega arith)
items-remove_before B (suc fuel) t cutoff [] e h = rw (B.min-items t, e, remove_before) e
items-remove_before B (suc fuel) t cutoff (x ∷ l) e h =
    let min_x : B.min t ≡ some x = B.min-items t ∙ ap first e in
    let ih =
      items-remove_before B fuel (B.delete_min t) cutoff l (B.items-delete_min t ∙ ap rest e)
        (omega arith) in
    ground (arith, min_x, ih, e)

module _ {B : BTree less_version} where
  -- `l` is the history of the backend `b`: its table is what the history makes of an empty one, and
  -- its changes are what is left of the history when the first `gone` of them have expired.
  pub record IsHistory (l : List Record) (b : Backend B) : Type 0 where
    pub gone : ℕ
    pub gone_le : gone ≤ length l
    pub numbered : Numbered 0 l
    pub count : b.last_version ≡ length l
    pub current : b.lookup ≡ replay [] l
    pub retained : B.items b.changes ≡ drop gone l

  pub new-IsHistory : (expiry : ℤ) → IsHistory [] (new {B = B} expiry)
  unfolding new replay
  new-IsHistory expiry = record {
    gone = 0;
    gone_le = omega arith;
    numbered = tt;
    count = refl;
    current = refl;
    retained = B.items-empty;
  }

  -- A put adds its stamped record to the history.
  pub put_record-IsHistory :
      (l : List Record) (b : Backend B) (now : ℤ) (r : Record)
      → b.last_version + 1 < 2 ^ 64
      → IsHistory l b
      → IsHistory (l ++ stamp b now r ∷ []) (put_record b now r)
  unfolding put_record stamp next_version
  put_record-IsHistory l b now r fits h =
      let r' = stamp b now r in
      record {
        gone = h.gone;
        gone_le = omega (arith, h.gone_le, length-append l (r' ∷ []));
        numbered = Numbered-append 0 l r' h.numbered (omega (arith, h.count));
        count = omega (arith, h.count, length-append l (r' ∷ []));
        current =
            ap (put_lookup r') h.current ∙ sym (unfold replay in replay-append [] l (r' ∷ []));
        retained =
            B.items-replace_or_insert b.changes r'
            ∙ ap (place less_version r') h.retained
            ∙ place_last (0 + h.gone) (drop h.gone l) r' (Numbered-drop 0 h.gone l h.numbered)
                (omega (arith, h.count, h.gone_le, length-drop h.gone l))
            ∙ sym (drop-append h.gone l (r' ∷ []) h.gone_le);
      }

  pub gone-put_record :
      (l : List Record) (b : Backend B) (now : ℤ) (r : Record) (fits : b.last_version + 1 < 2 ^ 64)
      (h : IsHistory l b)
      → (put_record-IsHistory l b now r fits h).gone ≡ h.gone
  unfolding put_record-IsHistory
  gone-put_record l b now r fits h = refl

  -- Expiry takes changes away at the old end only, and keeps the table.
  pub remove_changes_before-IsHistory :
      (l : List Record) (b : Backend B) (cutoff : ℤ)
      → IsHistory l b
      → IsHistory l (remove_changes_before b cutoff)
  unfolding remove_changes_before
  remove_changes_before-IsHistory l b cutoff h =
      let old = run_length (expired cutoff) (drop h.gone l) in
      record {
        gone = h.gone + old;
        gone_le = omega (
          arith,
          h.gone_le,
          run_length-le (expired cutoff) (drop h.gone l),
          length-drop h.gone l,
        );
        numbered = h.numbered;
        count = h.count;
        current = h.current;
        retained =
            items-remove_before B (B.len b.changes) b.changes cutoff (drop h.gone l) h.retained
              (omega (arith, B.len-items b.changes, ap length h.retained))
            ∙ drop_while-drop (expired cutoff) (drop h.gone l)
            ∙ drop-drop old h.gone l;
      }

  pub gone-remove_changes_before :
      (l : List Record) (b : Backend B) (cutoff : ℤ) (h : IsHistory l b)
      → (remove_changes_before-IsHistory l b cutoff h).gone
        ≡ h.gone + run_length (expired cutoff) (drop h.gone l)
  unfolding remove_changes_before-IsHistory
  gone-remove_changes_before l b cutoff h = refl

  pub items-remove_changes_before :
      (b : Backend B) (cutoff : ℤ)
      → B.items (remove_changes_before b cutoff).changes
        ≡ drop_while (expired cutoff) (B.items b.changes)
  unfolding remove_changes_before
  items-remove_changes_before b cutoff =
      items-remove_before B (B.len b.changes) b.changes cutoff (B.items b.changes) refl
        (omega (arith, B.len-items b.changes))

  pub on_tick-IsHistory :
      (l : List Record) (b : Backend B) (now : ℤ) → IsHistory l b → IsHistory l (on_tick b now)
  unfolding on_tick
  on_tick-IsHistory l b now h = elim (Bool-cases (same time_order b.expiry (pos 0) || b.closed)) [
    | inl e ↦ rw e h
    | inr e ↦ rw e (remove_changes_before-IsHistory l b (now -ℤ b.expiry) h)
  ]

  -- GetSince: of the history, the changes past the version that have not expired, in order.
  pub get_since-drop :
      (l : List Record) (b : Backend B) (version : ℕ)
      → (h : IsHistory l b) → get_since b version ≡ drop (h.gone + (version - h.gone)) l
  unfolding get_since
  get_since-drop l b version h =
      let e : h.gone + (version - (0 + h.gone)) ≡ h.gone + (version - h.gone) = omega arith in
      rw (B.ascend_ge-items, h.retained)
        (keep_since (0 + h.gone) version (drop h.gone l) (Numbered-drop 0 h.gone l h.numbered)
          ∙ drop-drop (version - (0 + h.gone)) h.gone l
          ∙ ap (λ k. drop k l) e)
