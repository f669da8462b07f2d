-- ===== src/Storage/Redis/Streaming.antt =====
-- What the calls of Get and of Next return, of a server with a log.
use pomerium.Prelude.{
  ℕ, zero, suc, ◌+◌, ◌-◌, ◌%◌, ◌^◌, ◌<◌, ◌≤◌, ℤ, Bytes, bytes_order, same, Bool, true, false, ◌≡◌,
  refl, ap, sym, ◌∙◌, subst, List, [], ◌∷◌, ◌++◌, map, Option, none, some, All, arith, length, drop,
  drop_nil, drop_past, drop-drop, length-drop, ltb, if◌then◌else◌, Bool-cases, List-cases, inl, inr,
}
use pomerium.Storage.{Record, Result, ok, err}
use pomerium.Storage.InMemory.History.{Numbered, Numbered-drop}
use pomerium.Storage.Redis.{
  Redis, Codec, RedisError, not_found, first_above, first_member, field_of, hash_field, read_raw,
  get, RecordStream, next,
}
use pomerium.Storage.Redis.Log.{
  bytes_of, IsMarshalled, entry_for, entry_after, scored, All-drop, IsLog,
}

abbrev unless_deleted : Option ℤ → Record → Option Record
unless_deleted none r = some r
unless_deleted (some deleted) r = none

abbrev keep_latest : Bytes → Option Record → Record → Option Record
keep_latest f found r =
    if same bytes_order f (field_of r) then unless_deleted r.deleted_at r else found

-- The last record of a log for a key, unless it is deleted.
abbrev pub latest_for : Bytes → Option Record → List Record → Option Record
latest_for f found [] = found
latest_for f found (r ∷ l) = latest_for f (keep_latest f found r) l

abbrev pub or_not_found : Option Record → Result RedisError Record
or_not_found none = err not_found
or_not_found (some r) = ok r

abbrev text_of : Codec → Option Record → Option Bytes
text_of C none = none
text_of C (some r) = some (bytes_of C r)

module _ (R : Redis) (C : Codec) where
  abbrev IsReadable : Option Record → Type 0
  IsReadable none = Unit
  IsReadable (some r) = IsMarshalled C r

  kept-IsReadable :
      (b : Bool) (deleted : Option ℤ) (found : Option Record) (r : Record)
      → IsReadable found
      → IsMarshalled C r
      → IsReadable (if b then unless_deleted deleted r else found)
  kept-IsReadable true none found r h m = m
  kept-IsReadable true (some d) found r h m = tt
  kept-IsReadable false deleted found r h m = h

  latest-IsReadable :
      (f : Bytes) (found : Option Record) (l : List Record)
      → IsReadable found
      → All (IsMarshalled C) l
      → IsReadable (latest_for f found l)
  latest-IsReadable f found [] h all = h
  latest-IsReadable f found (r ∷ l) h (m, all) =
      latest-IsReadable f (keep_latest f found r) l
        (kept-IsReadable (same bytes_order f (field_of r)) r.deleted_at found r h m) all

  kept-text :
      (b : Bool) (deleted : Option ℤ) (found : Option Record) (r : Record)
      → (if b then entry_for deleted (bytes_of C r) else text_of C found)
        ≡ text_of C (if b then unless_deleted deleted r else found)
  kept-text true none found r = refl
  kept-text true (some d) found r = refl
  kept-text false deleted found r = refl

  entry_after-latest :
      (f : Bytes) (found : Option Record) (l : List Record)
      → entry_after C f (text_of C found) l ≡ text_of C (latest_for f found l)
  unfolding entry_after
  entry_after-latest f found [] = refl
  entry_after-latest f found (r ∷ l) =
      ap (λ entry. entry_after C f entry l)
        (kept-text (same bytes_order f (field_of r)) r.deleted_at found r)
      ∙ entry_after-latest f (keep_latest f found r) l

  read_raw-text : (o : Option Record) → IsReadable o → read_raw R C (text_of C o) ≡ or_not_found o
  read_raw-text none h = refl
  read_raw-text (some r) h = rw (C.unmarshal-marshal r (bytes_of C r) h) refl

  -- Get returns the last record that was committed for the key of the type and the id, or that there
  -- is none, where that record is deleted or there never was one.
  pub get-latest :
      (l : List Record) (s : R.State) (type id : Bytes)
      → IsLog R C l s
      → get R C s type id ≡ or_not_found (latest_for (hash_field type id) none l)
  unfolding get
  get-latest l s type id h =
      let f = hash_field type id in
      ap (read_raw R C) (h.current f ∙ entry_after-latest f none l)
      ∙ read_raw-text (latest_for f none l) (latest-IsReadable f none l tt h.marshalled)

  scored-drop : (n : ℕ) (l : List Record) → drop n (scored C l) ≡ scored C (drop n l)
  unfolding scored
  scored-drop zero l = refl
  scored-drop (suc n) [] = refl
  scored-drop (suc n) (r ∷ l) = scored-drop n l

  first_above-scored :
      (n v : ℕ) (l : List Record)
      → Numbered n l
      → n ≤ v
      → first_above v (scored C l) ≡ first_member (scored C (drop (v - n) l))
  unfolding scored
  first_above-scored n v [] h le = rw (drop_nil (v - n)) refl
  first_above-scored n v (r ∷ l) h le = elim (Bool-cases (ltb v r.version)) [
    | inl e ↦ let d : v - n ≡ 0 = ground (arith, e, h.0) in rw (e, d) refl
    | inr e ↦
        let d : v - n ≡ suc (v - (n + 1)) = ground (arith, e, h.0) in
        rw (e, d) (first_above-scored (n + 1) v l h.1 (ground (arith, e, h.0)))
  ]

  -- What the calls of Next(false) that follow deliver, where no command fails, with fuel for the calls.
  unfoldable pub deliveries : ℕ → RecordStream → R.State → List (Option Record)
  unfolding next
  deliveries zero stream s = []
  deliveries (suc calls) stream s =
      let (more, stream') = next R C stream none s in
      let rest = deliveries calls stream' s in if more then stream'.latest ∷ rest else []

  first_change :
      (l : List Record) (s : R.State) (v : ℕ)
      → (h : IsLog R C l s) → h.gone ≤ v
      → first_above v (R.changes s) ≡ first_member (scored C (drop v l))
  first_change l s v h le =
      let past_gone : h.gone + (v - (0 + h.gone)) ≡ v = omega (arith, le) in
      ap (first_above v) (h.retained ∙ scored-drop h.gone l)
      ∙ first_above-scored (0 + h.gone) v (drop h.gone l) (Numbered-drop 0 h.gone l h.numbered)
          (omega (arith, le))
      ∙ ap (λ x. first_member (scored C x)) (drop-drop (v - (0 + h.gone)) h.gone l)
      ∙ ap (λ k. first_member (scored C (drop k l))) past_gone

  abbrev pub stream_at : ℕ → Option Record → RecordStream
  stream_at v last = record { version = v; latest = last; error = none }

  -- From a version behind which no change is missing, the calls of Next deliver the records of the log
  -- past it, each once and in the order of the commits, and then nothing.
  pub deliveries-drop :
      (calls : ℕ) (l : List Record) (s : R.State) (v : ℕ) (last : Option Record)
      → (h : IsLog R C l s) → h.gone ≤ v
      → length l < 2 ^ 64
      → length l ≤ v + calls
      → deliveries calls (stream_at v last) s ≡ map some (drop v l)
  unfolding deliveries next scored
  deliveries-drop zero l s v last h le fits enough = rw (drop_past v l (omega (arith, enough))) refl
  deliveries-drop (suc calls) l s v last h le fits enough = elim (List-cases (drop v l)) [
    | inl e ↦ rw (first_change l s v h le, e) refl
    | inr (r, rest, e) ↦
        let long : v < length l = omega (arith, ap length e, length-drop v l) in
        let marshalled : IsMarshalled C r =
          (subst (All (IsMarshalled C)) e (All-drop (IsMarshalled C) v l h.marshalled)).0 in
        let next_version : (v + 1) % 2 ^ 64 ≡ v + 1 = omega (arith, long) in
        let after : drop (v + 1) l ≡ rest = sym (drop-drop 1 v l) ∙ ap (drop 1) e in
        rw
          (
            first_change l s v h le,
            e,
            C.unmarshal-marshal r (bytes_of C r) marshalled,
            next_version,
          )
          (ap (◌∷◌ (some r)) (
            deliveries-drop calls l s (v + 1) (some r) h (omega (arith, le)) fits
              (omega (arith, enough))
            ∙ ap (map some) after))
  ]

  behind :
      (n v : ℕ) (l : List Record)
      → Numbered n l
      → v ≤ n
      → first_above v (scored C l) ≡ first_member (scored C l)
  unfolding scored
  behind n v [] h le = refl
  behind n v (r ∷ l) h le = ground (arith, h.0)

  abbrev pub times : ℕ → Option Record → List (Option Record)
  times zero r = []
  times (suc n) r = r ∷ times n r

  -- From a version that lies n before the first change that is left, the calls of Next deliver that
  -- change n more times before they go on as above.
  pub deliveries_behind :
      (n calls : ℕ) (l : List Record) (s : R.State) (v : ℕ) (last : Option Record) (r : Record)
      (rest : List Record)
      → (h : IsLog R C l s) → v + n ≡ h.gone
      → drop h.gone l ≡ r ∷ rest
      → length l < 2 ^ 64
      → length l ≤ h.gone + calls
      → deliveries (calls + n) (stream_at v last) s ≡ times n (some r) ++ map some (drop h.gone l)
  unfolding deliveries next scored
  deliveries_behind zero calls l s v last r rest h e d fits enough =
      let here : v ≡ h.gone = omega (arith, e) in
      let none_more : calls + 0 ≡ calls = omega arith in
      rw (here, none_more) (deliveries-drop calls l s h.gone last h (omega arith) fits enough)
  deliveries_behind (suc n) calls l s v last r rest h e d fits enough =
      let first : first_above v (R.changes s) ≡ some (bytes_of C r) =
        ap (first_above v) (h.retained ∙ scored-drop h.gone l)
        ∙ behind (0 + h.gone) v (drop h.gone l) (Numbered-drop 0 h.gone l h.numbered)
            (omega (arith, e))
        ∙ ap (λ x. first_member (scored C x)) d in
      let marshalled : IsMarshalled C r =
        (subst (All (IsMarshalled C)) d (All-drop (IsMarshalled C) h.gone l h.marshalled)).0 in
      let next_version : (v + 1) % 2 ^ 64 ≡ v + 1 = omega (arith, e, h.gone_le) in
      let one_more : calls + suc n ≡ suc (calls + n) = omega arith in
      rw (one_more, first, C.unmarshal-marshal r (bytes_of C r) marshalled, next_version)
        (ap (◌∷◌ (some r)) (
          deliveries_behind n calls l s (v + 1) (some r) r rest h (omega (arith, e)) d fits enough))
