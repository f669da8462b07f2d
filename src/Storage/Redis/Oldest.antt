-- ===== src/Storage/Redis/Oldest.antt =====
-- The changes that a client may have found to be old when another client, or it, removes them.
use mathlib.Core.Option.{some-injective}
use pomerium.Prelude.{
  ℕ, zero, suc, ◌+◌, ◌≤◌, ℤ, Bytes, bytes_order, same, same→eq, same_refl, ◌≡◌, ◌≢◌, refl, ap, sym,
  ◌∙◌, subst, List, [], ◌∷◌, Option, none, some, All, arith, drop, Bool-cases, inl, inr,
}
use pomerium.Storage.{Record}
use pomerium.Storage.InMemory.History.{Numbered, Numbered-drop}
use pomerium.Storage.Redis.{
  Redis, Codec, first_member, is_kept, unless_kept, find_expired, remove_found, read_or_zero,
}
use pomerium.Storage.Redis.Log.{
  bytes_of, IsMarshalled, scored, texts_differ, All-drop, IsLog, gone_further, gone-gone_further,
}

tail_of : (x y : ℕ × Bytes) (l k : List (ℕ × Bytes)) → x ∷ l ≡ y ∷ k → l ≡ k
tail_of x y l k e = cc

head_of : (x y : ℕ × Bytes) (l k : List (ℕ × Bytes)) → x ∷ l ≡ y ∷ k → x ≡ y
head_of x y l k e = cc

module _ (C : Codec) where
  -- The member stands for a change that has expired, or for the first of those that are left.
  pub record IsOldest (gone : ℕ) (raw : Bytes) : Type 0 where
    pub change : Record
    pub whole : IsMarshalled C change
    pub text : bytes_of C change ≡ raw
    pub early : change.version ≤ gone + 1

  pub later_IsOldest : (g g' : ℕ) (raw : Bytes) → g ≤ g' → IsOldest g raw → IsOldest g' raw
  later_IsOldest g g' raw le h = record {
    change = h.change;
    whole = h.whole;
    text = h.text;
    early = omega (arith, h.early, le);
  }

  scored-drop : (n : ℕ) (l : List Record) → scored C (drop n l) ≡ drop n (scored C l)
  unfolding scored
  scored-drop zero l = refl
  scored-drop (suc n) [] = refl
  scored-drop (suc n) (r ∷ l) = scored-drop n l

  first_found :
      (n g : ℕ) (b : Bytes) (rest : List (ℕ × Bytes)) (l : List Record)
      → scored C l ≡ (n, b) ∷ rest
      → Numbered g l
      → All (IsMarshalled C) l
      → IsOldest g b
  unfolding scored
  first_found n g b rest [] e numbered all = cc (e)
  first_found n g b rest (r ∷ l) e (v, numbered) (m, all) = record {
    change = r;
    whole = m;
    text = ap (λ x. x.1) (head_of (r.version, bytes_of C r) (n, b) (scored C l) rest e);
    early = omega (arith, v);
  }

  -- Records with later versions have other texts.
  absent_after :
      (g : ℕ) (q : Record) (raw : Bytes) (l : List Record)
      → Numbered g l
      → All (IsMarshalled C) l
      → IsMarshalled C q
      → bytes_of C q ≡ raw
      → q.version ≤ g
      → All (λ x. x.1 ≢ raw) (scored C l)
  unfolding scored
  absent_after g q raw [] numbered all m e le = tt
  absent_after g q raw (r ∷ l) (v, numbered) (mr, all) m e le = (
    (λ d. texts_differ C r q mr m (λ k. omega (arith, v, k, le)) (d ∙ sym e)),
    absent_after (g + 1) q raw l numbered all m e (omega (arith, le)),
  )

  absent_tail :
      (n g : ℕ) (b : Bytes) (rest : List (ℕ × Bytes)) (raw : Bytes) (l : List Record)
      → scored C l ≡ (n, b) ∷ rest
      → Numbered g l
      → All (IsMarshalled C) l
      → IsOldest g raw
      → All (λ x. x.1 ≢ raw) rest
  unfolding scored
  absent_tail n g b rest raw [] e numbered all h = cc (e)
  absent_tail n g b rest raw (r ∷ l) e (v, numbered) (m, all) h =
      subst (All (λ x. x.1 ≢ raw)) (tail_of (r.version, bytes_of C r) (n, b) (scored C l) rest e)
        (absent_after (g + 1) h.change raw l numbered all h.whole h.text h.early)

module _ (R : Redis) (C : Codec) where
  rest-Numbered :
      (l : List Record) (s : R.State) (h : IsLog R C l s) → Numbered h.gone (drop h.gone l)
  rest-Numbered l s h =
      let e : 0 + h.gone ≡ h.gone = omega arith in
      subst (λ n. Numbered n (drop h.gone l)) e (Numbered-drop 0 h.gone l h.numbered)

  -- What a round finds is the first change that is left.
  pub find_expired-IsOldest :
      (l : List Record) (s : R.State) (cutoff : ℤ) (raw : Bytes)
      → (h : IsLog R C l s) → find_expired R C cutoff s ≡ some raw
      → IsOldest C h.gone raw
  unfolding find_expired
  find_expired-IsOldest l s cutoff raw h found = go (R.changes s) refl found
    where
      go :
          (c : List (ℕ × Bytes))
          → R.changes s ≡ c
          → unless_kept R C cutoff (first_member c) ≡ some raw
          → IsOldest C h.gone raw
      go [] e f = cc f
      go ((n, b) ∷ rest) e f = elim (Bool-cases (is_kept R C cutoff (C.unmarshal b))) [
        | inl k ↦ cc (rw k at f)
        | inr k ↦ subst (IsOldest C h.gone) (some-injective b raw (rw k at f)) (
            first_found C n h.gone b rest (drop h.gone l)
              (scored-drop C h.gone l ∙ sym h.retained ∙ e) (rest-Numbered l s h)
              (All-drop (IsMarshalled C) h.gone l h.marshalled))
      ]

  remove_absent-IsLog :
      (l : List Record) (s : R.State) (raw : Bytes) (h : IsLog R C l s)
      → All (λ x. x.1 ≢ raw) (R.changes s)
      → (k : IsLog R C l (R.remove_change raw s)) × (h.gone ≤ k.gone)
  remove_absent-IsLog l s raw h absent = (
    record {
      gone = h.gone;
      gone_le = h.gone_le;
      numbered = h.numbered;
      marshalled = h.marshalled;
      count = ap read_or_zero (R.get_version-remove raw s) ∙ h.count;
      current = λ f. R.hash_get-remove f raw s ∙ h.current f;
      retained = R.changes-remove_absent raw s absent ∙ h.retained;
    },
    omega arith,
  )

  -- A removal of what was found takes the first change away, or nothing if that is done already.
  remove_change-IsLog :
      (l : List Record) (s : R.State) (raw : Bytes) (h : IsLog R C l s)
      → IsOldest C h.gone raw
      → (k : IsLog R C l (R.remove_change raw s)) × (h.gone ≤ k.gone)
  remove_change-IsLog l s raw h old = go (R.changes s) refl
    where
      go :
          (c : List (ℕ × Bytes))
          → R.changes s ≡ c
          → (k : IsLog R C l (R.remove_change raw s)) × (h.gone ≤ k.gone)
      go [] e = remove_absent-IsLog l s raw h (subst (All (λ x. x.1 ≢ raw)) (sym e) tt)
      go ((n, b) ∷ rest) e = elim (Bool-cases (same bytes_order b raw)) [
        | inl i ↦
            subst (λ x. (k : IsLog R C l (R.remove_change x s)) × (h.gone ≤ k.gone))
              (same→eq bytes_order b raw i)
              (
                gone_further R C l n b rest s e h,
                omega (arith, gone-gone_further R C l n b rest s e h),
              )
        | inr i ↦ remove_absent-IsLog l s raw h (
            subst (All (λ x. x.1 ≢ raw)) (sym e) (
              (λ d. cc (i, ap (λ x. same bytes_order x raw) d, same_refl bytes_order raw)),
              absent_tail C n h.gone b rest raw (drop h.gone l)
                  (scored-drop C h.gone l ∙ sym h.retained ∙ e) (rest-Numbered l s h)
                  (All-drop (IsMarshalled C) h.gone l h.marshalled) old,
            ))
      ]

  pub remove_found-IsLog :
      (l : List Record) (s : R.State) (found : Option Bytes) (h : IsLog R C l s)
      → ((raw : Bytes) → found ≡ some raw → IsOldest C h.gone raw)
      → (k : IsLog R C l (remove_found R found s)) × (h.gone ≤ k.gone)
  unfolding remove_found
  remove_found-IsLog l s none h old = (h, omega arith)
  remove_found-IsLog l s (some raw) h old = remove_change-IsLog l s raw h (old raw refl)
