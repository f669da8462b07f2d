-- ===== src/Storage/Redis/Log.antt =====
-- The redis backend against the log of the records that were committed, of any number of clients.
use mathlib.Core.Option.{some-injective}
use pomerium.Prelude.{
  ℕ, zero, suc, ◌+◌, ◌^◌, ◌≤◌, ◌<◌, ℤ, Bytes, bytes_order, same, ◌≡◌, ◌≢◌, refl, ap, sym, ◌∙◌,
  subst, List, [], ◌∷◌, ◌++◌, Option, none, some, All, arith, length, length-append, drop,
  drop-append, drop-drop, length-drop, if◌then◌else◌,
}
use pomerium.Storage.{Record}
use pomerium.Storage.InMemory.History.{Numbered, Numbered-append}
use pomerium.Storage.Redis.{
  Redis, Codec, hash_delete, hash_set, add_change, set_version, publish, run_all, field_of,
  read_or_zero, field_command,
}

abbrev pub or_empty : Option Bytes → Bytes
or_empty none = []
or_empty (some bs) = bs

abbrev pub entry_for : Option ℤ → Bytes → Option Bytes
entry_for (some deleted) bs = none
entry_for none bs = some bs

module _ (C : Codec) where
  abbrev pub bytes_of : Record → Bytes
  bytes_of r = or_empty (C.marshal r)

  -- What a record makes of the entry of the hash with a key.
  abbrev pub update_entry : Bytes → Option Bytes → Record → Option Bytes
  update_entry f entry r =
      if same bytes_order f (field_of r) then entry_for r.deleted_at (bytes_of r) else entry

  -- What the records of a log make of it.
  unfoldable pub entry_after : Bytes → Option Bytes → List Record → Option Bytes
  entry_after f entry [] = entry
  entry_after f entry (r ∷ l) = entry_after f (update_entry f entry r) l

  entry_after-append :
      (f : Bytes) (entry : Option Bytes) (l : List Record) (r : Record)
      → entry_after f entry (l ++ r ∷ []) ≡ update_entry f (entry_after f entry l) r
  unfolding entry_after
  entry_after-append f entry [] r = refl
  entry_after-append f entry (x ∷ l) r = entry_after-append f (update_entry f entry x) l r

  -- The log as the members of the sorted set.
  unfoldable pub scored : List Record → List (ℕ × Bytes)
  scored [] = []
  scored (r ∷ l) = (r.version, bytes_of r) ∷ scored l

  scored-append :
      (l : List Record) (r : Record)
      → scored (l ++ r ∷ []) ≡ scored l ++ (r.version, bytes_of r) ∷ []
  unfolding scored
  scored-append [] r = refl
  scored-append (x ∷ l) r = ap (◌∷◌ (x.version, bytes_of x)) (scored-append l r)

  length-scored : (l : List Record) → length (scored l) ≡ length l
  unfolding scored
  length-scored [] = refl
  length-scored (r ∷ l) = ap suc (length-scored l)

  abbrev pub IsMarshalled : Record → Type 0
  IsMarshalled r = C.marshal r ≡ some (bytes_of r)

  IsMarshalled-append :
      (l : List Record) (r : Record)
      → All IsMarshalled l
      → IsMarshalled r
      → All IsMarshalled (l ++ r ∷ [])
  IsMarshalled-append [] r all h = (h, tt)
  IsMarshalled-append (x ∷ l) r (m, all) h = (m, IsMarshalled-append l r all h)

  -- Records with different versions have different texts.
  pub texts_differ :
      (r q : Record)
      → IsMarshalled r
      → IsMarshalled q
      → r.version ≢ q.version
      → bytes_of r ≢ bytes_of q
  texts_differ r q m n h e = h (
      ap (λ x. x.version)
        (some-injective r q (
          sym (C.unmarshal-marshal r (bytes_of r) m)
          ∙ ap C.unmarshal e
          ∙ C.unmarshal-marshal q (bytes_of q) n)))

  scored_before :
      (n : ℕ) (l : List Record) (q : Record)
      → Numbered n l
      → All IsMarshalled l
      → IsMarshalled q
      → n + length l < q.version
      → All (λ x. (x.0 < q.version) × (x.1 ≢ bytes_of q)) (scored l)
  unfolding scored
  scored_before n [] q h all m less = tt
  scored_before n (r ∷ l) q (v, h) (mr, all) m less = (
    (omega (arith, v), texts_differ r q mr m (λ e. omega (arith, v, e))),
    scored_before (n + 1) l q h all m (omega arith),
  )

pub All-drop : {A : Type 0} (P : A → Type 0) (n : ℕ) (l : List A) → All P l → All P (drop n l)
All-drop P zero l all = all
All-drop P (suc n) [] all = tt
All-drop P (suc n) (x ∷ l) (p, all) = All-drop P n l all

module _ (R : Redis) (C : Codec) where
  -- `l` is the log of the server's state: its last version is the number of the records, which are
  -- numbered from 1, its hash is what they make of an empty one, and its changes are the log without
  -- the first `gone`, which have expired.
  pub record IsLog (l : List Record) (s : R.State) : Type 0 where
    pub gone : ℕ
    pub gone_le : gone ≤ length l
    pub numbered : Numbered 0 l
    pub marshalled : All (IsMarshalled C) l
    pub count : read_or_zero (R.get_version s) ≡ length l
    pub current : (f : Bytes) → R.hash_get f s ≡ entry_after C f none l
    pub retained : R.changes s ≡ drop gone (scored C l)

  unfoldable pub run_put : Record → Bytes → R.State → R.State
  run_put r bs s =
      run_all R
        (field_command r.deleted_at (field_of r) bs
          ∷ add_change r.version bs
          ∷ set_version r.version
          ∷ publish r.version
          ∷ [])
        s

  hash_get-field_command :
      (f g bs : Bytes) (deleted : Option ℤ) (s : R.State)
      → R.hash_get f (R.run (field_command deleted g bs) s)
        ≡ (if same bytes_order f g then entry_for deleted bs else R.hash_get f s)
  hash_get-field_command f g bs none s = R.hash_get-run f (hash_set g bs) s
  hash_get-field_command f g bs (some t) s = R.hash_get-run f (hash_delete g) s

  hash_get-run_put :
      (f : Bytes) (r : Record) (s : R.State)
      → R.hash_get f (run_put r (bytes_of C r) s) ≡ update_entry C f (R.hash_get f s) r
  unfolding run_put
  hash_get-run_put f r s =
      R.hash_get-run f (publish r.version) _
      ∙ R.hash_get-run f (set_version r.version) _
      ∙ R.hash_get-run f (add_change r.version (bytes_of C r)) _
      ∙ hash_get-field_command f (field_of r) (bytes_of C r) r.deleted_at s

  changes-field_command :
      (g bs : Bytes) (deleted : Option ℤ) (s : R.State)
      → R.changes (R.run (field_command deleted g bs) s) ≡ R.changes s
  changes-field_command g bs none s = R.changes-hash_set g bs s
  changes-field_command g bs (some t) s = R.changes-hash_delete g s

  changes-run_put :
      (r : Record) (bs : Bytes) (s : R.State)
      → r.version < 2 ^ 53
      → All (λ x. (x.0 < r.version) × (x.1 ≢ bs)) (R.changes s)
      → R.changes (run_put r bs s) ≡ R.changes s ++ (r.version, bs) ∷ []
  unfolding run_put
  changes-run_put r bs s fits all =
      let same_changes = changes-field_command (field_of r) bs r.deleted_at s in
      R.changes-publish r.version _
      ∙ R.changes-set_version r.version _
      ∙ R.changes-add_change r.version bs (R.run (field_command r.deleted_at (field_of r) bs) s)
          fits (subst (All _) (sym same_changes) all)
      ∙ ap (λ l. l ++ (r.version, bs) ∷ []) same_changes

  get_version-run_put :
      (r : Record) (bs : Bytes) (s : R.State) → R.get_version (run_put r bs s) ≡ some r.version
  unfolding run_put
  get_version-run_put r bs s =
      R.get_version-run (publish r.version) _ ∙ R.get_version-run (set_version r.version) _

  pub run_put-IsLog :
      (l : List Record) (r : Record) (s : R.State)
      → r.version ≡ length l + 1
      → length l + 1 < 2 ^ 53
      → IsMarshalled C r
      → IsLog l s
      → IsLog (l ++ r ∷ []) (run_put r (bytes_of C r) s)
  unfolding scored
  run_put-IsLog l r s v fits m h =
      let before =
        All-drop (λ x. (x.0 < r.version) × (x.1 ≢ bytes_of C r)) h.gone (scored C l)
          (scored_before C 0 l r h.numbered h.marshalled m (omega (arith, v))) in
      record {
        gone = h.gone;
        gone_le = omega (arith, h.gone_le, length-append l (r ∷ []));
        numbered = Numbered-append 0 l r h.numbered (omega (arith, v));
        marshalled = IsMarshalled-append C l r h.marshalled m;
        count =
            ap read_or_zero (get_version-run_put r (bytes_of C r) s)
            ∙ omega (arith, v, length-append l (r ∷ []));
        current = λ f.
            hash_get-run_put f r s
            ∙ ap (λ o. update_entry C f o r) (h.current f)
            ∙ sym (entry_after-append C f none l r);
        retained =
            changes-run_put r (bytes_of C r) s (omega (arith, v, fits))
              (subst (All _) (sym h.retained) before)
            ∙ ap (λ x. x ++ (r.version, bytes_of C r) ∷ []) h.retained
            ∙ sym (
                ap (drop h.gone) (scored-append C l r)
                ∙ drop-append h.gone (scored C l) ((r.version, bytes_of C r) ∷ [])
                    (omega (arith, h.gone_le, length-scored C l)));
      }

  -- The first change expires.
  pub gone_further :
      (l : List Record) (n : ℕ) (b : Bytes) (rest : List (ℕ × Bytes)) (s : R.State)
      → R.changes s ≡ (n, b) ∷ rest
      → IsLog l s
      → IsLog l (R.remove_change b s)
  gone_further l n b rest s e h =
      let split : drop h.gone (scored C l) ≡ (n, b) ∷ rest = sym h.retained ∙ e in
      let next_gone : h.gone + 1 ≡ suc h.gone = omega arith in
      record {
        gone = suc h.gone;
        gone_le =
            omega (arith, ap length split, length-drop h.gone (scored C l), length-scored C l);
        numbered = h.numbered;
        marshalled = h.marshalled;
        count = ap read_or_zero (R.get_version-remove b s) ∙ h.count;
        current = λ f. R.hash_get-remove f b s ∙ h.current f;
        retained =
            R.changes-remove n b rest s e
            ∙ ap (drop 1) (sym split)
            ∙ drop-drop 1 h.gone (scored C l)
            ∙ ap (λ k. drop k (scored C l)) next_gone;
      }

  pub gone-run_put :
      (l : List Record) (r : Record) (s : R.State) (v : r.version ≡ length l + 1)
      (fits : length l + 1 < 2 ^ 53) (m : IsMarshalled C r) (h : IsLog l s)
      → (run_put-IsLog l r s v fits m h).gone ≡ h.gone
  unfolding run_put-IsLog
  gone-run_put l r s v fits m h = refl

  pub gone-gone_further :
      (l : List Record) (n : ℕ) (b : Bytes) (rest : List (ℕ × Bytes)) (s : R.State)
      (e : R.changes s ≡ (n, b) ∷ rest) (h : IsLog l s)
      → (gone_further l n b rest s e h).gone ≡ suc h.gone
  unfolding gone_further
  gone-gone_further l n b rest s e h = refl
