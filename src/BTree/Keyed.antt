-- ===== src/BTree/Keyed.antt =====
-- Trees whose items are compared by a key that is totally ordered: a sorted map.
use pomerium.Prelude.{
  Bool, true, false, ◌≡◌, refl, List, [], ◌∷◌, none, some, arith, keep_if, All, Order, inl, inr,
  asym, Bool-cases, if◌then◌else◌,
}
use pomerium.BTree.Sorted.{equal, place, without, find, first, rest}

module _ {A K : Type 0} (o : Order K) (key : A → K) where
  -- Items compared by their keys.
  abbrev pub by_key : A → A → Bool
  by_key a b = o.lt (key a) (key b)

  -- A smallest item comes first.
  abbrev pub IsAscending : List A → Type 0
  IsAscending [] = Unit
  IsAscending (a ∷ l) = All (λ b. by_key a b ≡ true) l × IsAscending l

  pub find-place :
      (a b : A) (l : List A)
      → find by_key b (place by_key a l) ≡ (if equal by_key b a then some a else find by_key b l)
  find-place a b [] = refl
  find-place a b (c ∷ l) = ground (
    arith,
    find-place a b l,
    o.connected (key a) (key c),
    o.connected (key b) (key c),
    o.connected (key b) (key a),
    o.trans (key a) (key b) (key c),
    o.irrefl (key a),
  )

  pub find-without :
      (a b : A) (l : List A)
      → find by_key b (without by_key a l) ≡ (if equal by_key b a then none else find by_key b l)
  find-without a b [] = ground arith
  find-without a b (c ∷ l) = ground (
    arith,
    find-without a b l,
    o.connected (key a) (key c),
    o.connected (key b) (key c),
    o.connected (key b) (key a),
    o.irrefl (key a),
  )

  pub place-All : (P : A → Type 0) (a : A) (l : List A) → P a → All P l → All P (place by_key a l)
  place-All P a [] h k = (h, tt)
  place-All P a (c ∷ l) h k = ground (arith, place-All P a l h k.1)

  pub All-mono : (P Q : A → Type 0) → ((a : A) → P a → Q a) → (l : List A) → All P l → All Q l
  All-mono P Q f [] k = tt
  All-mono P Q f (c ∷ l) k = (f c k.0, All-mono P Q f l k.1)

  pub keep_if-All : (P : A → Type 0) (p : A → Bool) (l : List A) → All P l → All P (keep_if p l)
  keep_if-All P p [] k = tt
  keep_if-All P p (c ∷ l) k = ground (arith, keep_if-All P p l k.1)

  pub place-IsAscending : (a : A) (l : List A) → IsAscending l → IsAscending (place by_key a l)
  place-IsAscending a [] h = (tt, tt)
  place-IsAscending a (c ∷ l) h = elim (Bool-cases (by_key a c)) [
    | inl below ↦
        rw below ((below, All-mono _ _ (λ b. o.trans (key a) (key c) (key b) below) l h.0), h)
    | inr other ↦ rw other (elim (Bool-cases (by_key c a)) [
      | inl above ↦
          rw above (place-All (λ b. by_key c b ≡ true) a l above h.0, place-IsAscending a l h.1)
      | inr level ↦
          rw level (
            All-mono _ _ (λ b e. rw (o.connected (key a) (key c) other level, by_key) e) l h.0,
            h.1,
          )
    ])
  ]

  pub keep_if-IsAscending : (p : A → Bool) (l : List A) → IsAscending l → IsAscending (keep_if p l)
  keep_if-IsAscending p [] h = tt
  keep_if-IsAscending p (c ∷ l) h =
      ground (arith, keep_if-IsAscending p l h.1, keep_if-All (λ b. by_key c b ≡ true) p l h.0)

  pub rest-IsAscending : (l : List A) → IsAscending l → IsAscending (rest l)
  rest-IsAscending [] h = tt
  rest-IsAscending (c ∷ l) h = h.1

  -- Only the key of what is asked for matters.
  pub find_same_key : (a b : A) (l : List A) → key a ≡ key b → find by_key a l ≡ find by_key b l
  find_same_key a b [] h = refl
  find_same_key a b (c ∷ l) h = ground (arith, find_same_key a b l h)

  -- What is found has the key that was asked for.
  pub find-key : (a b : A) (l : List A) → find by_key a l ≡ some b → key a ≡ key b
  find-key a b [] h = cc
  find-key a b (c ∷ l) h = ground (arith, find-key a b l, o.connected (key a) (key c))

  pub find-first : (a : A) (l : List A) → first l ≡ some a → find by_key a l ≡ some a
  find-first a [] h = cc
  find-first a (c ∷ l) h = ground (arith, o.irrefl (key a))

  pub find-All : (P : A → Type 0) (a b : A) (l : List A) → All P l → find by_key a l ≡ some b → P b
  find-All P a b [] k h = cc
  find-All P a b (c ∷ l) k h = ground (arith, find-All P a b l k.1)

  -- Nothing that is found lies below the first item.
  pub first_least :
      (a b c : A) (l : List A)
      → IsAscending l
      → first l ≡ some a
      → find by_key b l ≡ some c
      → by_key c a ≡ false
  first_least a b c [] s h k = cc
  first_least a b c (d ∷ l) s h k =
      ground (
        arith,
        o.irrefl (key d),
        asym o (key d) (key c),
        find-All (λ x. by_key d x ≡ true) b c l s.0,
      )
