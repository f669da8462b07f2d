-- ===== src/GoMap.antt =====
-- Go's built-in `map`, as a list of entries with distinct keys. The order of the list stands for
-- the order in which `range` visits the entries, which Go leaves open.
use pomerium.Prelude.{
  false, ◌≡◌, refl, List, [], ◌∷◌, Option, none, some, arith, All, Order, same, same→eq, Bool-cases,
  inl, inr, if◌then◌else◌,
}

abbrev pub GoMap : Type 0 → Type 0 → Type 0
GoMap K V = List (K × V)

module _ {K V : Type 0} (o : Order K) where
  -- v, ok := m[k]
  unfoldable pub lookup : K → GoMap K V → Option V
  lookup k [] = none
  lookup k ((j, v) ∷ m) = if same o k j then some v else lookup k m

  -- m[k] = v
  unfoldable pub insert : K → V → GoMap K V → GoMap K V
  insert k v [] = (k, v) ∷ []
  insert k v ((j, w) ∷ m) = if same o k j then (k, v) ∷ m else (j, w) ∷ insert k v m

  -- delete(m, k)
  unfoldable pub delete : K → GoMap K V → GoMap K V
  delete k [] = []
  delete k ((j, w) ∷ m) = let rest = delete k m in if same o k j then rest else (j, w) ∷ rest

  pub lookup-insert :
      (k j : K) (v : V) (m : GoMap K V)
      → lookup j (insert k v m) ≡ (if same o j k then some v else lookup j m)
  unfolding lookup insert
  lookup-insert k j v [] = refl
  lookup-insert k j v ((i, w) ∷ m) =
      ground (
        arith,
        lookup-insert k j v m,
        o.connected k i,
        o.connected j k,
        o.connected j i,
        o.irrefl k,
      )

  pub lookup-delete :
      (k j : K) (m : GoMap K V) → lookup j (delete k m) ≡ (if same o j k then none else lookup j m)
  unfolding lookup delete
  lookup-delete k j [] = ground arith
  lookup-delete k j ((i, w) ∷ m) =
      ground (arith, lookup-delete k j m, o.connected k i, o.connected j k, o.connected j i)

  -- No entry has the key.
  abbrev pub Lacks : K → GoMap K V → Type 0
  Lacks k = All (λ e. same o k e.0 ≡ false)

  abbrev pub HasDistinctKeys : GoMap K V → Type 0
  HasDistinctKeys [] = Unit
  HasDistinctKeys (e ∷ m) = Lacks e.0 m × HasDistinctKeys m

  pub insert-All :
      (P : K × V → Type 0) (k : K) (v : V) (m : GoMap K V)
      → P (k, v)
      → All P m
      → All P (insert k v m)
  unfolding insert
  insert-All P k v [] h a = (h, tt)
  insert-All P k v ((j, w) ∷ m) h a = ground (arith, insert-All P k v m h a.1)

  pub delete-All : (P : K × V → Type 0) (k : K) (m : GoMap K V) → All P m → All P (delete k m)
  unfolding delete
  delete-All P k [] a = tt
  delete-All P k ((j, w) ∷ m) a = ground (arith, delete-All P k m a.1)

  pub insert-HasDistinctKeys :
      (k : K) (v : V) (m : GoMap K V) → HasDistinctKeys m → HasDistinctKeys (insert k v m)
  unfolding insert
  insert-HasDistinctKeys k v [] h = (tt, tt)
  insert-HasDistinctKeys k v ((j, w) ∷ m) h = elim (Bool-cases (same o k j)) [
    | inl e ↦ rw e (rw (same→eq o k j e) h)
    | inr e ↦ rw e (
      insert-All (λ x. same o j x.0 ≡ false) k v m (ground (arith, e)) h.0,
      insert-HasDistinctKeys k v m h.1,
    )
  ]

  pub delete-HasDistinctKeys :
      (k : K) (m : GoMap K V) → HasDistinctKeys m → HasDistinctKeys (delete k m)
  unfolding delete
  delete-HasDistinctKeys k [] h = tt
  delete-HasDistinctKeys k ((j, w) ∷ m) h =
      ground (arith, delete-HasDistinctKeys k m h.1, delete-All (λ x. same o j x.0 ≡ false) k m h.0)

  pub lookup_lacking : (k : K) (m : GoMap K V) → Lacks k m → lookup k m ≡ none
  unfolding lookup
  lookup_lacking k [] h = refl
  lookup_lacking k ((j, w) ∷ m) h = ground (arith, lookup_lacking k m h.1)
