-- ===== src/BTree/Laws.antt =====
-- A B-tree over a key as a map: what `Get` and `Min` return after each operation.
use pomerium.Prelude.{◌≡◌, false, none, some, Order, if◌then◌else◌}
use pomerium.BTree.{BTree}
use pomerium.BTree.Sorted.{equal}
use pomerium.BTree.Keyed.{
  by_key, IsAscending, find-place, find-without, place-IsAscending, keep_if-IsAscending, find-key,
  find_same_key, find-first, first_least,
}

module _ {A K : Type 0} (o : Order K) (key : A → K) (B : BTree (by_key o key)) where
  abbrev pub IsSorted : B.Tree → Type 0
  IsSorted t = IsAscending o key (B.items t)

  pub get-empty : (a : A) → B.get B.empty a ≡ none
  get-empty a = rw (B.get-items, B.items-empty)

  pub get-replace_or_insert :
      (t : B.Tree) (a b : A)
      → B.get (B.replace_or_insert t a) b ≡ (if equal (by_key o key) b a then some a else B.get t b)
  get-replace_or_insert t a b =
      simp (B.get-items, B.items-replace_or_insert) (find-place o key a b (B.items t))

  pub get-delete :
      (t : B.Tree) (a b : A)
      → B.get (B.delete t a) b ≡ (if equal (by_key o key) b a then none else B.get t b)
  get-delete t a b = simp (B.get-items, B.items-delete) (find-without o key a b (B.items t))

  pub empty-IsSorted : IsSorted B.empty
  empty-IsSorted = rw B.items-empty tt

  pub replace_or_insert-IsSorted :
      (t : B.Tree) (a : A) → IsSorted t → IsSorted (B.replace_or_insert t a)
  replace_or_insert-IsSorted t a h =
      rw B.items-replace_or_insert (place-IsAscending o key a (B.items t) h)

  pub delete-IsSorted : (t : B.Tree) (a : A) → IsSorted t → IsSorted (B.delete t a)
  delete-IsSorted t a h = rw B.items-delete (keep_if-IsAscending o key _ (B.items t) h)

  pub get-key : (t : B.Tree) (a b : A) → B.get t a ≡ some b → key a ≡ key b
  get-key t a b h = find-key o key a b (B.items t) (rw B.get-items at h)

  pub get_same_key : (t : B.Tree) (a b : A) → key a ≡ key b → B.get t a ≡ B.get t b
  get_same_key t a b h = simp B.get-items (find_same_key o key a b (B.items t) h)

  pub get-min : (t : B.Tree) (a : A) → B.min t ≡ some a → B.get t a ≡ some a
  get-min t a h = rw B.get-items (find-first o key a (B.items t) (rw B.min-items at h))

  pub min_least :
      (t : B.Tree) (a b c : A)
      → IsSorted t
      → B.min t ≡ some a
      → B.get t b ≡ some c
      → by_key o key c a ≡ false
  min_least t a b c s h k =
      first_least o key a b c (B.items t) s (rw B.min-items at h) (rw B.get-items at k)
