-- ===== src/BTree.antt =====
-- The interface of github.com/google/btree, which the scheduler, the identity manager and the
-- in-memory databroker store call. The tree itself is not part of the repository: `BTree` is a
-- parameter of whatever uses it, and its fields state the package's documentation through
-- `items`, the items in ascending order.
pub mod Sorted
pub mod Keyed
pub mod Laws
use pomerium.Prelude.{ℕ, ◌≡◌, refl, Bool, not, Option, List, [], length, keep_if}
use Sorted.{place, without, find, first}

-- A tree of items of type `A`, ordered by the item's method `Less`.
pub record BTree {A : Type 0} (less : A → A → Bool) : Type 1 where
  pub Tree : Type 0
  pub items : Tree → List A
  -- New
  pub empty : Tree
  pub items-empty : items empty ≡ []
  -- ReplaceOrInsert adds the item, in the place of an equal one if there is one.
  pub replace_or_insert : Tree → A → Tree
  pub items-replace_or_insert :
      (t : Tree) (a : A) → items (replace_or_insert t a) ≡ place less a (items t)
  -- Delete removes an item equal to the given one.
  pub delete : Tree → A → Tree
  pub items-delete : (t : Tree) (a : A) → items (delete t a) ≡ without less a (items t)
  -- DeleteMin removes the smallest item.
  pub delete_min : Tree → Tree
  pub items-delete_min : (t : Tree) → items (delete_min t) ≡ Sorted.rest (items t)
  -- Get looks for an item equal to the given one.
  pub get : Tree → A → Option A
  pub get-items : (t : Tree) (a : A) → get t a ≡ find less a (items t)
  -- Min returns the smallest item, or nil.
  pub min : Tree → Option A
  pub min-items : (t : Tree) → min t ≡ first (items t)
  pub len : Tree → ℕ
  pub len-items : (t : Tree) → len t ≡ length (items t)
  -- AscendGreaterOrEqual calls the iterator on the items from the pivot on, in order; here it
  -- returns them.
  pub ascend_ge : Tree → A → List A
  pub ascend_ge-items : (t : Tree) (a : A) → ascend_ge t a ≡ keep_if (λ b. not (less b a)) (items t)

-- The interface can be met: a sorted list.
abbrev pub listed : {A : Type 0} (less : A → A → Bool) → BTree less
listed {A} less = record {
  Tree = List A;
  items = λ l. l;
  empty = [];
  items-empty = refl;
  replace_or_insert = λ l a. place less a l;
  items-replace_or_insert = λ l a. refl;
  delete = λ l a. without less a l;
  items-delete = λ l a. refl;
  delete_min = λ l. Sorted.rest l;
  items-delete_min = λ l. refl;
  get = λ l a. find less a l;
  get-items = λ l a. refl;
  min = λ l. first l;
  min-items = λ l. refl;
  len = λ l. length l;
  len-items = λ l. refl;
  ascend_ge = λ l a. keep_if (λ b. not (less b a)) l;
  ascend_ge-items = λ l a. refl;
}
