-- ===== src/BTree/Sorted.antt =====
-- What the operations of a B-tree do to the list of its items in ascending order.
use pomerium.Prelude.{
  Bool, true, false, not, List, [], ◌∷◌, Option, none, some, keep_if, if◌then◌else◌,
}

module _ {A : Type 0} (less : A → A → Bool) where
  -- Neither is less than the other: what the package calls equal.
  abbrev pub equal : A → A → Bool
  equal a b = if less a b then false else if less b a then false else true

  abbrev pub place : A → List A → List A
  place a [] = a ∷ []
  place a (b ∷ l) =
      let rest = place a l in if less a b then a ∷ b ∷ l else if less b a then b ∷ rest else a ∷ l

  abbrev pub without : A → List A → List A
  without a l = keep_if (λ b. not (equal a b)) l

  abbrev pub find : A → List A → Option A
  find a [] = none
  find a (b ∷ l) = if equal a b then some b else find a l

module _ {A : Type 0} where
  abbrev pub first : List A → Option A
  first [] = none
  first (a ∷ l) = some a

  abbrev pub rest : List A → List A
  rest [] = []
  rest (a ∷ l) = l
