-- ===== src/Strings/Sorting.antt =====
-- sort.Strings, as an insertion sort, and the sorted keys of a map that stands for a set.
use pomerium.Prelude.{
  Bytes, Bool, true, false, ◌||◌, ◌≡◌, refl, ◌∙◌, List, [], ◌∷◌, All, arith, any_of, bytes_order,
  bytes_lt, Bool-cases, inl, inr, if◌then◌else◌,
}
use pomerium.Strings.{bytes_eq}
use pomerium.Strings.Splitting.{bytes_eq_refl}

unfoldable pub insert_string : Bytes → List Bytes → List Bytes
unfolding bytes_lt
insert_string s [] = s ∷ []
insert_string s (t ∷ l) =
    let rest = insert_string s l in if bytes_lt t s then t ∷ rest else s ∷ (t ∷ l)

unfoldable pub sort_strings : List Bytes → List Bytes
unfolding insert_string
sort_strings [] = []
sort_strings (s ∷ l) = insert_string s (sort_strings l)

-- Whether a string is in a list.
abbrev pub has : Bytes → List Bytes → Bool
has d = any_of (bytes_eq d)

pub has-insert_string :
    (d s : Bytes) (l : List Bytes) → has d (insert_string s l) ≡ (bytes_eq d s || has d l)
unfolding insert_string
has-insert_string d s [] = ground arith
has-insert_string d s (t ∷ l) = ground (arith, has-insert_string d s l)

pub has-sort_strings : (d : Bytes) (l : List Bytes) → has d (sort_strings l) ≡ has d l
unfolding sort_strings
has-sort_strings d [] = refl
has-sort_strings d (s ∷ l) =
    ground (arith, has-insert_string d s (sort_strings l), has-sort_strings d l)

-- In ascending order, and so without duplicates.
abbrev pub IsAscending : List Bytes → Type 0
IsAscending [] = Unit
IsAscending (s ∷ l) = All (λ t. bytes_lt s t ≡ true) l × IsAscending l

abbrev pub IsDistinct : List Bytes → Type 0
IsDistinct [] = Unit
IsDistinct (s ∷ l) = (has s l ≡ false) × IsDistinct l

-- Of two strings that differ, one is below the other.
above : (s t : Bytes) → bytes_lt t s ≡ false → bytes_eq s t ≡ false → bytes_lt s t ≡ true
above s t h k = elim (Bool-cases (bytes_lt s t)) [
  | inl e ↦ e
  | inr e ↦ cc (rw (bytes_order.connected s t e h, bytes_eq_refl t) at k)
]

below-All :
    (s t : Bytes) (l : List Bytes)
    → bytes_lt s t ≡ true
    → All (λ u. bytes_lt t u ≡ true) l
    → All (λ u. bytes_lt s u ≡ true) l
below-All s t [] h all = tt
below-All s t (u ∷ l) h (below, all) = (bytes_order.trans s t u h below, below-All s t l h all)

insert_string-All :
    (t s : Bytes) (l : List Bytes)
    → bytes_lt t s ≡ true
    → All (λ u. bytes_lt t u ≡ true) l
    → All (λ u. bytes_lt t u ≡ true) (insert_string s l)
unfolding insert_string
insert_string-All t s [] h all = (h, tt)
insert_string-All t s (u ∷ l) h (below, all) = elim (Bool-cases (bytes_lt u s)) [
  | inl e ↦ rw e (below, insert_string-All t s l h all)
  | inr e ↦ rw e (h, (below, all))
]

insert_string-IsAscending :
    (s : Bytes) (l : List Bytes) → has s l ≡ false → IsAscending l → IsAscending (insert_string s l)
unfolding insert_string
insert_string-IsAscending s [] h a = (tt, tt)
insert_string-IsAscending s (t ∷ l) h (all, a) = elim (Bool-cases (bytes_lt t s)) [
  | inl e ↦
      rw e (insert_string-All t s l e all, insert_string-IsAscending s l (ground (arith, h)) a)
  | inr e ↦
      let below : bytes_lt s t ≡ true = above s t e (ground (arith, h)) in
      rw e ((below, below-All s t l below all), (all, a))
]

pub sort_strings-IsAscending : (l : List Bytes) → IsDistinct l → IsAscending (sort_strings l)
unfolding sort_strings
sort_strings-IsAscending [] d = tt
sort_strings-IsAscending (s ∷ l) (h, d) =
    insert_string-IsAscending s (sort_strings l) (has-sort_strings s l ∙ h)
      (sort_strings-IsAscending l d)
