-- ===== src/Databroker/Paging.antt =====
-- ApplyOffsetAndLimit of pkg/grpc/databroker/databroker.go against slices of a list.
use pomerium.Prelude.{
  ℕ, zero, suc, ◌+◌, ◌≤◌, pos, ◌≡◌, refl, sym, ap, ◌∙◌, List, [], ◌∷◌, ◌++◌, Option, none, some,
  arith, length, take, drop, drop_past, drop-drop,
}
use pomerium.Storage.{Record}
use pomerium.Databroker.{apply_offset, apply_limit, limited, with_count, apply_offset_and_limit}

module _ {ℓ} {A : Type ℓ} where
  take_past : (n : ℕ) (xs : List A) → length xs ≤ n → take n xs ≡ xs
  take_past zero [] h = refl
  take_past zero (x ∷ xs) h = absurd (omega (arith, h))
  take_past (suc n) [] h = refl
  take_past (suc n) (x ∷ xs) h = ap (◌∷◌ x) (take_past n xs (omega (arith, h)))

  take_nil : (n : ℕ) → take {A = A} n [] ≡ []
  take_nil zero = refl
  take_nil (suc n) = refl

  take_add : (m n : ℕ) (xs : List A) → take (m + n) xs ≡ take m xs ++ take n (drop m xs)
  take_add zero n xs = ap (λ k. take k xs) (omega arith)
  take_add (suc m) n [] = take_nil (suc m + n) ∙ sym (take_nil n)
  take_add (suc m) n (x ∷ xs) =
      let e : suc m + n ≡ suc (m + n) = omega arith in
      ap (λ k. take k (x ∷ xs)) e ∙ ap (◌∷◌ x) (take_add m n xs)

-- For an offset and a limit that are not negative the answer is the slice of the records from the
-- offset on, of at most as many as the limit, with the number of all the records, also where the
-- offset or the limit is past the end.
pub slice :
    (all : List Record) (offset limit : ℕ)
    → apply_offset_and_limit all (pos offset) (pos limit)
      ≡ some (take limit (drop offset all), length all)
unfolding apply_offset_and_limit limited with_count apply_offset apply_limit
slice all offset limit = ground (arith, drop_past offset all, take_past limit (drop offset all))

abbrev pub joined : Option (List Record × ℕ) → Option (List Record × ℕ) → Option (List Record × ℕ)
joined (some (a, n)) (some (b, m)) = some (a ++ b, n)
joined x y = none

-- A page and the page that follows it are together the page with both limits added up.
pub joined_pages :
    (all : List Record) (offset m n : ℕ)
    → joined
        (apply_offset_and_limit all (pos offset) (pos m))
        (apply_offset_and_limit all (pos (offset + m)) (pos n))
      ≡ apply_offset_and_limit all (pos offset) (pos (m + n))
joined_pages all offset m n =
    rw (slice all offset m, slice all (offset + m) n, slice all offset (m + n))
      (ap (λ l. some (l, length all))
        (ap (λ l. take m (drop offset all) ++ take n l) (sym (drop-drop m offset all))
          ∙ sym (take_add m n (drop offset all))))
