-- ===== src/Sessions/Cookie/Chunks.antt =====
-- The chunks of a long cookie: they make up the value, they fit into a cookie, and there are few.
use pomerium.Prelude.{
  ℕ, zero, suc, ◌*◌, ◌≤◌, ◌<◌, ◌≡◌, refl, ap, ◌∙◌, Bytes, List, [], ◌∷◌, ◌++◌, arith, ltb, All,
  length, take, drop, length-drop, take-append-drop, inl, inr, Bool-cases, if◌then◌else◌,
}
use pomerium.Sessions.Cookie.{chunk_from}

abbrev pub concat : List Bytes → Bytes
concat [] = []
concat (s ∷ l) = s ++ concat l

chunk_size : ℕ → ℕ → ℕ
chunk_size n size = if ltb n size then n else size

pub concat-chunk_from :
    (fuel : ℕ) (s : Bytes) (size : ℕ)
    → length s ≤ fuel
    → 0 < size
    → concat (chunk_from fuel s size) ≡ s
unfolding chunk_from chunk_size
concat-chunk_from zero [] size h p = refl
concat-chunk_from zero (c ∷ s) size h p = absurd (omega (arith, h))
concat-chunk_from (suc fuel) [] size h p = refl
concat-chunk_from (suc fuel) (c ∷ s) size h p =
    let n = chunk_size (suc (length s)) size in
    let positive : 0 < n = ground arith in
    let shorter : length (drop n (c ∷ s)) ≤ fuel =
      omega (arith, h, positive, length-drop n (c ∷ s)) in
    ap (λ t. take n (c ∷ s) ++ t) (concat-chunk_from fuel (drop n (c ∷ s)) n shorter positive)
    ∙ take-append-drop n (c ∷ s)

fit_larger :
    (a b : ℕ) (l : List Bytes) → a ≤ b → All (λ c. length c ≤ a) l → All (λ c. length c ≤ b) l
fit_larger a b [] h f = tt
fit_larger a b (c ∷ l) h f = (omega (arith, f.0), fit_larger a b l h f.1)

length-take_le : (n : ℕ) (s : Bytes) → length (take n s) ≤ n
length-take_le zero s = omega arith
length-take_le (suc n) [] = omega arith
length-take_le (suc n) (c ∷ s) = omega (arith, length-take_le n s)

pub chunk_from-fit :
    (fuel : ℕ) (s : Bytes) (size : ℕ) → All (λ c. length c ≤ size) (chunk_from fuel s size)
unfolding chunk_from chunk_size
chunk_from-fit zero s size = tt
chunk_from-fit (suc fuel) [] size = tt
chunk_from-fit (suc fuel) (c ∷ s) size =
    let n = chunk_size (suc (length s)) size in
    let small : n ≤ size = ground arith in
    (
      omega (arith, small, length-take_le n (c ∷ s)),
      fit_larger n size _ small (chunk_from-fit fuel (drop n (c ∷ s)) n),
    )

pub length-chunk_from :
    (fuel k : ℕ) (s : Bytes) (size : ℕ) → length s ≤ k * size → length (chunk_from fuel s size) ≤ k
unfolding chunk_from chunk_size
length-chunk_from zero k s size h = omega arith
length-chunk_from (suc fuel) k [] size h = omega arith
length-chunk_from (suc fuel) zero (c ∷ s) size h = absurd (omega (arith, h))
length-chunk_from (suc fuel) (suc k) (c ∷ s) size h =
    elim (Bool-cases (ltb (suc (length s)) size)) [
      | inl e ↦ rw e (
          let rest : length (drop (length s) s) ≤ k * suc (length s) =
            omega (arith, length-drop (length s) s) in
          omega (arith, length-chunk_from fuel k (drop (length s) s) (suc (length s)) rest))
      | inr e ↦ rw e (
          let rest : length (drop size (c ∷ s)) ≤ k * size =
            grind (arith, h, length-drop size (c ∷ s)) in
          omega (arith, length-chunk_from fuel k (drop size (c ∷ s)) size rest))
    ]
