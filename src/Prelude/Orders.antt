-- ===== src/Prelude/Orders.antt =====
-- Strict total orders as Boolean tests, the interface that sorted containers stand on, with the
-- orders of times, of byte strings (Go's `<` on `string`) and of pairs.
use Prim.Native.Nat.{ℕ}
use mathlib.Core.Path.{◌≡◌, refl}
use mathlib.Core.Bool.{Bool, true, false}
use mathlib.Core.List.{List, [], ◌∷◌}
use native.Mathlib.Omega.{arith}
use pomerium.Prelude.Tests.{ltb, if◌then◌else◌}
use pomerium.Prelude.Int.{ℤ, ltb_ℤ, eq_of_parts}

pub record Order (A : Type 0) : Type 0 where
  pub lt : A → A → Bool
  pub irrefl : (a : A) → lt a a ≡ false
  pub trans : (a b c : A) → lt a b ≡ true → lt b c ≡ true → lt a c ≡ true
  pub connected : (a b : A) → lt a b ≡ false → lt b a ≡ false → a ≡ b

module _ {A : Type 0} (o : Order A) where
  -- Equality as neither is below the other.
  abbrev pub same : A → A → Bool
  same a b = if o.lt a b then false else if o.lt b a then false else true

  pub same_refl : (a : A) → same a a ≡ true
  same_refl a = ground (arith, o.irrefl a)

  pub same→eq : (a b : A) → same a b ≡ true → a ≡ b
  same→eq a b h = ground (arith, o.connected a b)

  pub asym : (a b : A) → o.lt a b ≡ true → o.lt b a ≡ false
  asym a b h = ground (arith, o.trans a b a, o.irrefl a)

abbrev pub Bytes : Type 0
Bytes = List ℕ

unfoldable pub bytes_lt : Bytes → Bytes → Bool
bytes_lt [] [] = false
bytes_lt [] (y ∷ ys) = true
bytes_lt (x ∷ xs) [] = false
bytes_lt (x ∷ xs) (y ∷ ys) =
    let rest = bytes_lt xs ys in if ltb x y then true else if ltb y x then false else rest

pub bytes_lt_irrefl : (a : Bytes) → bytes_lt a a ≡ false
unfolding bytes_lt
bytes_lt_irrefl [] = refl
bytes_lt_irrefl (x ∷ xs) = ground (arith, bytes_lt_irrefl xs)

pub bytes_lt_trans :
    (a b c : Bytes) → bytes_lt a b ≡ true → bytes_lt b c ≡ true → bytes_lt a c ≡ true
unfolding bytes_lt
bytes_lt_trans [] [] c p q = cc
bytes_lt_trans [] (y ∷ ys) [] p q = cc
bytes_lt_trans [] (y ∷ ys) (z ∷ zs) p q = refl
bytes_lt_trans (x ∷ xs) [] c p q = cc
bytes_lt_trans (x ∷ xs) (y ∷ ys) [] p q = cc
bytes_lt_trans (x ∷ xs) (y ∷ ys) (z ∷ zs) p q = ground (arith, bytes_lt_trans xs ys zs)

pub bytes_lt_connected : (a b : Bytes) → bytes_lt a b ≡ false → bytes_lt b a ≡ false → a ≡ b
unfolding bytes_lt
bytes_lt_connected [] [] p q = refl
bytes_lt_connected [] (y ∷ ys) p q = cc
bytes_lt_connected (x ∷ xs) [] p q = cc
bytes_lt_connected (x ∷ xs) (y ∷ ys) p q = ground (arith, bytes_lt_connected xs ys)

abbrev pub bytes_order : Order Bytes
bytes_order = record {
  lt = bytes_lt;
  irrefl = bytes_lt_irrefl;
  trans = bytes_lt_trans;
  connected = bytes_lt_connected;
}

pub ltb_ℤ_irrefl : (a : ℤ) → ltb_ℤ a a ≡ false
ltb_ℤ_irrefl a = ground arith

pub ltb_ℤ_trans : (a b c : ℤ) → ltb_ℤ a b ≡ true → ltb_ℤ b c ≡ true → ltb_ℤ a c ≡ true
ltb_ℤ_trans a b c p q = ground arith

pub ltb_ℤ_connected : (a b : ℤ) → ltb_ℤ a b ≡ false → ltb_ℤ b a ≡ false → a ≡ b
ltb_ℤ_connected a b p q = ground (arith, eq_of_parts a b)

abbrev pub time_order : Order ℤ
time_order = record {
  lt = ltb_ℤ;
  irrefl = ltb_ℤ_irrefl;
  trans = ltb_ℤ_trans;
  connected = ltb_ℤ_connected;
}

pub ltb_irrefl : (a : ℕ) → ltb a a ≡ false
ltb_irrefl a = ground arith

pub ltb_trans : (a b c : ℕ) → ltb a b ≡ true → ltb b c ≡ true → ltb a c ≡ true
ltb_trans a b c p q = ground arith

pub ltb_connected : (a b : ℕ) → ltb a b ≡ false → ltb b a ≡ false → a ≡ b
ltb_connected a b p q = ground arith

abbrev pub nat_order : Order ℕ
nat_order = record { lt = ltb; irrefl = ltb_irrefl; trans = ltb_trans; connected = ltb_connected }

-- The first components decide, then the second ones.
module _ {A B : Type 0} (o : Order A) (p : Order B) where
  abbrev pub pair_lt : A × B → A × B → Bool
  pair_lt (a, b) (c, d) = if o.lt a c then true else if o.lt c a then false else p.lt b d

  pub pair_lt_irrefl : (x : A × B) → pair_lt x x ≡ false
  pair_lt_irrefl (a, b) = ground (arith, o.irrefl a, p.irrefl b)

  pub pair_lt_trans : (x y z : A × B) → pair_lt x y ≡ true → pair_lt y z ≡ true → pair_lt x z ≡ true
  pair_lt_trans (a, b) (c, d) (e, f) h k = ground (
    arith,
    o.trans a c e,
    o.trans e c a,
    o.trans c e a,
    o.trans e a c,
    o.connected a c,
    o.connected c e,
    p.trans b d f,
  )

  pub pair_lt_connected : (x y : A × B) → pair_lt x y ≡ false → pair_lt y x ≡ false → x ≡ y
  pair_lt_connected (a, b) (c, d) h k = ground (arith, o.connected a c, p.connected b d)

  abbrev pub pair_order : Order (A × B)
  pair_order = record {
    lt = pair_lt;
    irrefl = pair_lt_irrefl;
    trans = pair_lt_trans;
    connected = pair_lt_connected;
  }
