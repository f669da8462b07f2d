-- ===== src/Strings.antt =====
-- The functions of Go's package strings that the program uses, on strings as lists of bytes.
pub mod Splitting
pub mod Decimal
pub mod Sorting
use pomerium.Prelude.{
  ℕ, zero, suc, ◌+◌, Bytes, Bool, true, false, List, [], ◌∷◌, Option, none, some, ◌==◌, take, drop,
  if◌then◌else◌,
}
use Prim.Native.Char.{code}
use Prim.Native.String.{String}

-- The bytes of an ASCII literal.
abbrev pub codes : String → Bytes
codes String.[] = []
codes (String.◌∷◌ c s) = code c ∷ codes s

-- strings.IndexByte(s, c), and strings.Index with a separator of one byte
unfoldable pub index_byte : Bytes → ℕ → Option ℕ
index_byte [] c = none
index_byte (x ∷ s) c =
    let later = elim (index_byte s c) as (λ o. Option ℕ) [ none ↦ none | some i ↦ some (suc i) ] in
    if x == c then some 0 else later

-- s == t
unfoldable pub bytes_eq : Bytes → Bytes → Bool
bytes_eq [] [] = true
bytes_eq [] (y ∷ t) = false
bytes_eq (x ∷ s) [] = false
bytes_eq (x ∷ s) (y ∷ t) = let rest = bytes_eq s t in if x == y then rest else false

-- strings.HasPrefix(s, prefix)
unfoldable pub has_prefix : Bytes → Bytes → Bool
has_prefix s [] = true
has_prefix [] (c ∷ prefix) = false
has_prefix (x ∷ s) (c ∷ prefix) = let rest = has_prefix s prefix in if x == c then rest else false

-- s == ""
abbrev pub is_empty : Bytes → Bool
is_empty [] = true
is_empty (c ∷ s) = false
