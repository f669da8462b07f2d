-- ===== src/Sessions/Header.antt =====
-- internal/sessions/header/header_store.go and the loader of internal/sessions/queryparam.
use pomerium.Prelude.{Bytes, [], ◌∷◌, ◌++◌, Option, none, some, ◌==◌, if◌then◌else◌}
use pomerium.Strings.{codes}

-- strings.HasPrefix(s, prefix), with what follows the prefix
unfoldable pub after_prefix : Bytes → Bytes → Option Bytes
after_prefix [] s = some s
after_prefix (c ∷ prefix) [] = none
after_prefix (c ∷ prefix) (d ∷ s) =
    let rest = after_prefix prefix s in if c == d then rest else none

-- TokenFromHeader, given the header's value
unfoldable pub token_from_header : Bytes → Bytes → Bytes
unfolding after_prefix
token_from_header bearer auth_type = elim (after_prefix (auth_type ++ codes " ") bearer) [
  | some jwt ↦ jwt
  | none ↦ elim (after_prefix (codes "Bearer " ++ auth_type ++ codes "-") bearer) [
    | some jwt ↦ jwt
    | none ↦ []
  ]
]
