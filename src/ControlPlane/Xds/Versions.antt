-- ===== src/ControlPlane/Xds/Versions.antt =====
-- The versions that a client has by name, through the loops that make and apply a response. Names
-- are distinct within a type.
use pomerium.Prelude.{
  Bytes, bytes_order, same, same→eq, ◌≡◌, ◌≢◌, refl, ◌∙◌, Bool, true, false, not, ◌&&◌, List, [],
  ◌∷◌, Option, none, some, arith, All, any_of, keep_if, inl, inr, Option-cases, Bool-cases,
  if◌then◌else◌,
}
use pomerium.GoMap
use pomerium.GoMap.{GoMap, lookup-insert, lookup-delete}
use pomerium.Strings.{bytes_eq}
use pomerium.Strings.Splitting.{bytes_eq→eq}
use pomerium.ControlPlane.Xds.{
  Resource, or_empty, is_changed, add_seen, is_absent, removed_names, add_versions,
}

-- No other resource has the name.
abbrev pub Lacks : Bytes → List Resource → Type 0
Lacks name = All (λ r. same bytes_order name r.name ≡ false)

-- Names are distinct, and no version is empty.
abbrev pub IsComplete : List Resource → Type 0
IsComplete [] = Unit
IsComplete (r ∷ l) = Lacks r.name l × (r.version ≢ []) × IsComplete l

unfoldable pub drop_all : List Bytes → GoMap Bytes Bytes → GoMap Bytes Bytes
drop_all [] versions = versions
drop_all (n ∷ names) versions = drop_all names (GoMap.delete bytes_order n versions)

-- The resource of a name.
unfoldable pub find : Bytes → List Resource → Option Bytes
find name [] = none
find name (r ∷ l) =
    let later = find name l in if same bytes_order name r.name then some r.version else later

abbrev pub or_else : Option Bytes → Option Bytes → Option Bytes
or_else none o = o
or_else (some v) o = some v

find_lacking : (n : Bytes) (l : List Resource) → Lacks n l → find n l ≡ none
unfolding find
find_lacking n [] h = refl
find_lacking n (r ∷ l) h = ground (arith, find_lacking n l h.1)

pub lookup-add_versions :
    (l : List Resource) (m : GoMap Bytes Bytes) (n : Bytes)
    → IsComplete l
    → GoMap.lookup bytes_order n (add_versions l m)
      ≡ or_else (find n l) (GoMap.lookup bytes_order n m)
unfolding add_versions find
lookup-add_versions [] m n h = refl
lookup-add_versions (r ∷ l) m n h =
    lookup-add_versions l (GoMap.insert bytes_order r.name r.version m) n h.2
    ∙ ground (
      arith,
      lookup-insert bytes_order r.name n r.version m,
      same→eq bytes_order n r.name,
      find_lacking r.name l h.0,
      Option-cases (find n l),
    )

pub lookup-drop_all :
    (names : List Bytes) (m : GoMap Bytes Bytes) (n : Bytes)
    → GoMap.lookup bytes_order n (drop_all names m)
      ≡ (if any_of (same bytes_order n) names then none else GoMap.lookup bytes_order n m)
unfolding drop_all
lookup-drop_all [] m n = refl
lookup-drop_all (k ∷ names) m n =
    lookup-drop_all names (GoMap.delete bytes_order k m) n
    ∙ ground (arith, lookup-delete bytes_order k n m)

abbrev pub is_none : Option Bytes → Bool
is_none none = true
is_none (some v) = false

pub absent-add_seen :
    (l : List Resource) (seen : GoMap Bytes (Unit {0})) (n : Bytes)
    → is_absent (GoMap.lookup bytes_order n (add_seen l seen))
      ≡ (is_none (find n l) && is_absent (GoMap.lookup bytes_order n seen))
unfolding add_seen find
absent-add_seen [] seen n = refl
absent-add_seen (r ∷ l) seen n =
    absent-add_seen l (GoMap.insert bytes_order r.name tt seen) n
    ∙ ground (arith, lookup-insert bytes_order r.name n tt seen, Option-cases (find n l))

pub is_removed :
    (seen : GoMap Bytes (Unit {0})) (m : GoMap Bytes Bytes) (n : Bytes)
    → any_of (same bytes_order n) (removed_names seen m) ≡ (
        not (is_none (GoMap.lookup bytes_order n m)) && is_absent (GoMap.lookup bytes_order n seen))
unfolding removed_names GoMap.lookup
is_removed seen [] n = refl
is_removed seen ((k, v) ∷ m) n = ground (
  arith,
  is_removed seen m n,
  same→eq bytes_order n k,
  Bool-cases (is_absent (GoMap.lookup bytes_order k seen)),
  Bool-cases (is_none (GoMap.lookup bytes_order n m)),
)

Lacks-keep_if :
    (p : Resource → Bool) (n : Bytes) (l : List Resource) → Lacks n l → Lacks n (keep_if p l)
Lacks-keep_if p n [] h = tt
Lacks-keep_if p n (r ∷ l) h = ground (arith, Lacks-keep_if p n l h.1)

pub keep_if-IsComplete :
    (p : Resource → Bool) (l : List Resource) → IsComplete l → IsComplete (keep_if p l)
keep_if-IsComplete p [] h = tt
keep_if-IsComplete p (r ∷ l) h = elim (Bool-cases (p r)) [
  | inl e ↦ rw e (Lacks-keep_if p r.name l h.0, h.1, keep_if-IsComplete p l h.2)
  | inr e ↦ rw e (keep_if-IsComplete p l h.2)
]

-- The version that a response has for a name.
abbrev pub differing : Bytes → Option Bytes → Option Bytes
differing old none = none
differing old (some v) = if bytes_eq v old then none else some v

pub find-changed :
    (m : GoMap Bytes Bytes) (l : List Resource) (n : Bytes)
    → IsComplete l
    → find n (keep_if (is_changed m) l)
      ≡ differing (or_empty (GoMap.lookup bytes_order n m)) (find n l)
unfolding find
find-changed m [] n h = refl
find-changed m (r ∷ l) n h = ground (
  arith,
  find-changed m l n h.2,
  same→eq bytes_order n r.name,
  find_lacking r.name l h.0,
  find_lacking r.name (keep_if (is_changed m) l) (Lacks-keep_if (is_changed m) r.name l h.0),
  Option-cases (find n l),
)

pub find-nonempty : (l : List Resource) (n v : Bytes) → IsComplete l → find n l ≡ some v → v ≢ []
unfolding find
find-nonempty [] n v h e = absurd (ground (arith, e))
find-nonempty (r ∷ l) n v h e = elim (Bool-cases (same bytes_order n r.name)) [
  | inl q ↦ λ z. h.1 (ground (arith, q, e, z))
  | inr q ↦ find-nonempty l n v h.2 (ground (arith, q, e))
]

-- What the client's versions become with a response: those of the manager's resources.
pub reached :
    (l : List Resource) (m : GoMap Bytes Bytes) (n : Bytes)
    → IsComplete l
    → GoMap.lookup bytes_order n
        (drop_all (removed_names (add_seen l []) m) (add_versions (keep_if (is_changed m) l) m))
      ≡ find n l
unfolding GoMap.lookup
reached l m n h =
    lookup-drop_all (removed_names (add_seen l []) m) (add_versions (keep_if (is_changed m) l) m) n
    ∙ rw
        (
          is_removed (add_seen l []) m n,
          absent-add_seen l [] n,
          lookup-add_versions (keep_if (is_changed m) l) m n
              (keep_if-IsComplete (is_changed m) l h),
          find-changed m l n h,
        )
        (elim (Option-cases (find n l)) [
          | inl e ↦ ground (arith, e, Option-cases (GoMap.lookup bytes_order n m))
          | inr (v, e) ↦ ground (
            arith,
            e,
            bytes_eq→eq v (or_empty (GoMap.lookup bytes_order n m)),
            find-nonempty l n v h e,
            Option-cases (GoMap.lookup bytes_order n m),
          )
        ])
