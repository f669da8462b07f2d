-- ===== src/Identity/Manager/Directory/Keyed.antt =====
-- Maps of entries under their ids, and what a merge makes of one.
use pomerium.Prelude.{
  Bytes, bytes_order, true, ◌≡◌, refl, ◌∙◌, List, [], ◌∷◌, Option, none, some, arith, All, same,
  Option-cases, if◌then◌else◌,
}
use pomerium.GoMap
use pomerium.GoMap.{
  GoMap, lookup-insert, insert-All, insert-HasDistinctKeys, lookup_lacking, HasDistinctKeys,
}
use pomerium.Strings.Splitting.{bytes_eq→eq}
use pomerium.Identity.Manager.Directory.{
  Entry, entry_eq, Entries, add_entries, is_same, is_there, on_update_entry,
}

-- Every entry stands under its id, once.
abbrev pub IsKeyed : Entries → Type 0
IsKeyed m = All (λ e. e.1.id ≡ e.0) m × HasDistinctKeys bytes_order m

pub on_update_entry-IsKeyed : (m : Entries) (e : Entry) → IsKeyed m → IsKeyed (on_update_entry m e)
unfolding on_update_entry
on_update_entry-IsKeyed m e h = (
  insert-All bytes_order (λ x. x.1.id ≡ x.0) e.id e m refl h.0,
  insert-HasDistinctKeys bytes_order e.id e m h.1,
)

pub add_entries-IsKeyed : (l : List Entry) (m : Entries) → IsKeyed m → IsKeyed (add_entries l m)
unfolding add_entries
add_entries-IsKeyed [] m h = h
add_entries-IsKeyed (e ∷ l) m h =
    add_entries-IsKeyed l (GoMap.insert bytes_order e.id e m)
      (unfold on_update_entry in on_update_entry-IsKeyed m e h)

-- The last of the entries with an id.
abbrev pub last_of : Bytes → List Entry → Option Entry
last_of id [] = none
last_of id (e ∷ l) = elim (last_of id l) [
  | none ↦ if same bytes_order id e.id then some e else none
  | some later ↦ some later
]

pub lookup-add_entries :
    (id : Bytes) (l : List Entry) (m : Entries)
    → GoMap.lookup bytes_order id (add_entries l m)
      ≡ elim (last_of id l) [ none ↦ GoMap.lookup bytes_order id m | some e ↦ some e ]
unfolding add_entries
lookup-add_entries id [] m = refl
lookup-add_entries id (e ∷ l) m =
    lookup-add_entries id l (GoMap.insert bytes_order e.id e m)
    ∙ ground (arith, lookup-insert bytes_order e.id id e m, Option-cases (last_of id l))

entry_eq→eq : (a b : Entry) → entry_eq a b ≡ true → a ≡ b
entry_eq→eq a b h = ground (arith, bytes_eq→eq a.id b.id, bytes_eq→eq a.rest b.rest)

-- What is current, and what is new in its place.
pub merged :
    (old new looked t0 t1 : Option Entry)
    → looked ≡ new
    → t0 ≡ old
    → t1 ≡ elim looked [ none ↦ t0 | some e ↦ if is_same old e then t0 else some e ]
    → (if is_there looked then t1 else elim old [ none ↦ t1 | some e ↦ none ]) ≡ new
merged none none looked t0 t1 l a h = ground (arith, Option-cases looked)
merged none (some e) looked t0 t1 l a h = ground (arith, Option-cases looked)
merged (some o) none looked t0 t1 l a h = ground (arith, Option-cases looked)
merged (some o) (some e) looked t0 t1 l a h = ground (arith, Option-cases looked, entry_eq→eq e o)
