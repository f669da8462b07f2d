-- ===== src/Identity/Data/Collections.antt =====
-- The collections of sessions and users.
use pomerium.Prelude.{
  Bytes, bytes_lt, bytes_order, pair_order, Bool, true, false, not, ◌≡◌, refl, List, [], ◌∷◌, arith,
  All, keep_if,
}
use pomerium.BTree.{BTree}
use pomerium.BTree.Keyed.{IsAscending}
use pomerium.Strings.{bytes_eq}
use pomerium.Strings.Splitting.{bytes_eq_refl, bytes_eq→eq}
use pomerium.Identity.Data.{Session, less_session, session_item, while_user, get_sessions_for_user}

abbrev pub session_key : Session → Bytes × Bytes
session_key s = (s.session.user_id, s.session.id)

abbrev pub IsInOrder : List Session → Type 0
IsInOrder = IsAscending (pair_order bytes_order bytes_order) session_key

abbrev pub of_user : Bytes → Session → Bool
of_user u s = bytes_eq s.session.user_id u

not-lt-nil : (s : Bytes) → bytes_lt s [] ≡ false
unfolding bytes_lt
not-lt-nil [] = refl
not-lt-nil (x ∷ s) = refl

-- Behind a session of a later user there is none of the user.
none_later :
    (u : Bytes) (s : Session) (l : List Session)
    → bytes_lt u s.session.user_id ≡ true
    → All (λ x. less_session s x ≡ true) l
    → keep_if (of_user u) l ≡ []
none_later u s [] b h = refl
none_later u s (x ∷ l) b h = ground (
  arith,
  none_later u s l b h.1,
  h.0,
  bytes_eq→eq x.session.user_id u,
  bytes_order.trans u s.session.user_id x.session.user_id,
  bytes_order.connected s.session.user_id x.session.user_id,
  bytes_order.irrefl u,
)

while-keep_if :
    (u : Bytes) (l : List Session)
    → IsInOrder l
    → while_user u (keep_if (λ s. not (less_session s (session_item u []))) l)
      ≡ keep_if (of_user u) l
unfolding while_user
while-keep_if u [] h = refl
while-keep_if u (s ∷ l) h = ground (
  arith,
  while-keep_if u l h.1,
  bytes_eq→eq s.session.user_id u,
  bytes_eq_refl u,
  bytes_order.connected s.session.user_id u,
  bytes_order.irrefl u,
  none_later u s l,
  h.0,
  not-lt-nil s.session.id,
)

-- GetSessionsForUser returns exactly the sessions of the user, in the order of their ids, though it
-- looks only at the items from the first that may be the user's to the first that is not.
pub get_sessions_for_user-keep_if :
    (S : BTree less_session) (c : S.Tree) (user_id : Bytes)
    → IsInOrder (S.items c)
    → get_sessions_for_user S c user_id ≡ keep_if (of_user user_id) (S.items c)
unfolding get_sessions_for_user
get_sessions_for_user-keep_if S c u h = rw S.ascend_ge-items (while-keep_if u (S.items c) h)
