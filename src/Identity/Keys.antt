-- ===== src/Identity/Keys.antt =====
-- misc.go of internal/identity/manager: the keys of the session scheduler.
use pomerium.Prelude.{ℕ, suc, Bytes, ◌≡◌, [], ◌∷◌, ◌++◌, none, some, take, drop}
use pomerium.Strings.{index_byte}
use pomerium.Strings.Splitting.{
  Lacks, index_byte-append, index_byte_lacking, take-length-append, drop-length-append,
}

-- "\037", an octal escape: the unit separator
abbrev pub separator : ℕ
separator = 0o37

unfoldable pub to_session_scheduler_key : Bytes → Bytes → Bytes
to_session_scheduler_key user_id session_id = user_id ++ separator ∷ session_id

unfoldable pub from_session_scheduler_key : Bytes → Bytes × Bytes
from_session_scheduler_key key = elim (index_byte key separator) [
  | some idx ↦ (take idx key, drop (suc idx) key)
  | none ↦ (key, [])
]

-- A scheduler key gives back the user id and the session id that it was made of, if the user id
-- does not hold the separator; a key without the separator is all user id.
pub from_session_scheduler_key-to_session_scheduler_key :
    (user_id session_id : Bytes)
    → Lacks separator user_id
    → (from_session_scheduler_key (to_session_scheduler_key user_id session_id)
        ≡ (user_id, session_id))
      × (from_session_scheduler_key user_id ≡ (user_id, []))
unfolding from_session_scheduler_key to_session_scheduler_key
from_session_scheduler_key-to_session_scheduler_key u s h = (
  rw (
    index_byte-append u s separator h,
    from_session_scheduler_key,
    take-length-append u (separator ∷ s),
    drop-length-append u s separator,
  ),
  rw (index_byte_lacking u separator h, from_session_scheduler_key),
)
