-- ===== src/Databroker/UserId.antt =====
-- User ids are taken apart as they were put together.
use pomerium.Prelude.{Bytes, ◌≡◌, [], ◌∷◌}
use pomerium.Strings.Splitting.{
  Lacks, index_byte-append, index_byte_lacking, take-length-append, drop-length-append,
}
use pomerium.Databroker.{slash, get_user_id, from_user_id}

-- The provider and its user id come back from a user id, if the provider's name has no slash,
-- whatever the provider's user id holds; a user id without a slash belongs to no provider.
pub from_user_id-get_user_id :
    (provider provider_user_id : Bytes)
    → Lacks slash provider
    → (from_user_id (get_user_id provider provider_user_id) ≡ (provider, provider_user_id))
      × (from_user_id provider ≡ ([], provider))
unfolding from_user_id get_user_id
from_user_id-get_user_id p q h = (
  rw (
    index_byte-append p q slash h,
    from_user_id,
    take-length-append p (slash ∷ q),
    drop-length-append p q slash,
  ),
  rw (index_byte_lacking p slash h, from_user_id),
)
