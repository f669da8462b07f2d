-- ===== src/Identity/Data.antt =====
-- data.go and misc.go of internal/identity/manager: the sessions and users that the manager keeps,
-- when they are due, their collections, and tokens. Of the protobuf messages (pkg/grpc/session,
-- pkg/grpc/user) the fields that the manager reads stand here; the claims are one opaque field.
pub mod Refresh
pub mod Collections
use pomerium.Prelude.{
  ℕ, ◌*◌, ℤ, pos, ◌+ℤ◌, ◌-ℤ◌, ltb_ℤ, Bytes, bytes_lt, Bool, true, false, ◌||◌, not, List, [], ◌∷◌,
  Option, none, some, if◌then◌else◌,
}
use pomerium.BTree.{BTree}
use pomerium.Storage.{Any, as_time}
use pomerium.Strings.{bytes_eq}

-- time.Time{}, and its IsZero
abbrev pub zero_time : ℤ
zero_time = pos 0

abbrev pub is_zero : ℤ → Bool
is_zero t = if ltb_ℤ t zero_time then false else if ltb_ℤ zero_time t then false else true

-- ptypes.Timestamp and ptypes.TimestampProto fail outside the years 1 to 9999.
abbrev pub valid_time : ℤ → Bool
valid_time t = if ltb_ℤ t zero_time then false else ltb_ℤ t (pos (315537897600 * 1_000_000_000))

pub record OauthToken : Type 0 where
  pub access_token : Bytes
  pub token_type : Bytes
  pub refresh_token : Bytes
  pub expires_at : Option ℤ

-- oauth2.Token
pub record Oauth2Token : Type 0 where
  pub access_token : Bytes
  pub token_type : Bytes
  pub refresh_token : Bytes
  pub expiry : ℤ

pub record PbSession : Type 0 where
  pub user_id : Bytes
  pub id : Bytes
  pub expires_at : Option ℤ
  pub oauth_token : Option OauthToken
  pub claims : Option Any

pub record PbUser : Type 0 where
  pub id : Bytes
  pub name : Bytes
  pub email : Bytes
  pub claims : Option Any

-- FromOAuthToken
unfoldable pub from_oauth_token : OauthToken → Oauth2Token
from_oauth_token token = record {
  access_token = token.access_token;
  token_type = token.token_type;
  refresh_token = token.refresh_token;
  expiry = as_time token.expires_at;
}

-- ToOAuthToken
unfoldable pub to_oauth_token : Oauth2Token → OauthToken
to_oauth_token token = record {
  access_token = token.access_token;
  token_type = token.token_type;
  refresh_token = token.refresh_token;
  expires_at = if valid_time token.expiry then some token.expiry else none;
}

pub record User : Type 0 where
  pub user : PbUser
  pub last_refresh : ℤ
  pub refresh_interval : ℤ

unfoldable pub next_refresh_user : User → ℤ
next_refresh_user u = u.last_refresh +ℤ u.refresh_interval

pub record Session : Type 0 where
  pub session : PbSession
  pub last_refresh : ℤ
  pub grace_period : ℤ
  pub cool_off_duration : ℤ

-- The time of a message's timestamp, if it has a valid one that is not the zero time.
abbrev pub expiry_of : Option ℤ → Option ℤ
expiry_of none = none
expiry_of (some t) = if valid_time t then (if is_zero t then none else some t) else none

abbrev pub token_expires_at : Option OauthToken → Option ℤ
token_expires_at none = none
token_expires_at (some token) = token.expires_at

-- if tm.IsZero() || expiry.Before(tm) { tm = expiry }
unfoldable pub earlier : ℤ → Option ℤ → ℤ
earlier tm none = tm
earlier tm (some expiry) = if is_zero tm || ltb_ℤ expiry tm then expiry else tm

abbrev pub minus : ℤ → Option ℤ → Option ℤ
minus d none = none
minus d (some t) = some (t -ℤ d)

-- The method NextRefresh of a session.
unfoldable pub next_refresh : Session → ℤ
unfolding earlier
next_refresh s =
    let oauth = minus s.grace_period (expiry_of (token_expires_at s.session.oauth_token)) in
    let tm = earlier (earlier zero_time oauth) (expiry_of s.session.expires_at) in
    let min = s.last_refresh +ℤ s.cool_off_duration in if ltb_ℤ tm min then min else tm

-- sessionCollectionItem.Less
abbrev pub less_session : Session → Session → Bool
less_session item than =
    if bytes_lt item.session.user_id than.session.user_id
    then true
    else if bytes_lt than.session.user_id item.session.user_id
    then false
    else bytes_lt item.session.id than.session.id

-- userCollectionItem.Less
abbrev pub less_user : User → User → Bool
less_user item than = bytes_lt item.user.id than.user.id

-- The items that the collections look for.
abbrev pub session_item : Bytes → Bytes → Session
session_item user_id id = record {
  session = record {
    user_id = user_id;
    id = id;
    expires_at = none;
    oauth_token = none;
    claims = none;
  };
  last_refresh = zero_time;
  grace_period = pos 0;
  cool_off_duration = pos 0;
}

abbrev pub user_item : Bytes → User
user_item id = record {
  user = record { id = id; name = []; email = []; claims = none };
  last_refresh = zero_time;
  refresh_interval = pos 0;
}

-- The iterator of GetSessionsForUser stops at the first session of another user.
unfoldable pub while_user : Bytes → List Session → List Session
while_user user_id [] = []
while_user user_id (s ∷ l) =
    let others = while_user user_id l in
    if bytes_eq s.session.user_id user_id then s ∷ others else []

module _ (S : BTree less_session) where
  unfoldable pub delete_session : S.Tree → Bytes → Bytes → S.Tree
  delete_session c user_id id = S.delete c (session_item user_id id)

  unfoldable pub get_session : S.Tree → Bytes → Bytes → Option Session
  get_session c user_id id = S.get c (session_item user_id id)

  unfoldable pub get_sessions_for_user : S.Tree → Bytes → List Session
  unfolding while_user
  get_sessions_for_user c user_id = while_user user_id (S.ascend_ge c (session_item user_id []))

module _ (U : BTree less_user) where
  unfoldable pub delete_user : U.Tree → Bytes → U.Tree
  delete_user c id = U.delete c (user_item id)

  unfoldable pub get_user : U.Tree → Bytes → Option User
  get_user c id = U.get c (user_item id)
