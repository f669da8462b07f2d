-- ===== src/Sessions/Cookie.antt =====
-- internal/sessions/cookie/cookie_store.go: sessions in cookies, in chunks where they are long. A
-- cookie's value is taken to be of bytes that net/http passes on as they are. The length of a cookie
-- in the text form of net/http and the encoder are arguments.
pub mod Chunks
pub mod Jar
use pomerium.Prelude.{
  ℕ, zero, suc, ◌+◌, Bytes, Bool, true, false, ◌&&◌, List, [], ◌∷◌, ◌++◌, Option, none, some, leb,
  ltb, ◌==◌, length, take, drop, if◌then◌else◌,
}
use pomerium.Strings.{codes, bytes_eq}
use pomerium.Strings.Decimal.{itoa}
use pomerium.Storage.{Result, ok, err}
use pomerium.Sessions.{SessionError, no_session_found, malformed}

-- '%'
abbrev pub chunked_canary_byte : ℕ
chunked_canary_byte = b'%'

abbrev pub max_chunk_size : ℕ
max_chunk_size = 3800

abbrev pub max_num_chunks : ℕ
max_num_chunks = 5

-- Name and Value of an http.Cookie; the other fields are those of the options for every cookie.
pub record Cookie : Type 0 where
  pub name : Bytes
  pub value : Bytes

-- The loop of chunk, with fuel for its rounds.
unfoldable pub chunk_from : ℕ → Bytes → ℕ → List Bytes
chunk_from zero s size = []
chunk_from (suc fuel) [] size = []
chunk_from (suc fuel) (c ∷ s) size =
    let size' = if ltb (length (c ∷ s)) size then length (c ∷ s) else size in
    take size' (c ∷ s) ∷ chunk_from fuel (drop size' (c ∷ s)) size'

unfoldable pub chunk : Bytes → ℕ → List Bytes
unfolding chunk_from
chunk s size = chunk_from (length s) s size

-- fmt.Sprintf("%s_%d", name, i)
unfoldable pub chunk_name : Bytes → ℕ → Bytes
chunk_name name i = name ++ (codes "_" ++ itoa i)

-- The loop of setCookie from the chunk with number `i` on: the cookies that it sets.
unfoldable pub chunk_cookies : Bytes → ℕ → List Bytes → List Cookie
unfolding chunk_name
chunk_cookies name i [] = []
chunk_cookies name i (c ∷ chunks) =
    (if i == 0
      then record { name = name; value = chunked_canary_byte ∷ c }
      else record { name = chunk_name name i; value = c })
    ∷ chunk_cookies name (suc i) chunks

-- setCookie: what it sets, given len(cookie.String())
unfoldable pub set_cookie : (Cookie → ℕ) → Cookie → List Cookie
unfolding chunk_cookies chunk
set_cookie cookie_length cookie =
    if leb (cookie_length cookie) max_chunk_size
    then cookie ∷ []
    else chunk_cookies cookie.name 0 (chunk cookie.value max_chunk_size)

-- What SaveSession is given: bytes or a string, which it takes as they are, or a value to encode.
pub data Saved (X : Type 0) : Type 0 where
  raw : Bytes → Saved X
  to_encode : X → Saved X

-- SaveSession: the cookies that it sets, or none if it returns an error
unfoldable pub save_session :
    {X : Type 0} → Option (X → Option Bytes) → (Cookie → ℕ) → Bytes → Saved X → Option (List Cookie)
unfolding set_cookie
save_session encoder cookie_length name (raw value) =
    some (set_cookie cookie_length (record { name = name; value = value }))
save_session encoder cookie_length name (to_encode x) = elim encoder [
  | none ↦ none
  | some marshal ↦ elim (marshal x) [
    | none ↦ none
    | some value ↦ some (set_cookie cookie_length (record { name = name; value = value }))
  ]
]

-- r.Cookie(name): the value of the first cookie of the request with the name
unfoldable pub cookie_value : List Cookie → Bytes → Option Bytes
cookie_value [] name = none
cookie_value (c ∷ r) name =
    let others = cookie_value r name in if bytes_eq c.name name then some c.value else others

-- The loop of loadChunkedCookie from the chunk with number `i` on, with the rounds left.
unfoldable pub load_chunks : List Cookie → Bytes → ℕ → ℕ → Bytes
unfolding cookie_value chunk_name
load_chunks r name i zero = []
load_chunks r name i (suc rounds) =
    let more = load_chunks r name (suc i) rounds in
    elim (cookie_value r (chunk_name name i)) [ none ↦ [] | some value ↦ value ++ more ]

unfoldable pub load_chunked_cookie : List Cookie → Bytes → Bytes → Bytes
unfolding load_chunks
load_chunked_cookie r name [] = []
load_chunked_cookie r name (c ∷ value) =
    if c == chunked_canary_byte then value ++ load_chunks r name 1 max_num_chunks else c ∷ value

-- strings.EqualFold, on names of ASCII bytes
abbrev fold_byte : ℕ → ℕ
fold_byte c = if leb b'A' c && leb c b'Z' then c + 32 else c

unfoldable pub equal_fold : Bytes → Bytes → Bool
equal_fold [] [] = true
equal_fold [] (d ∷ t) = false
equal_fold (c ∷ s) [] = false
equal_fold (c ∷ s) (d ∷ t) =
    let rest = equal_fold s t in if fold_byte c == fold_byte d then rest else false

unfoldable pub get_cookies : List Cookie → Bytes → List Cookie
unfolding equal_fold
get_cookies [] name = []
get_cookies (c ∷ r) name =
    let others = get_cookies r name in if equal_fold c.name name then c ∷ others else others

-- The loop of LoadSession over the cookies that match; `decodes` is whether Unmarshal succeeds.
unfoldable pub first_decoded :
    (Bytes → Bool) → List Cookie → List Cookie → Result SessionError Bytes
unfolding load_chunked_cookie
first_decoded decodes r [] = err malformed
first_decoded decodes r (c ∷ cookies) =
    let others = first_decoded decodes r cookies in
    let jwt = load_chunked_cookie r c.name c.value in if decodes jwt then ok jwt else others

unfoldable pub load_session : (Bytes → Bool) → List Cookie → Bytes → Result SessionError Bytes
unfolding get_cookies first_decoded
load_session decodes r name = elim (get_cookies r name) [
  | [] ↦ err no_session_found
  | c ∷ cookies ↦ first_decoded decodes r (c ∷ cookies)
]
