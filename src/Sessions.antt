-- ===== src/Sessions.antt =====
-- internal/sessions: where the sessions of requests are kept. middleware.go asks one loader after
-- the other; the errors are those of errors.go.
pub mod Cookie
pub mod Header
use pomerium.Prelude.{Bytes, Bool, List, [], ◌∷◌}
use pomerium.Storage.{Result, ok, err}

pub data SessionError : Type 0 where
  no_session_found malformed : SessionError

-- retrieveFromRequest, on what each loader's LoadSession gives for the request
unfoldable pub retrieve_from_request : List (Result SessionError Bytes) → Result SessionError Bytes
retrieve_from_request [] = err no_session_found
retrieve_from_request (found ∷ loaders) = elim found [
  | ok jwt ↦ ok jwt
  | err e ↦ elim e [ no_session_found ↦ retrieve_from_request loaders | malformed ↦ err malformed ]
]
