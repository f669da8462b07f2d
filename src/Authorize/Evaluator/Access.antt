-- ===== src/Authorize/Evaluator/Access.antt =====
-- When a request is granted access.
use pomerium.Prelude.{
  pos, Bytes, ◌≡◌, refl, sym, ◌∙◌, Bool, true, false, ◌&&◌, not, List, [], ◌∷◌, Option, none, some,
  arith, inl, inr, Option-cases, Bool-cases, if◌then◌else◌,
}
use pomerium.Strings.{bytes_eq}
use pomerium.Authorize.Evaluator.{
  Fields, Text, CustomResponse, Reply, Request, get_deny_var, get_allow_var, get_headers_var,
  apply_custom, merge_headers, with_reason, decide, evaluate, status_ok, status_unauthorized,
  status_forbidden,
}

-- A custom policy that allows the request and does not deny it.
abbrev pub grants : Option CustomResponse → Bool
grants none = false
grants (some c) = c.allowed && not c.denied

abbrev pub all_grant : (Bytes → Option CustomResponse) → List Bytes → Bool
all_grant custom [] = true
all_grant custom (src ∷ l) = grants (custom src) && all_grant custom l

and_assoc : (a b c : Bool) → ((a && b) && c) ≡ (a && (b && c))
and_assoc true b c = refl
and_assoc false b c = refl

-- A reply after a custom policy.
abbrev after_policy : CustomResponse → Reply → Reply
after_policy c reply = record (with_reason c reply) {
  headers = merge_headers c.headers (with_reason c reply).headers;
}

apply_custom-some :
    (custom : Bytes → Option CustomResponse) (src : Bytes) (l : List Bytes) (allow : Bool)
    (reply : Reply) (c : CustomResponse)
    → custom src ≡ some c
    → apply_custom custom (src ∷ l) allow reply
      ≡ apply_custom custom l (allow && (c.allowed && not c.denied)) (after_policy c reply)
unfolding apply_custom
apply_custom-some custom src l allow reply c s = rw (s, apply_custom) refl

apply_custom-allow :
    (custom : Bytes → Option CustomResponse) (l : List Bytes) (allow : Bool) (reply : Reply)
    (decided : Bool × Reply)
    → apply_custom custom l allow reply ≡ some decided
    → decided.0 ≡ (allow && all_grant custom l)
unfolding apply_custom
apply_custom-allow custom [] allow reply decided e = ground (arith, e, Bool-cases allow)
apply_custom-allow custom (src ∷ l) allow reply decided e = elim (Option-cases (custom src)) [
  | inl n ↦ absurd (ground (arith, n, e))
  | inr (c, s) ↦
      apply_custom-allow custom l (allow && (c.allowed && not c.denied)) _ decided
        (sym (apply_custom-some custom src l allow reply c s) ∙ e)
      ∙ rw s (and_assoc allow (c.allowed && not c.denied) (all_grant custom l))
]

status-decide :
    (session_id : Bytes) (decided : Bool × Reply)
    → (decide session_id decided).status ≡ (
        if decided.0
        then status_ok
        else if bytes_eq session_id []
        then status_unauthorized
        else status_forbidden)
unfolding decide
status-decide session_id (true, reply) = refl
status-decide session_id (false, reply) = ground arith

-- Where the policies deny nothing, the result's status is OK exactly if they allow the request and
-- every custom policy allows it and does not deny it; otherwise it asks for a login if the request
-- has no session, and forbids the request if it has one.
pub status-evaluate :
    (t : Text) (is_valid : Bool) (query : Bool → Option Fields)
    (custom : Bytes → Option CustomResponse) (req : Request) (vars : Fields) (reply : Reply)
    → query is_valid ≡ some vars
    → get_deny_var t vars ≡ []
    → evaluate t (some is_valid) query custom req ≡ some reply
    → reply.status ≡ (
        if get_allow_var vars && all_grant custom req.custom_policies
        then status_ok
        else if bytes_eq req.session_id []
        then status_unauthorized
        else status_forbidden)
unfolding evaluate apply_custom
status-evaluate t is_valid query custom req vars reply q d e =
    elim (Bool-cases (get_allow_var vars)) [
      | inl a ↦ elim (Option-cases (apply_custom custom req.custom_policies true start)) [
        | inl n ↦ absurd (ground (arith, q, d, a, n, e))
        | inr (decided, k) ↦ ground (
          arith,
          q,
          d,
          a,
          k,
          e,
          status-decide req.session_id decided,
          apply_custom-allow custom req.custom_policies true start decided k,
        )
      ]
      | inr a ↦ ground (arith, q, d, a, e, status-decide req.session_id (false, start))
    ]
  where
    start : Reply
    start = record { status = pos 0; message = []; headers = get_headers_var t vars }
