-- ===== src/Signal/Wakeups.antt =====
-- A bound channel holds one wake-up exactly if there was a broadcast since its last receive.
use pomerium.Prelude.{
  ℕ, suc, ◌≤◌, ◌<◌, ◌≡◌, ◌≢◌, refl, ap, ◌∙◌, Bool, true, false, List, [], ◌∷◌, Option, none, some,
  arith, ◌==◌, keep_if, any_of, not, All, if◌then◌else◌,
}
use pomerium.Signal.{Signal, offer, broadcast, bind, unbind, receive, is_bound}

pub offer-eq :
    (chs : List ℕ) (full : ℕ → Bool) (ch : ℕ)
    → offer chs full ch ≡ (if any_of (λ c. c == ch) chs then true else full ch)
unfolding offer
offer-eq [] full ch = refl
offer-eq (c ∷ chs) full ch = ground (arith, offer-eq chs (λ x. if x == c then true else full x) ch)

any_of-keep_if :
    (chs : List ℕ) (ch gone : ℕ)
    → any_of (λ c. c == ch) (keep_if (λ c. not (c == gone)) chs)
      ≡ (if ch == gone then false else any_of (λ c. c == ch) chs)
any_of-keep_if [] ch gone = ground arith
any_of-keep_if (c ∷ chs) ch gone = ground (arith, any_of-keep_if chs ch gone)

-- The channels in use were made before.
pub record IsMade (s : Signal) : Type 0 where
  pub bound : All (λ ch. ch < s.fresh) s.chs
  pub buffered : (ch : ℕ) → s.fresh ≤ ch → s.full ch ≡ false

pub data Op : Type 0 where
  broadcasts binds : Op
  unbinds receives : ℕ → Op

-- A receive that would block waits: it changes nothing.
abbrev or_wait : Signal → Option Signal → Signal
or_wait s none = s
or_wait s (some s') = s'

unfoldable pub step : Signal → Op → Signal
unfolding broadcast bind unbind receive
step s broadcasts = broadcast s
step s binds = (bind s).1
step s (unbinds ch) = unbind s ch
step s (receives ch) = or_wait s (receive s ch)

unfoldable pub run : Signal → List Op → Signal
run s [] = s
run s (op ∷ ops) = run (step s op) ops

-- Whether a broadcast came after the last receive from the channel.
unfoldable pub pending : ℕ → Bool → List Op → Bool
pending ch p [] = p
pending ch p (broadcasts ∷ ops) = pending ch true ops
pending ch p (binds ∷ ops) = pending ch p ops
pending ch p (unbinds c ∷ ops) = pending ch p ops
pending ch p (receives c ∷ ops) = pending ch (if c == ch then false else p) ops

abbrev pub KeepsBound : ℕ → Op → Type 0
KeepsBound ch (unbinds c) = c ≢ ch
KeepsBound ch _ = Unit {0}

is_bound-step :
    (s : Signal) (ch : ℕ) (op : Op)
    → KeepsBound ch op
    → is_bound s ch ≡ true
    → is_bound (step s op) ch ≡ true
unfolding step
is_bound-step s ch broadcasts k h = h
is_bound-step s ch binds k h = ground arith
is_bound-step s ch (unbinds c) k h = ground (arith, any_of-keep_if s.chs ch c)
is_bound-step s ch (receives c) k h = ground arith

full-step :
    (s : Signal) (ch : ℕ) (op : Op)
    → is_bound s ch ≡ true
    → (step s op).full ch ≡ pending ch (s.full ch) (op ∷ [])
unfolding step pending
full-step s ch broadcasts h = ground (arith, offer-eq s.chs s.full ch)
full-step s ch binds h = refl
full-step s ch (unbinds c) h = refl
full-step s ch (receives c) h = ground arith

pending-cons :
    (ch : ℕ) (p : Bool) (op : Op) (ops : List Op)
    → pending ch p (op ∷ ops) ≡ pending ch (pending ch p (op ∷ [])) ops
unfolding pending
pending-cons ch p broadcasts ops = refl
pending-cons ch p binds ops = refl
pending-cons ch p (unbinds c) ops = refl
pending-cons ch p (receives c) ops = refl

-- Whatever the other users of a signal do, a channel that stays bound is full after any operations
-- exactly if a broadcast came after the last receive from it, or it was full before and nothing
-- was received: no wake-up is lost and none is made up.
pub full-run :
    (s : Signal) (ch : ℕ) (ops : List Op)
    → is_bound s ch ≡ true
    → All (KeepsBound ch) ops
    → (run s ops).full ch ≡ pending ch (s.full ch) ops
unfolding run
full-run s ch [] h k = unfold pending in refl
full-run s ch (op ∷ ops) h k =
    rw (pending-cons ch (s.full ch) op ops)
      (rw (← full-step s ch op h) (full-run (step s op) ch ops (is_bound-step s ch op k.0 h) k.1))

bound-not :
    (chs : List ℕ) (ch n : ℕ) → All (λ c. c < n) chs → n ≤ ch → any_of (λ c. c == ch) chs ≡ false
bound-not [] ch n a h = refl
bound-not (c ∷ chs) ch n a h = ground (arith, bound-not chs ch n a.1)

All-lt-suc : (chs : List ℕ) (n : ℕ) → All (λ c. c < n) chs → All (λ c. c < suc n) chs
All-lt-suc [] n a = tt
All-lt-suc (c ∷ chs) n a = (omega arith, All-lt-suc chs n a.1)

All-keep_if : (P : ℕ → Type 0) (p : ℕ → Bool) (chs : List ℕ) → All P chs → All P (keep_if p chs)
All-keep_if P p [] a = tt
All-keep_if P p (c ∷ chs) a = ground (arith, All-keep_if P p chs a.1)

or_wait-IsMade :
    (s t : Signal) (b : Bool)
    → IsMade s
    → IsMade t
    → IsMade (or_wait s (if b then some t else none))
or_wait-IsMade s t true v w = w
or_wait-IsMade s t false v w = v

-- Every operation keeps the channels in use among those that were made.
pub step-IsMade : (s : Signal) (op : Op) → IsMade s → IsMade (step s op)
unfolding step
step-IsMade s broadcasts v = record {
  bound = v.bound;
  buffered = λ ch h.
      ground
        (arith, offer-eq s.chs s.full ch, bound-not s.chs ch s.fresh v.bound h, v.buffered ch h);
}
step-IsMade s binds v = record {
  bound = (omega arith, All-lt-suc s.chs s.fresh v.bound);
  buffered = λ ch h. v.buffered ch (omega arith);
}
step-IsMade s (unbinds c) v = record {
  bound = All-keep_if (λ x. x < s.fresh) (λ x. not (x == c)) s.chs v.bound;
  buffered = v.buffered;
}
step-IsMade s (receives c) v =
    or_wait-IsMade s (record s { full = λ x. if x == c then false else s.full x }) (s.full c) v
      (record { bound = v.bound; buffered = λ ch h. ground (arith, v.buffered ch h) })

-- A channel that `Bind` returns is new and empty: after any operations that leave it bound, it is
-- full exactly if a broadcast came since it was last received from.
pub full-run-bind :
    (s : Signal) (ops : List Op)
    → IsMade s
    → All (KeepsBound (bind s).0) ops
    → (run (bind s).1 ops).full (bind s).0 ≡ pending (bind s).0 false ops
unfolding bind
full-run-bind s ops v k =
    full-run (bind s).1 s.fresh ops (ground arith) k
    ∙ ap (λ p. pending s.fresh p ops) (v.buffered s.fresh (omega arith))
