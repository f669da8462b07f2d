-- ===== src/Storage/Redis/Clients.antt =====
-- Any number of clients on one redis server: their transactions and the commands of their rounds of
-- expiry, in the order in which the server takes them.
use pomerium.Prelude.{
  ◌==◌, if◌then◌else◌, ℕ, ◌+◌, ◌^◌, ◌<◌, ◌≤◌, ℤ, Bytes, Bool, true, false, ◌≡◌, ap, sym, ◌∙◌, subst,
  List, [], ◌∷◌, ◌++◌, Option, none, some, arith, length, length-append, Bool-cases, Option-cases,
  inl, inr,
}
use pomerium.Storage.{Record}
use pomerium.Storage.Redis.{
  Redis, Codec, Command, run_all, read_or_zero, next_version, stored, put_commands, find_expired,
  remove_found,
}
use pomerium.Storage.Redis.Log.{
  or_empty, bytes_of, IsMarshalled, IsLog, run_put, run_put-IsLog, gone-run_put,
}
use pomerium.Storage.Redis.Oldest.{
  IsOldest, later_IsOldest, find_expired-IsOldest, remove_found-IsLog,
}

-- What the server takes in: a transaction of Put at its EXEC, with the time, the version that it read,
-- and whether it is executed; or, of the loop of a client that removes old changes, the command that
-- looks for the oldest change, and the one that removes what it found.
pub data Event : Type 0 where
  attempted : Record → ℤ → Option ℕ → Bool → Event
  looked : ℕ → ℤ → Event
  removed : ℕ → Event

-- What each client has found to be old, and has yet to remove.
abbrev pub Found : Type 0
Found = ℕ → Option Bytes

abbrev pub none_found : Found
none_found client = none

abbrev pub with_found : ℕ → Option Bytes → Found → Found
with_found client x found other = if other == client then x else found other

module _ (R : Redis) (C : Codec) where
  abbrev run_if : Option (List Command) → R.State → R.State
  run_if none s = s
  run_if (some cs) s = run_all R cs s

  abbrev pub apply_event : Event → R.State × Found → R.State × Found
  apply_event (attempted r now read true) (s, found) = (run_if (put_commands C now read r) s, found)
  apply_event (attempted r now read false) (s, found) = (s, found)
  apply_event (looked client cutoff) (s, found) =
      (s, with_found client (find_expired R C cutoff s) found)
  apply_event (removed client) (s, found) =
      (remove_found R (found client) s, with_found client none found)

  abbrev pub run_events : List Event → R.State × Found → R.State × Found
  run_events [] s = s
  run_events (e ∷ events) s = run_events events (apply_event e s)

  -- EXEC is only executed if the key that WATCH names has not been changed since it was read.
  abbrev pub IsWatched : List Event → R.State × Found → Type 0
  IsWatched [] s = Unit
  IsWatched (attempted r now read true ∷ events) s =
      (R.get_version s.0 ≡ read) × IsWatched events (apply_event (attempted r now read true) s)
  IsWatched (attempted r now read false ∷ events) s =
      IsWatched events (apply_event (attempted r now read false) s)
  IsWatched (looked client cutoff ∷ events) s =
      IsWatched events (apply_event (looked client cutoff) s)
  IsWatched (removed client ∷ events) s = IsWatched events (apply_event (removed client) s)

  abbrev add_if : Option Bytes → List Record → Record → List Record
  add_if none l r = l
  add_if (some bs) l r = l ++ r ∷ []

  -- The records that are committed, as they are stored.
  abbrev pub committed : List Event → List Record → List Record
  committed [] l = l
  committed (attempted r now read true ∷ events) l =
      committed events (add_if (C.marshal (stored now read r)) l (stored now read r))
  committed (attempted r now read false ∷ events) l = committed events l
  committed (looked client cutoff ∷ events) l = committed events l
  committed (removed client ∷ events) l = committed events l

  length-add_if :
      (o : Option Bytes) (l : List Record) (r : Record) → length (add_if o l r) ≤ length l + 1
  length-add_if none l r = omega arith
  length-add_if (some bs) l r = omega (arith, length-append l (r ∷ []))

  -- The server has the log, and what the clients have found is gone or the oldest that is left.
  record IsShared (l : List Record) (s : R.State × Found) : Type 0 where
    log : IsLog R C l s.0
    oldest : (client : ℕ) (raw : Bytes) → s.1 client ≡ some raw → IsOldest C log.gone raw

  put-IsShared :
      (l : List Record) (s : R.State) (found : Found) (r : Record)
      → r.version ≡ length l + 1
      → length l + 1 < 2 ^ 53
      → IsMarshalled C r
      → IsShared l (s, found)
      → IsShared (l ++ r ∷ []) (run_put R C r (bytes_of C r) s, found)
  put-IsShared l s found r v fits m h = record {
    log = run_put-IsLog R C l r s v fits m h.log;
    oldest = λ client raw e.
        subst (λ g. IsOldest C g raw) (sym (gone-run_put R C l r s v fits m h.log))
          (h.oldest client raw e);
  }

  attempted-IsShared :
      (l : List Record) (s : R.State) (found : Found) (r : Record) (now : ℤ) (read : Option ℕ)
      → R.get_version s ≡ read
      → length l + 1 < 2 ^ 53
      → IsShared l (s, found)
      → IsShared
          (add_if (C.marshal (stored now read r)) l (stored now read r))
          (run_if (put_commands C now read r) s, found)
  unfolding put_commands run_put
  attempted-IsShared l s found r now read e fits h =
      elim (Option-cases (C.marshal (stored now read r))) [
        | inl m ↦ rw (m, put_commands) h
        | inr (bs, m) ↦
            let number : next_version read ≡ length l + 1 =
              ground (arith, ap read_or_zero e, h.log.count) in
            rw (m, put_commands)
              (subst
                (λ x.
                  IsShared (l ++ stored now read r ∷ [])
                    (run_put R C (stored now read r) x s, found))
                (ap or_empty m)
                (put-IsShared l s found (stored now read r) number fits
                  (m ∙ ap some (sym (ap or_empty m))) h))
      ]

  -- What one client has found, and what the others have
  with_found-cases :
      (g : ℕ) (client : ℕ) (x : Option Bytes) (found : Found)
      → ((raw : Bytes) → x ≡ some raw → IsOldest C g raw)
      → ((other : ℕ) (raw : Bytes) → found other ≡ some raw → IsOldest C g raw)
      → (other : ℕ) (raw : Bytes) → with_found client x found other ≡ some raw
      → IsOldest C g raw
  with_found-cases g client x found here there other raw e = elim (Bool-cases (other == client)) [
    | inl i ↦ here raw (rw i at e)
    | inr i ↦ there other raw (rw i at e)
  ]

  looked-IsShared :
      (l : List Record) (s : R.State) (found : Found) (client : ℕ) (cutoff : ℤ)
      → IsShared l (s, found)
      → IsShared l (s, with_found client (find_expired R C cutoff s) found)
  looked-IsShared l s found client cutoff h = record {
    log = h.log;
    oldest =
        with_found-cases h.log.gone client (find_expired R C cutoff s) found
          (λ raw e. find_expired-IsOldest R C l s cutoff raw h.log e) h.oldest;
  }

  removed-IsShared :
      (l : List Record) (s : R.State) (found : Found) (client : ℕ)
      → IsShared l (s, found)
      → IsShared l (remove_found R (found client) s, with_found client none found)
  removed-IsShared l s found client h =
      let (k, le) = remove_found-IsLog R C l s (found client) h.log (h.oldest client) in
      record {
        log = k;
        oldest =
            with_found-cases k.gone client none found (λ raw e. cc (e))
              (λ other raw e. later_IsOldest C h.log.gone k.gone raw le (h.oldest other raw e));
      }

  run_events-IsShared :
      (events : List Event) (l : List Record) (s : R.State × Found)
      → length l + length events < 2 ^ 53
      → IsWatched events s
      → IsShared l s
      → IsShared (committed events l) (run_events events s)
  run_events-IsShared [] l s fits w h = h
  run_events-IsShared (attempted r now read true ∷ events) l (s, found) fits (e, w) h =
      run_events-IsShared events _ _
        (omega (arith, length-add_if (C.marshal (stored now read r)) l (stored now read r))) w
        (attempted-IsShared l s found r now read e (omega arith) h)
  run_events-IsShared (attempted r now read false ∷ events) l (s, found) fits w h =
      run_events-IsShared events l (s, found) (omega arith) w h
  run_events-IsShared (looked client cutoff ∷ events) l (s, found) fits w h =
      run_events-IsShared events l _ (omega arith) w (looked-IsShared l s found client cutoff h)
  run_events-IsShared (removed client ∷ events) l (s, found) fits w h =
      run_events-IsShared events l _ (omega arith) w (removed-IsShared l s found client h)

  -- However the transactions of any number of clients and the two commands of their rounds of expiry
  -- interleave, from a server that has a log while no client is amid a round: the state of the server
  -- has the log of the committed records. They are numbered one by one in the order of their commits,
  -- each entry of the hash is what the last of them made it, and the changes are the log without a
  -- part at its start, as long as there are fewer than 2^53 records and events.
  pub run_events-IsLog :
      (events : List Event) (l : List Record) (s : R.State)
      → length l + length events < 2 ^ 53
      → IsWatched events (s, none_found)
      → IsLog R C l s
      → IsLog R C (committed events l) (run_events events (s, none_found)).0
  run_events-IsLog events l s fits w h =
      (run_events-IsShared events l (s, none_found) fits w
        (record { log = h; oldest = λ client raw e. cc (e) })).log
