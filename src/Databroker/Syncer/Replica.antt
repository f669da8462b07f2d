-- ===== src/Databroker/Syncer/Replica.antt =====
-- The handler's copy against the history of the databroker's records.
use pomerium.Prelude.{
  ℕ, zero, suc, ◌^◌, ◌<◌, Bytes, bytes_order, same, true, ◌≡◌, refl, sym, ap, subst, List, [], ◌∷◌,
  ◌++◌, none, some, arith, All, length, take, get_elem?, Bool-cases, inl, inr, ◌==◌, if◌then◌else◌,
}
use pomerium.GoMap
use pomerium.GoMap.{GoMap}
use pomerium.Storage.{Record}
use pomerium.Storage.InMemory.{RecordKey, key_order, key_of}
use pomerium.Storage.InMemory.History.{replay, replay-append}
use pomerium.Storage.InMemory.Table.{lookup-put_lookup}
use pomerium.Databroker.Syncer.{
  Syncer, HandlerCall, clear_records, update_records, Received, received, aborted, broken,
  before_version, wants, calls_for, sync,
}

-- A handler that keeps a table of what it is told.
unfoldable pub apply_call : GoMap RecordKey Record → HandlerCall → GoMap RecordKey Record
unfolding replay
apply_call m clear_records = []
apply_call m (update_records l) = replay m l

unfoldable pub apply_calls : GoMap RecordKey Record → List HandlerCall → GoMap RecordKey Record
unfolding apply_call
apply_calls m [] = m
apply_calls m (c ∷ cs) = apply_calls (apply_call m c) cs

-- The copy holds the wanted part of what the first changes of the history make.
abbrev pub IsCopy : List Record → Bytes → ℕ → GoMap RecordKey Record → Type 0
IsCopy l type_url version m =
    (k : RecordKey)
    → GoMap.lookup key_order k m
      ≡ (if wants type_url k.0 then GoMap.lookup key_order k (replay [] (take version l)) else none)

-- The record is the one that the history has under its version.
abbrev pub IsIn : List Record → Received → Type 0
IsIn l aborted = Unit
IsIn l broken = Unit
IsIn l (received r) = (i : ℕ) × (r.version ≡ suc i) × (get_elem? l i ≡ some r)

pub take_next :
    (i : ℕ) (l : List Record) (r : Record)
    → get_elem? l i ≡ some r
    → take (suc i) l ≡ take i l ++ r ∷ []
take_next i [] r h = cc
take_next zero (x ∷ l) r h = cc
take_next (suc i) (x ∷ l) r h = ap (◌∷◌ x) (take_next i l r h)

pub get_elem?-lt : (i : ℕ) (l : List Record) (r : Record) → get_elem? l i ≡ some r → i < length l
get_elem?-lt i [] r h = cc
get_elem?-lt zero (x ∷ l) r h = omega arith
get_elem?-lt (suc i) (x ∷ l) r h = omega (arith, get_elem?-lt i l r h)

key_type : (r : Record) (k : RecordKey) → same key_order k (key_of r) ≡ true → k.0 ≡ r.type
key_type r k h = ground (arith, bytes_order.connected k.0 r.type)

-- One accepted record.
accept-IsCopy :
    (l : List Record) (s : Syncer) (m : GoMap RecordKey Record) (i : ℕ) (r : Record)
    → IsCopy l s.type_url i m
    → get_elem? l i ≡ some r
    → IsCopy l s.type_url (suc i) (apply_calls m (calls_for s r))
unfolding calls_for apply_calls replay
accept-IsCopy l s m i r c g k =
    rw (take_next i l r g, replay-append)
      (ground (
        arith,
        c k,
        lookup-put_lookup r k m,
        lookup-put_lookup r k (replay [] (take i l)),
        key_type r k,
      ))

apply_calls-append :
    (m : GoMap RecordKey Record) (cs ds : List HandlerCall)
    → apply_calls m (cs ++ ds) ≡ apply_calls (apply_calls m cs) ds
unfolding apply_calls
apply_calls-append m [] ds = refl
apply_calls-append m (c ∷ cs) ds = apply_calls-append (apply_call m c) cs ds

-- A passed version check means that the record is the next one.
next_index :
    (l : List Record) (v i : ℕ) (r : Record)
    → length l < 2 ^ 64
    → r.version ≡ suc i
    → get_elem? l i ≡ some r
    → (v == before_version r.version) ≡ true
    → v ≡ i
next_index l v i r b e g t = ground (arith, get_elem?-lt i l r g)

-- However a stream of records of the history is cut, reordered or thinned out, and whatever else
-- it delivers, the copy stays the one of the syncer's record version.
pub sync-IsCopy :
    (l : List Record) (s : Syncer) (m : GoMap RecordKey Record) (stream : List Received)
    → length l < 2 ^ 64
    → All (IsIn l) stream
    → IsCopy l s.type_url s.record_version m
    → IsCopy l s.type_url
        (sync s stream).syncer.record_version
        (apply_calls m (sync s stream).calls)
unfolding sync
sync-IsCopy l s m [] b a c = unfold apply_calls in c
sync-IsCopy l s m (aborted ∷ stream) b a c = unfold apply_calls in c
sync-IsCopy l s m (broken ∷ stream) b a c = unfold apply_calls in c
sync-IsCopy l s m (received r ∷ stream) b ((i, e, g), a) c =
    elim (Bool-cases (s.record_version == before_version r.version)) [
      | inr t ↦ rw t (unfold apply_calls in c)
      | inl t ↦
          let n : s.record_version ≡ i = next_index l s.record_version i r b e g t in
          let c' : IsCopy l s.type_url r.version (apply_calls m (calls_for s r)) =
            subst (λ v. IsCopy l s.type_url v (apply_calls m (calls_for s r))) (sym e)
              (accept-IsCopy l s m i r (subst (λ v. IsCopy l s.type_url v m) n c) g) in
          rw t (
            rw apply_calls-append (
              sync-IsCopy l (record s { record_version = r.version })
                (apply_calls m (calls_for s r)) stream b a c'))
    ]
