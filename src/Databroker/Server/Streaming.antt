-- ===== src/Databroker/Server/Streaming.antt =====
-- Sync of internal/databroker/server.go over the in-memory backend, and a syncer that receives what
-- it sends.
use mathlib.Core.List.{append_assoc}
use pomerium.Prelude.{
  ℕ, suc, ◌+◌, ◌-◌, ◌^◌, ◌<◌, ◌≤◌, true, ◌≡◌, refl, sym, ap, ◌∙◌, subst, List, [], ◌∷◌, ◌++◌, map,
  some, arith, All, length, take, drop, get_elem?, length-drop, take-append-drop, ◌==◌,
  if◌then◌else◌,
}
use pomerium.BTree.{BTree}
use pomerium.GoMap.{GoMap}
use pomerium.Storage.{Record, ok, err, StorageError, Result}
use pomerium.Storage.InMemory.{RecordKey, less_version, Backend, get_since, in_memory}
use pomerium.Storage.InMemory.History.{Numbered, Numbered-drop, IsHistory, get_since-drop}
use pomerium.Storage.InMemory.Stream.{Stream, new_record_stream}
use pomerium.Storage.InMemory.Stream.Delivery.{pending, drain, drain-pending}
use pomerium.Databroker.Syncer.{
  Syncer, Received, received, aborted, broken, before_version, sync, receiving,
}
use pomerium.Databroker.Syncer.Replica.{IsCopy, IsIn, apply_calls, sync-IsCopy}
use pomerium.Databroker.Server.{Server, get_backend}
use pomerium.Databroker.Server.Snapshots.{serving}

module _ {B : BTree less_version} where
  -- The loop of Sync up to its first wait: it sends the record of each Next.
  send_changes : Backend B → Stream → List Received
  send_changes b stream = map received (drain (suc (B.len b.changes)) stream b)

  -- Sync, as what a client receives before the method waits for changes, and the server after it.
  unfoldable pub serve_sync :
      Server (in_memory B)
      → Result StorageError (Backend B)
      → ℕ
      → ℕ
      → List Received × Server (in_memory B)
  unfolding get_backend send_changes
  serve_sync srv make server_version record_version =
      let (res, srv') = get_backend srv make in
      elim res [
        | err e ↦ (broken ∷ [], srv')
        | ok (b, version) ↦
            let (stream, b') = new_record_stream b record_version in
            if server_version == version
            then (send_changes b' stream, record srv' { backend = some b' })
            else (aborted ∷ [], srv')
      ]

  since-le-len :
      (l : List Record) (b : Backend B) (v : ℕ)
      → IsHistory l b
      → length (get_since b v) ≤ B.len b.changes
  since-le-len l b v h = omega (
    arith,
    ap length (get_since-drop l b v h),
    length-drop (h.gone + (v - h.gone)) l,
    B.len-items b.changes,
    ap length h.retained,
    length-drop h.gone l,
  )

  -- Binding a channel of the signal leaves the history as it is.
  new_record_stream-IsHistory :
      (l : List Record) (b : Backend B) (v : ℕ)
      → IsHistory l b
      → IsHistory l (new_record_stream b v).1
  unfolding new_record_stream
  new_record_stream-IsHistory l b v h = record {
    gone = h.gone;
    gone_le = h.gone_le;
    numbered = h.numbered;
    count = h.count;
    current = h.current;
    retained = h.retained;
  }

  pending-new_record_stream :
      (b : Backend B) (v : ℕ)
      → pending (new_record_stream b v).0 (new_record_stream b v).1 ≡ get_since b v
  unfolding pending new_record_stream get_since
  pending-new_record_stream b v = refl

  same_len : (b : Backend B) (v : ℕ) → B.len (new_record_stream b v).1.changes ≡ B.len b.changes
  unfolding new_record_stream
  same_len b v = refl

  send_changes-get_since :
      (l : List Record) (b : Backend B) (v : ℕ)
      → IsHistory l b
      → send_changes (new_record_stream b v).1 (new_record_stream b v).0
        ≡ map received (get_since b v)
  unfolding send_changes
  send_changes-get_since l b v h =
      let h' = new_record_stream-IsHistory l b v h in
      let p = pending-new_record_stream b v in
      ap (map received) (
        drain-pending l (new_record_stream b v).0 (new_record_stream b v).1 _ h'
          (omega (arith, ap length p, since-le-len l b v h, same_len b v))
        ∙ p)

  -- What Sync sends to a client with the server's version: the changes past the client's version.
  pub serve_sync-get_since :
      (l : List Record) (b : Backend B) (make : Result StorageError (Backend B)) (version v : ℕ)
      → IsHistory l b
      → (serve_sync (serving version b) make version v).0 ≡ map received (get_since b v)
  unfolding serve_sync
  serve_sync-get_since l b make version v h =
      let e : (version == version) ≡ true = ground arith in rw e (send_changes-get_since l b v h)

-- A run of records with the versions that follow is taken in to its end.
sync_run :
    (s : Syncer) (rs : List Record)
    → Numbered s.record_version rs
    → s.record_version + length rs < 2 ^ 64
    → ((sync s (map received rs)).outcome ≡ receiving)
      × ((sync s (map received rs)).syncer.record_version ≡ s.record_version + length rs)
unfolding sync
sync_run s [] n b = (refl, omega arith)
sync_run s (r ∷ rs) n b =
    let s' : Syncer = record s { record_version = r.version } in
    let ih = sync_run s' rs (subst (λ v. Numbered v rs) (sym n.0) n.1) (omega (arith, n.0)) in
    let t : (s.record_version == before_version r.version) ≡ true = ground (arith, n.0) in
    rw t (ih.0, omega (arith, ih.1, n.0))

get_elem?-middle :
    (pre : List Record) (r : Record) (rest : List Record)
    → get_elem? (pre ++ r ∷ rest) (length pre) ≡ some r
get_elem?-middle [] r rest = refl
get_elem?-middle (x ∷ pre) r rest = get_elem?-middle pre r rest

Numbered-suffix :
    (n : ℕ) (pre rest : List Record) → Numbered n (pre ++ rest) → Numbered (n + length pre) rest
Numbered-suffix n [] rest h = subst (λ m. Numbered m rest) (omega arith) h
Numbered-suffix n (x ∷ pre) rest h =
    subst (λ m. Numbered m rest) (omega arith) (Numbered-suffix (n + 1) pre rest h.1)

-- Every part of a history consists of its records.
suffix-IsIn :
    (l pre rest : List Record) → l ≡ pre ++ rest → Numbered 0 l → All (IsIn l) (map received rest)
suffix-IsIn l pre [] e n = tt
suffix-IsIn l pre (r ∷ rest) e n =
    let numbered = Numbered-suffix 0 pre (r ∷ rest) (subst (Numbered 0) e n) in
    (
      (
        length pre,
        omega (arith, numbered.0),
        ap (λ k. get_elem? k (length pre)) e ∙ get_elem?-middle pre r rest,
      ),
      suffix-IsIn l (pre ++ r ∷ []) rest (e ∙ sym (append_assoc pre (r ∷ []) rest)) n,
    )

module _ {B : BTree less_version} where
  pub since-IsIn :
      (l : List Record) (b : Backend B) (v : ℕ)
      → IsHistory l b
      → All (IsIn l) (map received (get_since b v))
  since-IsIn l b v h =
      let k : ℕ = h.gone + (v - h.gone) in
      subst (λ rs. All (IsIn l) (map received rs)) (sym (get_since-drop l b v h))
        (suffix-IsIn l (take k l) (drop k l) (sym (take-append-drop k l)) h.numbered)

  -- A syncer with the server's version and a copy as of its record version, none of whose missing
  -- changes have expired, receives from Sync what brings the copy up to the whole history, and then
  -- waits for more.
  pub sync-serve_sync :
      (l : List Record) (s : Syncer) (m : GoMap RecordKey Record) (b : Backend B)
      (make : Result StorageError (Backend B))
      → (h : IsHistory l b) → length l < 2 ^ 64
      → h.gone ≤ s.record_version
      → s.record_version ≤ length l
      → IsCopy l s.type_url s.record_version m
      → let r =
          sync s
            (serve_sync (serving s.server_version b) make s.server_version s.record_version).0 in
        (r.outcome ≡ receiving)
        × (r.syncer.record_version ≡ length l)
        × IsCopy l s.type_url (length l) (apply_calls m r.calls)
  sync-serve_sync l s m b make h fits old new c =
      let v = s.record_version in
      let rs = get_since b v in
      let e : rs ≡ drop v l =
        get_since-drop l b v h
        ∙ (let k : h.gone + (v - h.gone) ≡ v = omega arith in ap (λ n. drop n l) k) in
      let n : Numbered v rs =
        subst (Numbered v) (sym e)
          (subst (λ k. Numbered k (drop v l)) (omega arith) (Numbered-drop 0 v l h.numbered)) in
      let len : v + length rs ≡ length l = omega (arith, ap length e, length-drop v l) in
      let whole = sync_run s rs n (omega (arith, len)) in
      let safe = sync-IsCopy l s m (map received rs) fits (since-IsIn l b v h) c in
      rw (serve_sync-get_since l b make s.server_version v h) (
        whole.0,
        whole.1 ∙ len,
        subst (λ k. IsCopy l s.type_url k (apply_calls m (sync s (map received rs)).calls))
            (whole.1 ∙ len) safe,
      )
