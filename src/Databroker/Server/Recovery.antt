-- ===== src/Databroker/Server/Recovery.antt =====
-- How a syncer notices that it cannot go on from its version.
use pomerium.Prelude.{
  ℕ, ◌+◌, ◌<◌, ◌≡◌, ◌≢◌, refl, List, [], ◌∷◌, map, arith, false, All, subst, List-cases, ◌⊎◌, inl,
  inr, ◌==◌, ◌^◌, length,
}
use pomerium.BTree.{BTree}
use pomerium.Storage.{Record, StorageError, Result}
use pomerium.Storage.InMemory.{less_version, Backend, get_since}
use pomerium.Storage.InMemory.History.{IsHistory}
use pomerium.Storage.InMemory.Sync.{gap_shows}
use pomerium.Databroker.{Latest}
use pomerium.Databroker.Syncer.{
  Syncer, Received, received, aborted, before_version, sync, init, run_round, failed,
}
use pomerium.Databroker.Syncer.Replica.{IsIn, get_elem?-lt}
use pomerium.Databroker.Server.Snapshots.{serving}
use pomerium.Databroker.Server.Streaming.{serve_sync, serve_sync-get_since, since-IsIn}

-- A first record with another version than the next ends the call of sync.
sync_gap :
    (l : List Record) (s : Syncer) (r : Record) (rs : List Record)
    → length l < 2 ^ 64
    → IsIn l (received r)
    → s.record_version + 1 < r.version
    → sync s (map received (r ∷ rs))
      ≡ record { syncer = record s { server_version = 0 }; calls = []; outcome = failed }
unfolding sync
sync_gap l s r rs fits (i, e, g) k =
    let t : (s.record_version == before_version r.version) ≡ false =
      ground (arith, get_elem?-lt i l r g) in
    rw t

module _ {B : BTree less_version} where
  serve_sync-aborted :
      (b : Backend B) (make : Result StorageError (Backend B)) (version old v : ℕ)
      → old ≢ version
      → (serve_sync (serving version b) make old v).0 ≡ aborted ∷ []
  unfolding serve_sync
  serve_sync-aborted b make version old v h =
      let e : (old == version) ≡ false = ground arith in rw e

  -- A syncer whose server version is not the server's, or from which the oldest changes that it
  -- lacks have expired while there are later ones, tells its handler nothing more in that call of
  -- sync, and starts over with an initial sync in its next round.
  pub sync_starts_over :
      (l : List Record) (s : Syncer) (b : Backend B) (make : Result StorageError (Backend B))
      (version : ℕ) (latest : List Latest) (stream : List Received)
      → (h : IsHistory l b) → length l < 2 ^ 64
      → (s.server_version ≢ version)
        ⊎ ((s.server_version ≡ version)
            × (s.record_version < h.gone)
            × (get_since b s.record_version ≢ []))
      → let r = sync s (serve_sync (serving version b) make s.server_version s.record_version).0 in
        (r.calls ≡ []) × (run_round r.syncer latest stream ≡ init r.syncer latest)
  unfolding run_round sync
  sync_starts_over l s b make version latest stream h fits (inl e) =
      rw (serve_sync-aborted b make version s.server_version s.record_version e, sync) (refl, refl)
  sync_starts_over l s b make version latest stream h fits (inr (e, gap, more)) =
      elim (List-cases (get_since b s.record_version)) [
        | inl none ↦ absurd (more none)
        | inr (r, rs, some_r) ↦
            rw
              (
                ← e,
                serve_sync-get_since l b make s.server_version s.record_version h,
                some_r,
                sync_gap l s r rs fits
                    (subst (λ x. All (IsIn l) (map received x)) some_r
                      (since-IsIn l b s.record_version h)).0
                    (gap_shows l b s.record_version r rs h gap some_r),
              )
              (refl, refl)
      ]
