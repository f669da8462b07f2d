-- ===== src/Tests/Syncer.antt =====
-- The syncer, the server and user ids.
use pomerium.Prelude.{◌≡◌, ◌≢◌, refl, arith, [], ◌∷◌, length, inr}
use pomerium.GoMap
use pomerium.Strings.{bytes_eq}
use pomerium.Storage.{StorageError, not_found, Result, err}
use pomerium.Storage.InMemory.{Backend, get_since}
use pomerium.Storage.InMemory.History.{replay}
use pomerium.Databroker.Syncer.{
  Syncer, received, sync, init, run_round, new_syncer, receiving, done,
}
use pomerium.Databroker.Syncer.Replica.{IsCopy, apply_calls, sync-IsCopy}
use pomerium.Databroker.Server.{sync_latest}
use pomerium.Databroker.Server.Snapshots.{serving, init-IsCopy}
use pomerium.Databroker.Server.Streaming.{serve_sync, sync-serve_sync}
use pomerium.Databroker.Server.Recovery.{sync_starts_over}
use pomerium.Tests.Sample.{
  tree, record_a, two_puts, whole, trimmed, whole-IsHistory, trimmed-IsHistory, gone-whole,
  gone-trimmed,
}

abbrev pub syncer : Syncer
syncer = record { type_url = []; record_version = 0; server_version = 7 }

abbrev pub make : Result StorageError (Backend tree)
make = err not_found

pub empty-IsCopy : IsCopy two_puts [] 0 []
unfolding GoMap.lookup replay bytes_eq
empty-IsCopy k = refl

sync-serve_sync_example :
    let r = sync syncer (serve_sync (serving syncer.server_version whole) make 7 0).0 in
    (r.outcome ≡ receiving)
    × (r.syncer.record_version ≡ length two_puts)
    × IsCopy two_puts [] 2 (apply_calls [] r.calls)
sync-serve_sync_example =
    sync-serve_sync two_puts syncer [] whole make whole-IsHistory (omega arith)
      (omega (arith, gone-whole)) (omega arith) empty-IsCopy

init-IsCopy_example :
    let r = init (new_syncer []) (sync_latest (serving 7 whole) make (new_syncer []).type_url).0 in
    (r.outcome ≡ done)
    × (r.syncer.server_version ≡ 7)
    × (r.syncer.record_version ≡ length two_puts)
    × IsCopy two_puts (new_syncer []).type_url 2 (apply_calls [] r.calls)
init-IsCopy_example = init-IsCopy two_puts (new_syncer []) [] 7 whole make whole-IsHistory

sync-IsCopy_example :
    IsCopy two_puts []
      (sync syncer (received record_a ∷ received record_a ∷ [])).syncer.record_version
      (apply_calls [] (sync syncer (received record_a ∷ received record_a ∷ [])).calls)
sync-IsCopy_example =
    sync-IsCopy two_puts syncer [] (received record_a ∷ received record_a ∷ []) (omega arith)
      ((0, refl, refl), ((0, refl, refl), tt)) empty-IsCopy

since_ne : get_since trimmed 0 ≢ []
unfolding get_since
since_ne e = cc

sync_starts_over_example :
    let r = sync syncer (serve_sync (serving 7 trimmed) make 7 0).0 in
    (r.calls ≡ []) × (run_round r.syncer [] [] ≡ init r.syncer [])
sync_starts_over_example =
    sync_starts_over two_puts syncer trimmed make 7 [] [] trimmed-IsHistory (omega arith)
      (inr (refl, omega (arith, gone-trimmed), since_ne))
