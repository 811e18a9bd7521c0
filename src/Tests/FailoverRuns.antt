-- ===== src/Tests/FailoverRuns.antt =====
-- A client joins a primary and tunes in; then the backup takes over.
use snowcast.Prelude.{
  ◌%◌, ◌^◌, ◌≡◌, refl, inl, true, List, [], ◌∷◌, text_eq_refl, arith, text_eq, decimal, to_int32,
  codes, none, some,
}
use snowcast.Run.{ok, done, Ends, final}
use snowcast.Wal.Log.{Log, append, write_record, append_replicated, max_seq}
use snowcast.Wal.Holds.{Holds}
use snowcast.Replication.Coordinator.{
  Pair, replicate_and_wait, after_append, after_apply, acknowledge, replicate_with_retry,
  retry_failed, send, replicate_by,
}
use snowcast.Node.Manager.{Node, promote_to_leader}
use snowcast.Failover.Tracked.{IsTracked}
use snowcast.Failover.Requests.{Call, join, tune, perform_all}
use snowcast.Failover.Survives.{TakesOver, perform_all-TakesOver}
use snowcast.Control.Handlers.{handle_handshake, handshake_free, handle_set_station}
use snowcast.State.Apply.{get_client, apply_handshake, apply_set_station}
use snowcast.State.Store.{lookup, delete, put, client_key}
use snowcast.Wal.File.{write, sync}
use snowcast.Replication.Server.{replicate}
use snowcast.Replication.Recovery.{spec_replay}
use snowcast.State.Roster.{roster}
use snowcast.Leadership.Session.{default_key, get_primary, try_acquire, after_grant, after_commit}
use snowcast.Node.Poll.{run_as_leader}
use snowcast.Failover.Leads.{Led, run_as_leader-Led}
use snowcast.Failover.Unsynced.{failing_sync, with_log_of, failing_sync-IsRefused}
use snowcast.Failover.Doubled.{IsRefused}
use snowcast.Control.Handlers.{key_of, handle_handshake}
use snowcast.Replication.Settles.{coordinator}
use snowcast.Tests.Keys.{Keys, holder, local_etcd, local_etcd-IsEtcd, no_keys}
use snowcast.Replication.Retry.{InSync}
use snowcast.Tests.Server.{booted, booted-IsConsistent}
use snowcast.Tests.Journal.{plain}
use snowcast.Tests.NodeRuns.{alone, reached, lease_1}

abbrev empty : Log
empty = record { file = record { content = []; pos = 0; outcomes = [] }; is_open = true; seq = 0 }

abbrev pub fresh : Pair
fresh = record {
  mem = booted;
  wal = empty;
  last_wal_seq = 0;
  backup = record { wal = empty; last_wal_seq = 0; accepting = true };
  net = [];
}

empty-Holds : Holds plain empty []
unfolding max_seq
empty-Holds = record { bytes = []; at_end = refl; encodes = refl; is_open = refl; seq = refl }

pub fresh-sync : InSync plain fresh [] [] []
fresh-sync = record {
  primary = empty-Holds;
  numbered = tt;
  split = refl;
  backup = record { wal = empty-Holds; last = refl; accepting = refl; calm = refl };
  room = omega arith;
}

pub fresh-IsTracked : IsTracked plain [] fresh
unfolding spec_replay roster lookup
fresh-IsTracked = record {
  sync = fresh-sync;
  consistent = booted-IsConsistent;
  valid = tt;
  agrees = refl;
}

abbrev calls : List Call
calls = join 2 5000 ∷ tune true 1 5000 ∷ []

abbrev later : Pair
later = final (perform_all plain calls fresh)

abbrev behind : Node
behind = record alone { pair = record (alone.pair) { wal = later.backup.wal } }

told : perform_all plain calls fresh ≡ done true later
unfolding perform_all handle_handshake handshake_free get_client lookup delete put
    replicate_and_wait after_append after_apply acknowledge replicate_with_retry retry_failed send
    replicate_by apply_handshake append write_record write sync replicate append_replicated
    handle_set_station text_eq client_key decimal to_int32 apply_set_station
told = refl

perform_all-TakesOver_example :
    Ends (TakesOver later.mem) (promote_to_leader plain reached lease_1 behind)
perform_all-TakesOver_example =
    perform_all-TakesOver plain reached lease_1 behind fresh later refl refl (inl (text_eq_refl []))
      refl refl refl calls [] fresh-IsTracked (omega arith) (omega arith) told

abbrev held_keys : Keys
held_keys = (try_acquire local_etcd default_key (codes "127.0.0.1:16800") 5 no_keys).1

free : get_primary local_etcd default_key no_keys ≡ (ok none, no_keys)
unfolding get_primary
free = refl

taken :
    try_acquire local_etcd default_key (codes "127.0.0.1:16800") 5 no_keys
    ≡ (ok (some lease_1), held_keys)
unfolding try_acquire after_grant after_commit
taken = refl

abbrev starting : Node
starting = record alone { pair = fresh }

run_as_leader-Led_example :
    Ends
      (Led holder plain [] starting no_keys)
      (run_as_leader local_etcd plain reached (no_keys, starting))
run_as_leader-Led_example =
    run_as_leader-Led holder plain [] starting no_keys local_etcd reached [] [] local_etcd-IsEtcd
      fresh-sync refl tt

nobody_yet : lookup (key_of 5000) fresh.mem.current_clients ≡ none
unfolding lookup
nobody_yet = refl

failing_sync-IsRefused_example :
    (u : Pair) × (handle_handshake (coordinator plain) 2 5000 (failing_sync 0 fresh)
      ≡ done (ok (2 % 2 ^ 32)) u)
    × Ends
        (IsRefused (with_log_of u alone))
        (promote_to_leader plain reached lease_1 (with_log_of u alone))
failing_sync-IsRefused_example =
    failing_sync-IsRefused plain 2 5000 [] fresh fresh-IsTracked (omega arith) _ refl refl refl
      nobody_yet 0 reached lease_1 alone refl refl refl (inl (text_eq_refl []))
