-- ===== src/Tests/RetryRuns.antt =====
-- A client whose handshake is lost between the nodes joins at its second attempt, and one that sends
-- two handshakes at once.
use snowcast.Prelude.{
  ◌≡◌, ◌+◌, refl, inl, ℕ, Bool, true, false, none, [], ◌∷◌, length, text_eq_refl, arith, ◌==◌,
  ==_iff, text_eq, decimal,
}
use snowcast.Run.{Run, Result, done, panic, ok, err, Ends, final}
use snowcast.Protocol.{Error, replication_failed, rpc_failed}
use snowcast.State.Apply.{get_client, apply_handshake, rollback_handshake}
use snowcast.State.Store.{lookup, delete, put, client_key, init_stations}
use snowcast.Wal.File.{write, sync, put_uint32, read_full, seek_start, uint32}
use snowcast.Wal.Log.{
  append, write_record, write_data, write_sync, append_replicated, append_marshalled,
  append_written, prepend, read_all, read_entry, read_header, read_records, replicated_marshalled,
  replicated_written,
}
use snowcast.Replication.Server.{replicate, persisted, ping, replicate_entry}
use snowcast.Replication.Coordinator.{
  Pair, delivered, request_lost, replicate_and_wait, after_append, after_apply, acknowledge,
  replicate_with_retry, retry_failed, retry_synced, send, send_missing, sync_backup_wal, sync_from,
  backup_last_wal_seq, replicate_by, response_error,
}
use snowcast.Replication.Settles.{coordinator}
use snowcast.Control.Handlers.{key_of, handle_handshake, handshake_free}
use snowcast.Node.Manager.{Node, promote_to_leader}
use snowcast.Failover.Answered.{Answered, perform-Answered}
use snowcast.Failover.Tracked.{IsTracked, InStepLog, coordinator-IsLogging}
use snowcast.Failover.Requests.{join, perform}
use snowcast.Failover.Doubled.{IsRefused, promote_to_leader-IsRefused}
use snowcast.Failover.Raced.{two_handshakes, Fails, two_handshakes-Fails}
use snowcast.Replication.Dial.{start, ping_answered}
use snowcast.Tests.Server.{booted}
use snowcast.Tests.Journal.{plain}
use snowcast.Tests.NodeRuns.{config, alone, reached, lease_1}
use snowcast.Tests.FailoverRuns.{fresh, fresh-sync, fresh-IsTracked}

-- The second and the third call of this pair are lost.
abbrev shaky : Pair
shaky = record fresh { net = delivered ∷ request_lost ∷ request_lost ∷ [] }

shaky-IsTracked : IsTracked plain [] shaky
shaky-IsTracked = record {
  sync = record {
    primary = fresh-sync.primary;
    numbered = tt;
    split = refl;
    backup = fresh-sync.backup;
    room = fresh-sync.room;
  };
  consistent = fresh-IsTracked.consistent;
  valid = tt;
  agrees = fresh-IsTracked.agrees;
}

abbrev first_joined : Pair
first_joined = final (perform plain (join 2 5000) shaky)

abbrev failed_once : Pair
failed_once = final (handle_handshake (coordinator plain) 2 5001 first_joined)

abbrev is_welcome : Run Pair (Result Error ℕ) → Bool
is_welcome (done (ok n) u) = true
is_welcome (done (err x) u) = false
is_welcome (panic u) = false

welcome :
    (r : Run Pair (Result Error ℕ))
    → is_welcome r ≡ true
    → (n : ℕ) × (u : Pair) × (r ≡ done (ok n) u)
welcome (done (ok n) u) h = (n, u, refl)
welcome (done (err x) u) h = absurd (ground (arith, h))
welcome (panic u) h = absurd (ground (arith, h))

first_joined-Answered :
    Answered
      (coordinator plain)
      (InStepLog plain)
      (coordinator-IsLogging plain)
      (join 2 5000)
      []
      shaky
      (done true first_joined)
unfolding handle_handshake handshake_free get_client lookup put delete text_eq client_key decimal
    replicate_and_wait after_append after_apply acknowledge replicate_with_retry retry_failed
    retry_synced send send_missing sync_backup_wal sync_from backup_last_wal_seq replicate_by
    response_error persisted ping replicate_entry replicate append_replicated apply_handshake
    rollback_handshake append write_record write_data write_sync write sync put_uint32 read_full
    seek_start uint32 append_marshalled append_written prepend read_all read_entry read_header
    read_records replicated_marshalled replicated_written
first_joined-Answered =
    perform-Answered (coordinator plain) (InStepLog plain) (coordinator-IsLogging plain)
      (join 2 5000) [] shaky shaky-IsTracked (omega arith) (omega arith)

first_joined-IsTracked : IsTracked plain (first_joined-Answered.0 ∷ []) first_joined
first_joined-IsTracked = first_joined-Answered.1

unknown : lookup (key_of 5001) first_joined.mem.current_clients ≡ none
unfolding handle_handshake handshake_free get_client lookup put delete text_eq client_key decimal
    replicate_and_wait after_append after_apply acknowledge replicate_with_retry retry_failed
    retry_synced send send_missing sync_backup_wal sync_from backup_last_wal_seq replicate_by
    response_error persisted ping replicate_entry replicate append_replicated apply_handshake
    rollback_handshake append write_record write_data write_sync write sync put_uint32 read_full
    seek_start uint32 append_marshalled append_written prepend read_all read_entry read_header
    read_records replicated_marshalled replicated_written
unknown = refl

lost :
    handle_handshake (coordinator plain) 2 5001 first_joined
    ≡ done (err (replication_failed rpc_failed)) failed_once
unfolding handle_handshake handshake_free get_client lookup put delete text_eq client_key decimal
    replicate_and_wait after_append after_apply acknowledge replicate_with_retry retry_failed
    retry_synced send send_missing sync_backup_wal sync_from backup_last_wal_seq replicate_by
    response_error persisted ping replicate_entry replicate append_replicated apply_handshake
    rollback_handshake append write_record write_data write_sync write sync put_uint32 read_full
    seek_start uint32 append_marshalled append_written prepend read_all read_entry read_header
    read_records replicated_marshalled replicated_written
lost = refl

logged : failed_once.wal.seq ≡ first_joined.wal.seq + 1
unfolding handle_handshake handshake_free get_client lookup put delete text_eq client_key decimal
    replicate_and_wait after_append after_apply acknowledge replicate_with_retry retry_failed
    retry_synced send send_missing sync_backup_wal sync_from backup_last_wal_seq replicate_by
    response_error persisted ping replicate_entry replicate append_replicated apply_handshake
    rollback_handshake append write_record write_data write_sync write sync put_uint32 read_full
    seek_start uint32 append_marshalled append_written prepend read_all read_entry read_header
    read_records replicated_marshalled replicated_written
logged = refl

sent_again : is_welcome (handle_handshake (coordinator plain) 2 5001 failed_once) ≡ true
unfolding handle_handshake handshake_free get_client lookup put delete text_eq client_key decimal
    replicate_and_wait after_append after_apply acknowledge replicate_with_retry retry_failed
    retry_synced send send_missing sync_backup_wal sync_from backup_last_wal_seq replicate_by
    response_error persisted ping replicate_entry replicate append_replicated apply_handshake
    rollback_handshake append write_record write_data write_sync write sync put_uint32 read_full
    seek_start uint32 append_marshalled append_written prepend read_all read_entry read_header
    read_records replicated_marshalled replicated_written
sent_again = refl

welcomed_again :
    (n : ℕ) × (u : Pair) × (handle_handshake (coordinator plain) 2 5001 failed_once ≡ done (ok n) u)
welcomed_again = welcome (handle_handshake (coordinator plain) 2 5001 failed_once) sent_again

abbrev informed : Node
informed = record alone { pair = record (alone.pair) { wal = welcomed_again.1.backup.wal } }

stations : length informed.cfg.files ≡ length first_joined.mem.station_list
unfolding handle_handshake handshake_free get_client lookup put delete text_eq client_key decimal
    replicate_and_wait after_append after_apply acknowledge replicate_with_retry retry_failed
    retry_synced send send_missing sync_backup_wal sync_from backup_last_wal_seq replicate_by
    response_error persisted ping replicate_entry replicate append_replicated apply_handshake
    rollback_handshake append write_record write_data write_sync write sync put_uint32 read_full
    seek_start uint32 append_marshalled append_written prepend read_all read_entry read_header
    read_records replicated_marshalled replicated_written
stations = refl

promote_to_leader-IsRefused_example :
    Ends (IsRefused informed) (promote_to_leader plain reached lease_1 informed)
promote_to_leader-IsRefused_example =
    promote_to_leader-IsRefused plain 2 5001 (first_joined-Answered.0 ∷ []) first_joined
      first_joined-IsTracked (omega arith) (omega arith) unknown (replication_failed rpc_failed)
      welcomed_again.0 failed_once welcomed_again.1 reached lease_1 informed lost logged
      welcomed_again.2 refl refl refl stations (inl (text_eq_refl []))

abbrev is_race : Run Pair (Result Error ℕ × Result Error ℕ) → Bool
is_race (done (ok k, err x) u) = u.wal.seq == 2
is_race (done (ok k, ok n) u) = false
is_race (done (err x, r) u) = false
is_race (panic u) = false

race :
    (r : Run Pair (Result Error ℕ × Result Error ℕ))
    → is_race r ≡ true
    → (k : ℕ) × (x : Error) × (u : Pair) × (r ≡ done (ok k, err x) u) × (u.wal.seq ≡ 2)
race (done (ok k, err x) u) h = (k, x, u, refl, (==_iff u.wal.seq 2).0 h)
race (done (ok k, ok n) u) h = absurd (ground (arith, h))
race (done (err x, r) u) h = absurd (ground (arith, h))
race (panic u) h = absurd (ground (arith, h))

both_sent : is_race (two_handshakes (coordinator plain) 2 5000 fresh) ≡ true
unfolding two_handshakes handshake_free get_client lookup put delete text_eq client_key decimal
    replicate_and_wait after_append after_apply acknowledge replicate_with_retry retry_failed
    retry_synced send send_missing sync_backup_wal sync_from backup_last_wal_seq replicate_by
    response_error persisted ping replicate_entry replicate append_replicated apply_handshake
    rollback_handshake append write_record write_data write_sync write sync put_uint32 read_full
    seek_start uint32 append_marshalled append_written prepend read_all read_entry read_header
    read_records replicated_marshalled replicated_written
both_sent = refl

raced :
    (k : ℕ) × (x : Error) × (u : Pair) × (two_handshakes (coordinator plain) 2 5000 fresh
      ≡ done (ok k, err x) u)
    × (u.wal.seq ≡ 2)
raced = race (two_handshakes (coordinator plain) 2 5000 fresh) both_sent

nobody_joined : lookup (key_of 5000) fresh.mem.current_clients ≡ none
unfolding lookup
nobody_joined = refl

two_handshakes-Fails_example : Ends Fails (
    start plain raced.2.wal.file.content []
      (ping_answered ∷ [])
      (record (raced.2) { mem = init_stations config.files booted; last_wal_seq = 0 }))
two_handshakes-Fails_example =
    two_handshakes-Fails plain 2 5000 [] fresh fresh-IsTracked (omega arith) nobody_joined
      config.files booted refl refl raced.0 raced.1 raced.2 [] (ping_answered ∷ []) raced.3 raced.4
