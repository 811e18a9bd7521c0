-- ===== src/Replication/Unsynced.antt =====
-- A backup whose Sync fails once behind the writes of a record.
use snowcast.Prelude.{
  ℕ, ◌+◌, ◌%◌, ◌^◌, ◌<◌, ◌≡◌, ◌≢◌, refl, sym, ap, ◌∙◌, true, none, some, List, [], ◌∷◌, ◌++◌, arith,
  length, append_assoc, ltb, leb, if◌then◌else◌, ◌==◌, false, ◌&&◌, not,
}
use native.Mathlib.Nat.{zero-add}
use snowcast.Run.{ok, err}
use snowcast.Protocol.{WalEntry, write_failed}
use snowcast.State.Store.{State}
use snowcast.Wal.File.{Bytes, Outcome, fine, short, write, sync, put_uint32}
use snowcast.Wal.Log.{
  Codec, u64, Log, write_record, write_data, write_sync, append_replicated, replicated_marshalled,
  replicated_written, max_seq,
}
use snowcast.Wal.Records.{frame, cursor, Encodes}
use snowcast.Wal.Holds.{Holds, put_bytes-end, Encodes-snoc, read_all-Holds, write_record-fine}
use snowcast.Wal.Append.{max_seq-snoc}
use snowcast.Replication.Server.{InboundHandler, replicate, replicate_entry, persisted, ping}
use snowcast.Replication.Coordinator.{
  Pair, send, send_missing, sync_from, sync_backup_wal, backup_last_wal_seq, replicate_by,
  replicate_with_retry, retry_failed, retry_synced, response_error,
}
use snowcast.Replication.Backup.{IsNumbered}
use snowcast.Replication.Catchup.{send_missing-skip}
use snowcast.Replication.Commit.{max_seq-numbered}

write_record-unsynced :
    (bytes b : Bytes) (k : ℕ)
    → write_record b true (cursor bytes [] (fine ∷ fine ∷ short k ∷ []))
      ≡ (err write_failed, cursor (bytes ++ frame b) [] [])
unfolding write_record write_data write_sync write sync
write_record-unsynced bytes b k =
    let header = put_uint32 (length b % 2 ^ 32) in
    ap (λ f. write_sync (write_data b (ok tt, f)))
      (put_bytes-end bytes header (fine ∷ fine ∷ short k ∷ []) (fine ∷ short k ∷ []))
    ∙ ap (λ f. write_sync (ok tt, f))
        (put_bytes-end (bytes ++ header) b (fine ∷ short k ∷ []) (short k ∷ []))
    ∙ ap (λ c. (err write_failed, cursor c [] [])) (append_assoc bytes header b)

module _ (codec : Codec) (e : WalEntry) (bs : List WalEntry) (bytes b : Bytes)
    (enc : Encodes codec bs bytes) (numbered : IsNumbered 0 bs) (next : e.seq ≡ length bs + 1)
    (room : length bs + 1 < 2 ^ 64) (m : codec.marshal e ≡ some b) where
  -- The backup's log, with what is ahead of its file.
  abbrev pub log_of : Bytes → List Outcome → ℕ → Log
  log_of content os seq = record { file = cursor content [] os; is_open = true; seq = seq }

  abbrev pub handler : Log → ℕ → InboundHandler
  handler l n = record { wal = l; last_wal_seq = n; accepting = true }

  append_unsynced :
      (k : ℕ)
      → append_replicated codec e (log_of bytes (fine ∷ fine ∷ short k ∷ []) (length bs))
        ≡ (some write_failed, log_of (bytes ++ frame b) [] (length bs))
  unfolding append_replicated replicated_marshalled replicated_written
  append_unsynced k =
      let n : (e.seq == 0) ≡ false = ground (arith, next) in
      rw (n, m, write_record-unsynced bytes b k) refl

  append_again :
      append_replicated codec e (log_of (bytes ++ frame b) [] (length bs))
      ≡ (none, log_of ((bytes ++ frame b) ++ frame b) [] (e.seq))
  unfolding append_replicated replicated_marshalled replicated_written
  append_again =
      let n : (e.seq == 0) ≡ false = ground (arith, next) in
      let up : (if ltb (length bs) e.seq then e.seq else length bs) ≡ e.seq =
        ground (arith, next) in
      rw (n, m, write_record-fine (bytes ++ frame b) b, up) refl

  is_new : leb e.seq (length bs) ≡ false
  is_new = ground (arith, next)

  step : (ltb 0 (length bs) && not (e.seq == u64 (length bs + 1))) ≡ false
  step =
      let n : u64 (length bs + 1) ≡ length bs + 1 = omega (arith, room) in
      let same : (e.seq == length bs + 1) ≡ true = ground (arith, next) in ground (arith, n, same)

  module _ (s : State) (p : Log) (last : ℕ) where
    -- The pair, by the backup; no call is lost.
    abbrev pub pair_with : InboundHandler → Pair
    pair_with h = record { mem = s; wal = p; last_wal_seq = last; backup = h; net = [] }

    send-unsynced :
        (k : ℕ)
        → send codec e (
            pair_with (handler (log_of bytes (fine ∷ fine ∷ short k ∷ []) (length bs)) (length bs)))
          ≡ (
            some write_failed,
            pair_with (handler (log_of (bytes ++ frame b) [] (length bs)) (length bs)),
          )
    unfolding send replicate_by replicate replicate_entry persisted response_error
    send-unsynced k = rw (is_new, step, append_unsynced k) refl

    send-again :
        send codec e (pair_with (handler (log_of (bytes ++ frame b) [] (length bs)) (length bs)))
        ≡ (none, pair_with (handler (log_of ((bytes ++ frame b) ++ frame b) [] (e.seq)) (e.seq)))
    unfolding send replicate_by replicate replicate_entry persisted response_error
    send-again = rw (is_new, step, append_again) refl

    send-confirmed :
        (l : Log)
        → send codec e (pair_with (handler l (e.seq))) ≡ (none, pair_with (handler l (e.seq)))
    unfolding send replicate_by replicate replicate_entry response_error
    send-confirmed l = let known : leb e.seq e.seq ≡ true = ground arith in rw known refl

  module _ (s : State) (p : Log) (last : ℕ) (holds : Holds codec p (bs ++ e ∷ [])) where
    abbrev pub raised : ℕ
    raised = if ltb last e.seq then e.seq else last

    -- The backup behind the retry: the record is in its file twice.
    abbrev pub written_twice : InboundHandler
    written_twice = handler (log_of ((bytes ++ frame b) ++ frame b) [] (e.seq)) (e.seq)

    abbrev unsynced : InboundHandler
    unsynced = handler (log_of (bytes ++ frame b) [] (length bs)) (length bs)

    send_missing-again :
        send_missing codec (length bs) (bs ++ e ∷ []) (pair_with s p last unsynced)
        ≡ (none, pair_with s p raised written_twice)
    unfolding send_missing
    send_missing-again =
        send_missing-skip codec bs (e ∷ []) 0 (length bs) (pair_with s p last unsynced) numbered
          (omega arith)
        ∙ rw (is_new, send-again s p last, send_missing, send-again s p last) refl

    sync_backup_wal-again :
        sync_backup_wal codec (pair_with s p last unsynced)
        ≡ (none, pair_with s p raised written_twice)
    unfolding sync_backup_wal backup_last_wal_seq ping sync_from
    sync_backup_wal-again =
        let reading = read_all-Holds codec p (bs ++ e ∷ []) holds in
        rw (reading, sync_from, reading) send_missing-again

    pub twice_held : Holds codec (written_twice.wal) ((bs ++ e ∷ []) ++ e ∷ [])
    twice_held =
        let ne : e.seq ≢ 0 = λ z. absurd (omega (arith, next, z)) in
        let front : max_seq 0 bs ≡ length bs =
          max_seq-numbered 0 bs numbered ∙ zero-add (length bs) in
        let one : max_seq 0 (bs ++ e ∷ []) ≡ e.seq =
          max_seq-snoc 0 bs e ∙ ground (arith, front, next) in
        record {
          bytes = (bytes ++ frame b) ++ frame b;
          at_end = refl;
          encodes =
              Encodes-snoc codec (bs ++ e ∷ []) (bytes ++ frame b) e b
                (Encodes-snoc codec bs bytes e b enc m ne) m ne;
          is_open = refl;
          seq = sym (max_seq-snoc 0 (bs ++ e ∷ []) e ∙ ground (arith, one));
        }

    -- The first call fails, the retry finds the backup one entry behind and sends it again, and no error
    -- is returned.
    pub replicate_with_retry-twice :
        (k : ℕ)
        → replicate_with_retry codec e (
            pair_with s p last
              (handler (log_of bytes (fine ∷ fine ∷ short k ∷ []) (length bs)) (length bs)))
          ≡ (none, pair_with s p raised written_twice)
    unfolding replicate_with_retry retry_failed retry_synced
    replicate_with_retry-twice k =
        rw (send-unsynced s p last k, sync_backup_wal-again)
          (send-confirmed s p raised (written_twice.wal))
