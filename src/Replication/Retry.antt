-- ===== src/Replication/Retry.antt =====
-- `syncBackupWal` and `replicateWithRetry` on a pair whose backup holds a prefix of the primary's log.
use mathlib.Core.Path.{subst}
use native.Mathlib.Nat.{zero-add}
use snowcast.Prelude.{
  ℕ, ◌+◌, ◌^◌, ◌≤◌, ◌<◌, ◌≡◌, refl, ap, sym, ◌∙◌, ◌⊎◌, inr, Option, none, some, List, [], ◌∷◌, ◌++◌,
  arith, length, length-append, append-nil,
}
use snowcast.Run.{ok, err}
use snowcast.Protocol.{WalEntry, Error, rpc_failed}
use snowcast.Wal.Log.{Codec, read_all}
use snowcast.Wal.Holds.{Holds, read_all-Holds}
use snowcast.Replication.Server.{ping}
use snowcast.Replication.Coordinator.{
  Delivery, delivered, request_lost, reply_lost, Pair, deliver, drop_call, send,
  backup_last_wal_seq, send_missing, sync_from, sync_backup_wal, replicate_with_retry, retry_synced,
  retry_failed,
}
use snowcast.Replication.Backup.{
  IsNumbered, IsNumbered-append, Follows, replicate-old, replicate-gap, Ahead, Ahead-here,
  IsEncodable, IsEncodable-Encodes, IsEncodable-append,
}
use snowcast.Replication.Catchup.{
  Kept, Sent, Sent-earlier, send-accepted, send-rejected, send-next, send_missing-Sent,
  send_missing-skip,
}

-- The primary's log holds `es`, numbered from 1, and the backup holds the prefix `bs` of it, accepts calls
-- and has no failing write or sync ahead.
pub record InSync (codec : Codec) (w : Pair) (es bs rest : List WalEntry) : Type 0 where
  pub primary : Holds codec w.wal es
  pub numbered : IsNumbered 0 es
  pub split : es ≡ bs ++ rest
  pub backup : Follows codec bs w.backup
  pub room : length es < 2 ^ 64

last_of : WalEntry → List WalEntry → WalEntry
last_of d [] = d
last_of d (e ∷ es) = last_of e es

last_of-snoc : (d e : WalEntry) (es : List WalEntry) → last_of d (es ++ e ∷ []) ≡ e
unfolding last_of
last_of-snoc d e [] = refl
last_of-snoc d e (x ∷ es) = last_of-snoc x e es

module _ (codec : Codec) where
  synced :
      (w : Pair) (es bs rest : List WalEntry)
      → InSync codec w es bs rest
      → Sent codec es bs w (send_missing codec (length bs) es w)
  synced w es bs rest i =
      let parts = IsNumbered-append 0 bs rest (subst (IsNumbered 0) i.split i.numbered) in
      let late : IsNumbered (length bs) rest =
        subst (λ n. IsNumbered n rest) (zero-add (length bs)) parts.1 in
      let codes = IsEncodable-append codec bs rest (
        subst (IsEncodable codec) i.split
          (IsEncodable-Encodes codec es i.primary.bytes i.primary.encodes)) in
      subst (λ fs. Sent codec fs bs w (send_missing codec (length bs) fs w)) (sym i.split)
        (subst (Sent codec (bs ++ rest) bs w)
          (sym (send_missing-skip codec bs rest 0 (length bs) w parts.0 (omega arith)))
          (send_missing-Sent codec rest bs (length bs) w i.backup late codes.1
            (omega (arith, i.room, ap length i.split, length-append bs rest)) (omega arith)))

  sync_from-ok :
      (n : ℕ) (w : Pair) (es : List WalEntry)
      → read_all codec w.wal ≡ (ok es, w.wal)
      → sync_from codec (ok n, w) ≡ send_missing codec n es w
  unfolding sync_from
  sync_from-ok n w es reading = rw (reading, sync_from, reading)

  -- On such a pair, whatever the fate of the calls, syncBackupWal without an error leaves the backup with all
  -- entries of the primary's log, and with an error with a prefix that is no shorter than before;
  -- the primary's state and log are untouched.
  pub sync_backup_wal-Sent :
      (w : Pair) (es bs rest : List WalEntry)
      → InSync codec w es bs rest
      → Sent codec es bs w (sync_backup_wal codec w)
  unfolding sync_backup_wal backup_last_wal_seq ping
  sync_backup_wal-Sent w es bs rest i = by_fate (deliver w.net)
    where
      called : Pair
      called = record w { net = drop_call w.net }

      by_fate :
          (d : Delivery)
          → Sent codec es bs w (
              sync_from codec
                (elim d [ delivered ↦ ok (w.backup.last_wal_seq) | _ ↦ err rpc_failed ], called))
      by_fate delivered =
          let n = i.backup.last in
          let run =
            sync_from-ok (w.backup.last_wal_seq) called es
              (read_all-Holds codec w.wal es i.primary) in
          Sent-earlier codec es bs bs [] w called _ (rw append-nil)
            (record { mem = refl; wal = refl })
            (subst (Sent codec es bs called)
              (sym (run ∙ ap (λ k. send_missing codec k es called) n))
              (synced called es bs rest (record {
                primary = i.primary;
                numbered = i.numbered;
                split = i.split;
                backup = i.backup;
                room = i.room;
              })))
      by_fate request_lost =
          unfold sync_from in
          (record { mem = refl; wal = refl }, Ahead-here codec rest i.split i.backup)
      by_fate reply_lost =
          unfold sync_from in
          (record { mem = refl; wal = refl }, Ahead-here codec rest i.split i.backup)

  -- The last entry has the highest number, and a message.
  last-seq :
      (e : WalEntry) (front es : List WalEntry)
      → IsNumbered 0 es
      → es ≡ front ++ e ∷ []
      → (e.seq ≡ length es) × (length es ≡ length front + 1)
  last-seq e front es numbered end =
      let parts = IsNumbered-append 0 front (e ∷ []) (subst (IsNumbered 0) end numbered) in
      let size = ap length end ∙ length-append front (e ∷ []) in
      (omega (arith, parts.1.0, size), omega (arith, size))

  -- The call for the last entry, where the backup lacks no other or rejects what is ahead of it.
  send-last :
      (e : WalEntry) (front es bs rest : List WalEntry) (w : Pair)
      → InSync codec w es bs rest
      → es ≡ front ++ e ∷ []
      → (0 < length bs) ⊎ (length es ≤ length bs + 1)
      → Sent codec es bs w (send codec e w)
  send-last e front es bs [] w i end near =
      let same : es ≡ bs = i.split ∙ append-nil bs in
      let seq = (last-seq e front es i.numbered end).0 in
      send-accepted codec es bs [] e w (w.backup) i.split i.backup
        (replicate-old codec e bs (w.backup) i.backup (omega (arith, ap length same, seq)))
        (subst (λ fs. Follows codec fs w.backup) (sym same) i.backup)
  send-last e front es bs (x ∷ []) w i end near =
      let last : x ≡ e =
        sym (last_of-snoc e x bs) ∙ ap (last_of e) (sym i.split ∙ end) ∙ last_of-snoc e e front in
      let whole : es ≡ bs ++ e ∷ [] = i.split ∙ ap (λ y. bs ++ y ∷ []) last in
      let seq = (last-seq e front es i.numbered end).0 in
      let size = ap length i.split ∙ length-append bs (x ∷ []) in
      let codes = IsEncodable-Encodes codec es i.primary.bytes i.primary.encodes in
      subst (λ fs. Sent codec fs bs w (send codec e w)) (sym whole)
        (send-next codec e bs w i.backup (omega (arith, seq, size)) (omega (arith, i.room, size))
          (IsEncodable-append codec front (e ∷ []) (subst (IsEncodable codec) end codes)).1.0)
  send-last e front es bs (x ∷ y ∷ rest) w i end near =
      let seq = (last-seq e front es i.numbered end).0 in
      let size = ap length i.split ∙ length-append bs (x ∷ y ∷ rest) in
      let (why, reply) =
        replicate-gap codec e bs (w.backup) i.backup (omega (arith, seq, size))
          (omega (arith, near, size)) (omega (arith, i.room, size)) in
      send-rejected codec es bs (x ∷ y ∷ rest) e w why i.split i.backup reply

  -- What is known after calls that did not bring the backup to the end.
  pub InSync-Ahead :
      {w w' : Pair} {es bs rest : List WalEntry}
      → InSync codec w es bs rest
      → Kept w w'
      → (a : Ahead codec es bs w'.backup) → InSync codec w' es (bs ++ a.more) a.rest
  InSync-Ahead {es} i k a = record {
    primary = subst (λ l. Holds codec l es) (sym k.wal) i.primary;
    numbered = i.numbered;
    split = a.split;
    backup = a.follows;
    room = i.room;
  }

  pub InSync-all :
      {w w' : Pair} {es bs rest : List WalEntry}
      → InSync codec w es bs rest
      → Kept w w'
      → Follows codec es w'.backup
      → InSync codec w' es es []
  InSync-all {es} i k f = record {
    primary = subst (λ l. Holds codec l es) (sym k.wal) i.primary;
    numbered = i.numbered;
    split = sym (append-nil es);
    backup = f;
    room = i.room;
  }

  module _ (e : WalEntry) (front es : List WalEntry) (end : es ≡ front ++ e ∷ []) where
    retry_synced-Sent :
        (bs rest : List WalEntry) (w : Pair) (r : Option Error × Pair)
        → InSync codec w es bs rest
        → Sent codec es bs w r
        → Sent codec es bs w (retry_synced codec e r)
    unfolding retry_synced
    retry_synced-Sent bs rest w (some x, v) i s = s
    retry_synced-Sent bs rest w (none, v) i s =
        Sent-earlier codec es es bs rest w v (send codec e v) i.split s.0
          (send-last e front es es [] v (InSync-all i s.0 s.1) end (inr (omega arith)))

    retry_failed-Sent :
        (bs rest : List WalEntry) (w : Pair) (r : Option Error × Pair)
        → InSync codec w es bs rest
        → Sent codec es bs w r
        → Sent codec es bs w (retry_failed codec e r)
    unfolding retry_failed
    retry_failed-Sent bs rest w (none, v) i s = s
    retry_failed-Sent bs rest w (some x, v) i s =
        let j = InSync-Ahead i s.0 s.1 in
        Sent-earlier codec es (bs ++ s.1.more) bs (s.1.more) w v _ refl s.0 (
          retry_synced-Sent (bs ++ s.1.more) (s.1.rest) v (sync_backup_wal codec v) j
            (sync_backup_wal-Sent v es (bs ++ s.1.more) (s.1.rest) j))

    -- For the last entry of the primary's log, where the backup accepts calls and no write or sync
    -- of its file fails, whatever the fate of the calls: the state and the log of the primary are
    -- untouched; without an error the backup holds the whole log, and with one it holds a prefix
    -- that is no shorter than before. The backup held a prefix that is not empty or lacked only
    -- this entry.
    pub replicate_with_retry-Sent :
        (bs rest : List WalEntry) (w : Pair)
        → InSync codec w es bs rest
        → (0 < length bs) ⊎ (length es ≤ length bs + 1)
        → Sent codec es bs w (replicate_with_retry codec e w)
    unfolding replicate_with_retry
    replicate_with_retry-Sent bs rest w i near =
        retry_failed-Sent bs rest w (send codec e w) i (send-last e front es bs rest w i end near)
