-- ===== src/Replication/Server.antt =====
-- internal/replication/server.go: the handler of the backup's replication server. Each method holds
-- the handler's mutex from its first read to its return, so it is one step.
use snowcast.Prelude.{
  ℕ, ◌+◌, Bool, true, false, Option, none, some, ltb, leb, ◌&&◌, not, ◌==◌, if◌then◌else◌,
}
use snowcast.Protocol.{
  WalEntry, ReplicateResponse, Error, missing_entry, replication_stopped, expected_seq,
}
use snowcast.Wal.Log.{Codec, Log, append_replicated, last_seq, u64}

pub record InboundHandler : Type 0 where
  pub wal : Log
  pub last_wal_seq : ℕ  -- uint64
  pub accepting : Bool

abbrev pub accepted : ℕ → ReplicateResponse
accepted n = record { seq = n; ok = true; error = none }

abbrev pub rejected : ℕ → Error → ReplicateResponse
rejected n e = record { seq = n; ok = false; error = some e }

-- The part of `StartReplServer` behind a listener that was opened.
unfoldable pub start_repl_server : Log → InboundHandler
start_repl_server w = record { wal = w; last_wal_seq = last_seq w; accepting = true }

unfoldable pub graceful_stop : InboundHandler → InboundHandler
graceful_stop h = record h { accepting = false }

-- What `Replicate` does with the outcome of `AppendReplicated`.
unfoldable pub persisted :
    ℕ → InboundHandler → Option Error × Log → ReplicateResponse × InboundHandler
persisted n h (none, l) = (accepted n, record h { wal = l; last_wal_seq = n })
persisted n h (some e, l) = (rejected n e, record h { wal = l })

unfoldable pub replicate_entry :
    Codec → WalEntry → InboundHandler → ReplicateResponse × InboundHandler
unfolding persisted
replicate_entry codec entry h =
    if not h.accepting
    then (rejected 0 replication_stopped, h)
    else if leb entry.seq h.last_wal_seq
    then (accepted entry.seq, h)
    else if ltb 0 h.last_wal_seq && not (entry.seq == u64 (h.last_wal_seq + 1))
    then (rejected entry.seq (expected_seq (u64 (h.last_wal_seq + 1)) entry.seq), h)
    else persisted entry.seq h (append_replicated codec entry h.wal)

-- `Replicate`; `none` is a request with no entry.
unfoldable pub replicate :
    Codec → Option WalEntry → InboundHandler → ReplicateResponse × InboundHandler
unfolding replicate_entry
replicate codec none h = (rejected 0 missing_entry, h)
replicate codec (some entry) h = replicate_entry codec entry h

-- `Ping`.
unfoldable pub ping : InboundHandler → ℕ
ping h = h.last_wal_seq
