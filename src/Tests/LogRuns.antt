-- ===== src/Tests/LogRuns.antt =====
-- The theorems on the log, applied to a log with one entry.
use snowcast.Prelude.{◌≡◌, refl, false, [], ◌∷◌, ◌++◌, length, append-nil, arith}
use snowcast.Run.{ok}
use snowcast.Protocol.{WalEntry, disconnect}
use snowcast.Wal.File.{put_uint32}
use snowcast.Wal.Log.{Log, read_all, open_log}
use snowcast.Wal.Records.{frame, Encodes}
use snowcast.Wal.Holds.{Holds}
use snowcast.Wal.Highest.{IsHighest, open_log-IsHighest}
use snowcast.Wal.Fuel.{ran_out, read_all-ends}
use snowcast.Wal.Torn.{IsErr, open_log-torn}
use snowcast.Tests.Server.{host}
use snowcast.Tests.Journal.{plain, joining, joining_bytes, journal}

abbrev pub leaving : WalEntry
leaving = record { seq = 2; op = disconnect (record { client_ip = host; udp_port = 5000 }) }

journal-Encodes : Encodes plain (joining ∷ []) (frame joining_bytes)
journal-Encodes = (joining_bytes, [], refl, ground arith, refl, rw append-nil refl)

open_log-IsHighest_example :
    (l : Log) × (open_log plain (frame joining_bytes) [] ≡ ok l)
    × Holds plain l (joining ∷ [])
    × IsHighest l.seq (joining ∷ [])
open_log-IsHighest_example =
    open_log-IsHighest plain (joining ∷ []) (frame joining_bytes) [] journal-Encodes

open_log-torn_example : IsErr (
    open_log plain
      (frame joining_bytes ++ put_uint32 (length (2 ∷ 3 ∷ 5000 ∷ host)) ++ 2 ∷ 3 ∷ [])
      [])
open_log-torn_example =
    open_log-torn plain (joining ∷ []) (frame joining_bytes) (2 ∷ 3 ∷ 5000 ∷ host) (2 ∷ 3 ∷ []) []
      journal-Encodes (omega arith) (omega arith)

read_all-ends_example : ran_out (read_all plain journal).0 ≡ false
read_all-ends_example = read_all-ends plain journal
