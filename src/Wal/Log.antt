-- ===== src/Wal/Log.antt =====
-- The type `Log` of pkg/wal/wal.go and its methods. Protocol buffers are a parameter.
use snowcast.Prelude.{
  ℕ, zero, suc, ◌+◌, ◌-◌, ◌%◌, ◌^◌, ◌<◌, ◌≡◌, ◌≢◌, Bool, true, false, Option, none, some, List, [],
  ◌∷◌, length, ltb, ◌==◌, if◌then◌else◌,
}
use snowcast.Run.{Result, ok, err}
use snowcast.Protocol.{
  WalEntry, Error, eof, file_closed, marshal_failed, unmarshal_failed, invalid_record_size,
  missing_seq, out_of_fuel,
}
use snowcast.Wal.File.{Bytes, Outcome, File, write, sync, seek_start, read_full, put_uint32, uint32}

-- `proto.Marshal` and `proto.Unmarshal` at `WalEntry`, with what their documentation promises: what
-- is marshalled reads back, a field that is not zero takes room, and a message is below 2 GiB.
pub record Codec : Type 0 where
  pub marshal : WalEntry → Option Bytes
  pub unmarshal : Bytes → Option WalEntry
  pub unmarshal-marshal : (e : WalEntry) (b : Bytes) → marshal e ≡ some b → unmarshal b ≡ some e
  pub marshal-nonempty : (e : WalEntry) (b : Bytes) → marshal e ≡ some b → e.seq ≢ 0 → 0 < length b
  pub marshal-lt : (e : WalEntry) (b : Bytes) → marshal e ≡ some b → length b < 2 ^ 31

-- `is_open` is `l.file != nil`; the file itself outlives the handle.
pub record Log : Type 0 where
  pub file : File
  pub is_open : Bool
  pub seq : ℕ  -- uint64

abbrev pub u64 : ℕ → ℕ
u64 n = n % 2 ^ 64

-- The two writes and the sync, the same in `Append` and `AppendReplicated`. The methods of a nil
-- `*os.File` return an error.
unfoldable pub write_data : Bytes → Result Error (Unit {0}) × File → Result Error (Unit {0}) × File
write_data b (err e, f) = (err e, f)
write_data b (ok _, f) = write b f

unfoldable pub write_sync : Result Error (Unit {0}) × File → Result Error (Unit {0}) × File
write_sync (err e, f) = (err e, f)
write_sync (ok _, f) = sync f

unfoldable pub write_record : Bytes → Bool → File → Result Error (Unit {0}) × File
unfolding write_data write_sync
write_record b false f = (err file_closed, f)
write_record b true f = write_sync (write_data b (write (put_uint32 (length b % 2 ^ 32)) f))

unfoldable pub prepend :
    WalEntry → Result Error (List WalEntry) × File → Result Error (List WalEntry) × File
prepend e (ok es, f) = (ok (e ∷ es), f)
prepend e (err x, f) = (err x, f)

unfoldable pub last_seq : Log → ℕ
last_seq l = l.seq

-- The loop of `recoverSeq`.
unfoldable pub max_seq : ℕ → List WalEntry → ℕ
max_seq n [] = n
max_seq n (e ∷ es) = max_seq (if ltb n e.seq then e.seq else n) es

unfoldable pub recovered : Result Error (List WalEntry) × Log → Result Error Log
unfolding max_seq
recovered (err e, l) = err e
recovered (ok es, l) = ok (record l { seq = max_seq l.seq es })

unfoldable pub close : Log → Log
close l = record l { is_open = false }

-- `entry` comes back with its number, as `entry.Seq` is assigned in place.
unfoldable pub append_written : ℕ → Log → Result Error (Unit {0}) × File → Result Error ℕ × Log
append_written seq l (ok _, f) = (ok seq, record l { file = f; seq = seq })
append_written seq l (err e, f) = (err e, record l { file = f; seq = u64 (seq + 2 ^ 64 - 1) })

unfoldable pub append_marshalled : ℕ → Log → Option Bytes → Result Error ℕ × Log
unfolding append_written
append_marshalled seq l none = (err marshal_failed, record l { seq = u64 (seq + 2 ^ 64 - 1) })
append_marshalled seq l (some b) = append_written seq l (write_record b l.is_open l.file)

unfoldable pub replicated_written : ℕ → Log → Result Error (Unit {0}) × File → Option Error × Log
replicated_written seq l (ok _, f) =
    (none, record l { file = f; seq = if ltb l.seq seq then seq else l.seq })
replicated_written seq l (err e, f) = (some e, record l { file = f })

unfoldable pub replicated_marshalled : ℕ → Log → Option Bytes → Option Error × Log
unfolding replicated_written
replicated_marshalled seq l none = (some marshal_failed, l)
replicated_marshalled seq l (some b) = replicated_written seq l (write_record b l.is_open l.file)

module _ (codec : Codec) where
  open codec use {marshal, unmarshal}

  unfoldable pub append : WalEntry → Log → Result Error ℕ × Log
  unfolding append_marshalled
  append entry l =
      let seq = u64 (l.seq + 1) in append_marshalled seq l (marshal (record entry { seq = seq }))

  unfoldable pub append_replicated : WalEntry → Log → Option Error × Log
  unfolding replicated_marshalled
  append_replicated entry l =
      if entry.seq == 0
      then (some missing_seq, l)
      else replicated_marshalled entry.seq l (marshal entry)

  -- One round of the loop of `readAllUnlocked`, with what follows as a function of the file.
  unfoldable pub read_entry :
      (File → Result Error (List WalEntry) × File)
      → Result Error Bytes × File
      → Result Error (List WalEntry) × File
  unfolding prepend
  read_entry next (err e, f) = (err e, f)
  read_entry next (ok b, f) = elim (unmarshal b) [
    | none ↦ (err unmarshal_failed, f)
    | some e ↦ prepend e (next f)
  ]

  unfoldable pub read_header :
      (File → Result Error (List WalEntry) × File)
      → Result Error Bytes × File
      → Result Error (List WalEntry) × File
  unfolding read_entry
  read_header next (err eof, f) = (ok [], f)
  read_header next (err e, f) = (err e, f)
  read_header next (ok header, f) =
      let size = uint32 header in
      if size == 0 then (err invalid_record_size, f) else read_entry next (read_full size f)

  unfoldable pub read_records : ℕ → File → Result Error (List WalEntry) × File
  unfolding read_header
  read_records zero f = (err out_of_fuel, f)
  read_records (suc k) f = read_header (λ g. read_records k g) (read_full 4 f)

  -- `readAllUnlocked`; each round reads a byte at least.
  unfoldable pub read_all : Log → Result Error (List WalEntry) × Log
  unfolding read_records
  read_all l =
      if l.is_open
      then (let (r, f) = read_records (suc (length l.file.content)) (seek_start l.file) in
          (r, record l { file = f }))
      else (err file_closed, l)

  -- `Open` on a path whose file has this content.
  unfoldable pub open_log : Bytes → List Outcome → Result Error Log
  unfolding recovered
  open_log content outcomes = recovered (
      read_all (record {
        file = record { content = content; pos = 0; outcomes = outcomes };
        is_open = true;
        seq = 0;
      }))
