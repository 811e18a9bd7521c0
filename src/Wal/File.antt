-- ===== src/Wal/File.antt =====
-- The `os.File` behind the log: a content, the cursor that reads and writes share, and what the
-- system makes of the coming writes and syncs.
use snowcast.Prelude.{
  ℕ, ◌+◌, ◌*◌, ◌/◌, ◌%◌, ◌^◌, List, [], ◌∷◌, ◌++◌, length, take, drop, leb, if◌then◌else◌,
}
use snowcast.Run.{Result, ok, err}
use snowcast.Protocol.{Error, write_failed, eof, unexpected_eof}

abbrev pub Bytes : Type 0
Bytes = List ℕ

-- A call that works, and one that fails after so many bytes.
pub data Outcome : Type 0 where
  fine : Outcome
  short : ℕ → Outcome

-- `outcomes` is what the environment does to the next calls of `Write` and `Sync`; all work when it
-- has run out. Reads and seeks fail only at the end of the file.
pub record File : Type 0 where
  pub content : Bytes
  pub pos : ℕ
  pub outcomes : List Outcome

-- The bytes from the cursor on are overwritten.
abbrev pub put_bytes : Bytes → List Outcome → File → File
put_bytes b rest f = record {
  content = take f.pos f.content ++ b ++ drop (f.pos + length b) f.content;
  pos = f.pos + length b;
  outcomes = rest;
}

unfoldable pub write_outcome : List Outcome → Bytes → File → Result Error (Unit {0}) × File
write_outcome [] b f = (ok tt, put_bytes b [] f)
write_outcome (fine ∷ os) b f = (ok tt, put_bytes b os f)
write_outcome (short k ∷ os) b f = (err write_failed, put_bytes (take k b) os f)

unfoldable pub write : Bytes → File → Result Error (Unit {0}) × File
unfolding write_outcome
write b f = write_outcome f.outcomes b f

unfoldable pub sync_outcome : List Outcome → File → Result Error (Unit {0}) × File
sync_outcome [] f = (ok tt, f)
sync_outcome (fine ∷ os) f = (ok tt, record f { outcomes = os })
sync_outcome (short k ∷ os) f = (err write_failed, record f { outcomes = os })

unfoldable pub sync : File → Result Error (Unit {0}) × File
unfolding sync_outcome
sync f = sync_outcome f.outcomes f

unfoldable pub seek_start : File → File
seek_start f = record f { pos = 0 }

-- `io.ReadFull` into a buffer of `n > 0` bytes.
unfoldable pub read_full : ℕ → File → Result Error Bytes × File
read_full n f =
    let rest = drop f.pos f.content in
    if leb n (length rest) then (ok (take n rest), record f { pos = f.pos + n }) else (
      err (elim rest [ [] ↦ eof | b ∷ bs ↦ unexpected_eof ]),
      record f { pos = f.pos + length rest },
    )

-- `binary.BigEndian.PutUint32` and `Uint32`.
unfoldable pub put_uint32 : ℕ → Bytes
put_uint32 n = (n / 2 ^ 24 % 256) ∷ (n / 2 ^ 16 % 256) ∷ (n / 2 ^ 8 % 256) ∷ (n % 256) ∷ []

unfoldable pub uint32 : Bytes → ℕ
uint32 (a ∷ b ∷ c ∷ d ∷ rest) = a * 2 ^ 24 + b * 2 ^ 16 + c * 2 ^ 8 + d
uint32 _ = 0
