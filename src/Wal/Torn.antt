-- ===== src/Wal/Torn.antt =====
-- A record that was cut off: what a crash, or a write that fails halfway, leaves in the file.
use mathlib.Core.Path.{ap₂}
use snowcast.Prelude.{
  ◌==◌, ℕ, suc, ◌+◌, ◌-◌, ◌^◌, ◌<◌, ◌≡◌, ap, ◌∙◌, false, List, [], ◌∷◌, ◌++◌, arith, length,
  append_assoc, length-append,
}
use snowcast.Run.{Result, ok, err}
use snowcast.Protocol.{WalEntry, Error}
use snowcast.Wal.File.{Bytes, Outcome, File, put_uint32, read_full, seek_start}
use snowcast.Wal.Log.{
  Codec, Log, read_all, read_records, read_header, read_entry, prepend, recovered, open_log,
}
use snowcast.Wal.Records.{
  cursor, Encodes, prepend_all, read_full-end, read_full-torn, read_header-frame,
  read_records-Encodes, uint32-put_uint32,
}
use snowcast.Wal.Holds.{length-Encodes}

abbrev pub IsErr : {A : Type 0} → Result Error A → Type 0
IsErr (ok a) = ⊥
IsErr (err x) = Unit

prepend-IsErr :
    (e : WalEntry) (r : Result Error (List WalEntry) × File) → IsErr r.0 → IsErr (prepend e r).0
unfolding prepend
prepend-IsErr e (err x, f) h = tt
prepend-IsErr e (ok es, f) h = absurd h

prepend_all-IsErr :
    (es : List WalEntry) (r : Result Error (List WalEntry) × File)
    → IsErr r.0
    → IsErr (prepend_all es r).0
prepend_all-IsErr [] r h = h
prepend_all-IsErr (e ∷ es) r h = prepend-IsErr e (prepend_all es r) (prepend_all-IsErr es r h)

recovered-IsErr : (r : Result Error (List WalEntry) × Log) → IsErr r.0 → IsErr (recovered r)
unfolding recovered
recovered-IsErr (err x, l) h = tt
recovered-IsErr (ok es, l) h = absurd h

module _ (codec : Codec) where
  open codec use {marshal, marshal-lt}

  read_entry-torn :
      (k : ℕ) (pre b tail : Bytes) (os : List Outcome)
      → length tail < length b
      → IsErr
          (read_entry codec
            (λ g. read_records codec k g)
            (read_full (length b) (cursor pre tail os))).0
  unfolding read_entry
  read_entry-torn k pre b [] os short = rw (read_full-end (length b) pre os short) tt
  read_entry-torn k pre b (x ∷ xs) os short = rw (read_full-torn (length b) pre x xs os short) tt

  -- The header of a message, and fewer bytes than it announces.
  read_records-torn :
      (k : ℕ) (pre b tail : Bytes) (os : List Outcome)
      → length tail < length b
      → length b < 2 ^ 31
      → IsErr (read_records codec (suc k) (cursor pre (put_uint32 (length b) ++ tail) os)).0
  unfolding read_records read_header
  read_records-torn k pre b tail os short fits =
      let some_bytes : (length b == 0) ≡ false = ground arith in
      rw
        (
          read_header-frame (length b) pre tail os,
          uint32-put_uint32 (length b) (omega arith),
          some_bytes,
        )
        (read_entry-torn k (pre ++ put_uint32 (length b)) b tail os short)

  -- A file that ends in the header of a record and fewer bytes than it announces cannot be opened,
  -- whatever complete records stand before it.
  pub open_log-torn :
      (es : List WalEntry) (bytes b tail : Bytes) (os : List Outcome)
      → Encodes codec es bytes
      → length tail < length b
      → length b < 2 ^ 31
      → IsErr (open_log codec (bytes ++ put_uint32 (length b) ++ tail) os)
  unfolding open_log read_all seek_start
  open_log-torn es bytes b tail os enc short fits =
      let content = bytes ++ put_uint32 (length b) ++ tail in
      let j = length content - length es in
      let rounds : suc (length content) ≡ length es + suc j = omega (
        arith,
        length-Encodes codec es bytes enc,
        length-append {0} bytes (put_uint32 (length b)),
        length-append {0} (bytes ++ put_uint32 (length b)) tail,
      ) in
      let bad = read_records-torn j bytes b tail os short fits in
      let all =
        ap₂ (read_records codec) rounds
          (ap (λ c. cursor [] c os) (append_assoc bytes (put_uint32 (length b)) tail))
        ∙ read_records-Encodes codec es bytes [] (put_uint32 (length b) ++ tail) os (suc j) enc in
      recovered-IsErr _ (rw all (prepend_all-IsErr es _ bad))
