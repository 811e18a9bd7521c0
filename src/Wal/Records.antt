-- ===== src/Wal/Records.antt =====
-- The bytes of a list of entries, and that reading takes them apart again.
use native.Mathlib.Nat.{add-zero, zero-add, suc-add}
use snowcast.Prelude.{
  ℕ, suc, ◌+◌, ◌%◌, ◌^◌, ◌<◌, ◌≡◌, ◌≢◌, ◌∙◌, some, true, false, List, [], ◌∷◌, ◌++◌, arith, length,
  length-append, take-append, drop-append, append_assoc, append-nil, leb, ◌==◌,
}
use snowcast.Run.{Result, ok, err}
use snowcast.Protocol.{WalEntry, Error, eof, unexpected_eof}
use snowcast.Wal.File.{Bytes, Outcome, File, read_full, put_uint32, uint32}
use snowcast.Wal.Log.{Codec, prepend, read_entry, read_records}

-- A length and the message behind it.
abbrev pub frame : Bytes → Bytes
frame b = put_uint32 (length b % 2 ^ 32) ++ b

-- The file between what was read and what comes.
abbrev pub cursor : Bytes → Bytes → List Outcome → File
cursor before after os = record { content = before ++ after; pos = length before; outcomes = os }

pub uint32-put_uint32 : (n : ℕ) → n < 2 ^ 32 → uint32 (put_uint32 n) ≡ n
unfolding uint32 put_uint32
uint32-put_uint32 n h = omega arith

pub cursor-append :
    (a b c : Bytes) (os : List Outcome)
    → record (cursor a (b ++ c) os) { pos = length a + length b } ≡ cursor (a ++ b) c os
cursor-append a b c os = rw (append_assoc, length-append)

pub read_full-cursor :
    (pre a b : Bytes) (os : List Outcome)
    → read_full (length a) (cursor pre (a ++ b) os) ≡ (ok a, cursor (pre ++ a) b os)
unfolding read_full
read_full-cursor pre a b os =
    let fits : leb (length a) (length (a ++ b)) ≡ true = ground (arith, length-append a b) in
    rw (drop-append pre (a ++ b), fits, take-append a b, cursor-append pre a b os)

pub read_full-end :
    (n : ℕ) (pre : Bytes) (os : List Outcome)
    → 0 < n
    → read_full n (cursor pre [] os) ≡ (err eof, cursor pre [] os)
unfolding read_full
read_full-end n pre os h =
    let beyond : leb n 0 ≡ false = ground arith in
    rw (drop-append pre [], beyond, add-zero (length pre))

-- The read of too few bytes, but some.
pub read_full-torn :
    (n : ℕ) (pre : Bytes) (x : ℕ) (xs : Bytes) (os : List Outcome)
    → suc (length xs) < n
    → read_full n (cursor pre (x ∷ xs) os)
      ≡ (err unexpected_eof, record (cursor pre (x ∷ xs) os) { pos = length pre + suc (length xs) })
unfolding read_full
read_full-torn n pre x xs os h =
    let beyond : leb n (suc (length xs)) ≡ false = ground arith in
    rw (drop-append pre (x ∷ xs), beyond)

pub read_header-frame :
    (n : ℕ) (pre rest : Bytes) (os : List Outcome)
    → read_full 4 (cursor pre (put_uint32 n ++ rest) os)
      ≡ (ok (put_uint32 n), cursor (pre ++ put_uint32 n) rest os)
read_header-frame n pre rest os = unfold put_uint32 in read_full-cursor pre (put_uint32 n) rest os

abbrev pub prepend_all :
    List WalEntry → Result Error (List WalEntry) × File → Result Error (List WalEntry) × File
prepend_all [] r = r
prepend_all (e ∷ es) r = prepend e (prepend_all es r)

module _ (codec : Codec) where
  open codec use {marshal, unmarshal, unmarshal-marshal, marshal-nonempty, marshal-lt}

  -- The bytes that hold these entries, all of them numbered.
  abbrev pub Encodes : List WalEntry → Bytes → Type 0
  Encodes [] bytes = bytes ≡ []
  Encodes (e ∷ es) bytes =
      (b : Bytes) × (rest : Bytes) × (marshal e ≡ some b)
      × (e.seq ≢ 0)
      × Encodes es rest
      × (bytes ≡ frame b ++ rest)

  -- One framed entry is one round of the loop.
  read_records-frame :
      (k : ℕ) (e : WalEntry) (b pre rest : Bytes) (os : List Outcome)
      → marshal e ≡ some b
      → e.seq ≢ 0
      → read_records codec (suc k) (cursor pre (frame b ++ rest) os)
        ≡ prepend e (read_records codec k (cursor (pre ++ frame b) rest os))
  unfolding read_records
  read_records-frame k e b pre rest os m ne =
      let size = length b % 2 ^ 32 in
      let fits : size ≡ length b = omega (arith, marshal-lt e b m) in
      let some_bytes : (length b == 0) ≡ false = ground (arith, marshal-nonempty e b m ne) in
      let number : uint32 (put_uint32 size) ≡ length b =
        uint32-put_uint32 size (omega arith) ∙ fits in
      rw
        (
          append_assoc,
          read_header-frame size pre (b ++ rest) os,
          number,
          some_bytes,
          read_full-cursor (pre ++ put_uint32 size) b rest os,
          unmarshal-marshal e b m,
          read_entry,
        )
        (simp append_assoc)

  -- The entries are read in order, and the loop goes on with what stands behind them.
  pub read_records-Encodes :
      (es : List WalEntry) (bytes pre rest : Bytes) (os : List Outcome) (k : ℕ)
      → Encodes es bytes
      → read_records codec (length es + k) (cursor pre (bytes ++ rest) os)
        ≡ prepend_all es (read_records codec k (cursor (pre ++ bytes) rest os))
  read_records-Encodes [] bytes pre rest os k nothing = rw (nothing, zero-add, append-nil)
  read_records-Encodes (e ∷ es) bytes pre rest os k (b, more, m, ne, enc, eq) =
      rw
        (
          eq,
          suc-add,
          append_assoc (frame b) more rest,
          read_records-frame (length es + k) e b pre (more ++ rest) os m ne,
        )
        (rw (read_records-Encodes es more (pre ++ frame b) rest os k enc) (simp append_assoc))
