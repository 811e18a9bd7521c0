-- ===== src/Wal/Holds.antt =====
-- What a log stands for: the list of its entries. Its methods in terms of that list.
use mathlib.Core.Path.{ap₂, subst}
use snowcast.Prelude.{
  ℕ, zero, suc, ◌+◌, ◌-◌, ◌%◌, ◌^◌, ◌≤◌, ◌≡◌, ◌≢◌, refl, ap, sym, ◌∙◌, Bool, true, false, some,
  List, [], ◌∷◌, ◌++◌, arith, length, length-append, drop, take-append, append_assoc, append-nil,
}
use snowcast.Run.{Result, ok, err}
use snowcast.Protocol.{WalEntry, Error}
use snowcast.Wal.File.{
  Bytes, Outcome, fine, short, File, write, sync, put_bytes, put_uint32, seek_start,
}
use snowcast.Wal.Log.{
  Codec, Log, write_record, write_data, write_sync, read_all, read_records, read_header, prepend,
  max_seq, recovered, open_log,
}
use snowcast.Wal.Records.{frame, cursor, Encodes, prepend_all, read_full-end, read_records-Encodes}

prepend_all-nil : (es : List WalEntry) (f : File) → prepend_all es (ok [], f) ≡ (ok es, f)
unfolding prepend
prepend_all-nil [] f = refl
prepend_all-nil (e ∷ es) f = rw (prepend_all-nil es f)

drop-end : (n : ℕ) (xs : Bytes) → length xs ≤ n → drop n xs ≡ []
drop-end zero [] h = refl
drop-end (suc n) [] h = refl
drop-end zero (x ∷ xs) h = absurd (omega arith)
drop-end (suc n) (x ∷ xs) h = drop-end n xs (omega arith)

pub put_bytes-end :
    (bytes b : Bytes) (os rest : List Outcome)
    → put_bytes b rest (cursor bytes [] os) ≡ cursor (bytes ++ b) [] rest
put_bytes-end bytes b os rest =
    rw
      (
        drop-end (length bytes + length b) (bytes ++ [])
            (omega (arith, length-append {0} bytes [])),
        take-append bytes [],
      )
      (simp (length-append, append-nil))

own_outcomes :
    (bytes : Bytes) {os : List Outcome} {f : File}
    → f ≡ cursor bytes [] os
    → f ≡ cursor bytes [] f.outcomes
own_outcomes bytes {os} {f} h = h ∙ ap (cursor bytes []) (sym (ap (λ (g : File). g.outcomes) h))

-- Writes and syncs that report no error.
write-ok :
    (bytes b : Bytes) (os : List Outcome) {f : File}
    → write b (cursor bytes [] os) ≡ (ok tt, f)
    → f ≡ cursor (bytes ++ b) [] f.outcomes
unfolding write
write-ok bytes b [] e =
    own_outcomes (bytes ++ b) (sym (ap (λ r. r.1) e) ∙ put_bytes-end bytes b [] [])
write-ok bytes b (fine ∷ os) e =
    own_outcomes (bytes ++ b) (sym (ap (λ r. r.1) e) ∙ put_bytes-end bytes b (fine ∷ os) os)
write-ok bytes b (short k ∷ os) e = absurd (ground arith)

sync-ok :
    (bytes : Bytes) (os : List Outcome) {f : File}
    → sync (cursor bytes [] os) ≡ (ok tt, f)
    → f ≡ cursor bytes [] f.outcomes
unfolding sync
sync-ok bytes [] e = own_outcomes bytes (sym (ap (λ r. r.1) e))
sync-ok bytes (fine ∷ os) e = own_outcomes bytes (sym (ap (λ r. r.1) e))
sync-ok bytes (short k ∷ os) e = absurd (ground arith)

write_sync-ok :
    (m : Result Error (Unit {0}) × File) {f : File}
    → write_sync m ≡ (ok tt, f)
    → (g : File) × (m ≡ (ok tt, g)) × (sync g ≡ (ok tt, f))
unfolding write_sync
write_sync-ok (ok u, g) e = (g, refl, e)
write_sync-ok (err x, g) e = absurd (ground arith)

write_data-ok :
    (b : Bytes) (m : Result Error (Unit {0}) × File) {f : File}
    → write_data b m ≡ (ok tt, f)
    → (g : File) × (m ≡ (ok tt, g)) × (write b g ≡ (ok tt, f))
unfolding write_data
write_data-ok b (ok u, g) e = (g, refl, e)
write_data-ok b (err x, g) e = absurd (ground arith)

-- A record that was written without an error stands at the end of the file, and nothing else changed.
pub write_record-ok :
    (bytes b : Bytes) (is_open : Bool) (os : List Outcome) {f : File}
    → write_record b is_open (cursor bytes [] os) ≡ (ok tt, f)
    → (is_open ≡ true) × (f ≡ cursor (bytes ++ frame b) [] f.outcomes)
unfolding write_record
write_record-ok bytes b false os e = absurd (ground arith)
write_record-ok bytes b true os {f} e =
    let header = put_uint32 (length b % 2 ^ 32) in
    let (h, written, synced) = write_sync-ok (write_data b (write header (cursor bytes [] os))) e in
    let (g, headed, data_written) = write_data-ok b (write header (cursor bytes [] os)) written in
    let at_g = write-ok bytes header os headed in
    let at_h = write-ok (bytes ++ header) b g.outcomes (ap (write b) (sym at_g) ∙ data_written) in
    let at_f = sync-ok ((bytes ++ header) ++ b) h.outcomes (ap sync (sym at_h) ∙ synced) in
    (refl, at_f ∙ ap (λ c. cursor c [] f.outcomes) (append_assoc bytes header b))

write-fine : (bytes b : Bytes) → write b (cursor bytes [] []) ≡ (ok tt, cursor (bytes ++ b) [] [])
unfolding write
write-fine bytes b = λ i. (ok tt, put_bytes-end bytes b [] [] i)

-- Without a failure of the system the record is written.
pub write_record-fine :
    (bytes b : Bytes)
    → write_record b true (cursor bytes [] []) ≡ (ok tt, cursor (bytes ++ frame b) [] [])
unfolding write_record write_data write_sync sync
write_record-fine bytes b =
    let header = put_uint32 (length b % 2 ^ 32) in
    rw (write-fine bytes header, write-fine (bytes ++ header) b, append_assoc bytes header b)

ok-inj : {A : Type 0} {a b : A} → ◌≡◌ {A = Result Error A} (ok a) (ok b) → a ≡ b
ok-inj {A} {a} e = ap (λ (r : Result Error A). elim r [ ok x ↦ x | err x ↦ a ]) e

module _ (codec : Codec) where
  open codec use {marshal, unmarshal}

  pub record Holds (l : Log) (es : List WalEntry) : Type 0 where
    pub bytes : Bytes
    pub at_end : l.file ≡ cursor bytes [] l.file.outcomes
    pub encodes : Encodes codec es bytes
    pub is_open : l.is_open ≡ true
    pub seq : l.seq ≡ max_seq 0 es

  pub length-Encodes :
      (es : List WalEntry) (bytes : Bytes) → Encodes codec es bytes → length es ≤ length bytes
  unfolding put_uint32
  length-Encodes [] bytes enc = omega arith
  length-Encodes (e ∷ es) bytes (b, more, m, ne, enc, eq) =
      omega (arith, length-Encodes es more enc, ap length eq, length-append (frame b) more)

  read_records-end :
      (j : ℕ) (bytes : Bytes) (os : List Outcome)
      → read_records codec (suc j) (cursor bytes [] os) ≡ (ok [], cursor bytes [] os)
  unfolding read_records read_header
  read_records-end j bytes os = rw (read_full-end 4 bytes os (omega arith))

  -- All rounds of the loop over a file that holds these entries.
  read_records-all :
      (es : List WalEntry) (bytes : Bytes) (os : List Outcome)
      → Encodes codec es bytes
      → read_records codec (suc (length bytes)) (cursor [] bytes os) ≡ (ok es, cursor bytes [] os)
  read_records-all es bytes os enc =
      let j = length bytes - length es in
      let rounds : suc (length bytes) ≡ length es + suc j =
        omega (arith, length-Encodes es bytes enc) in
      let whole : cursor [] bytes os ≡ cursor [] (bytes ++ []) os = rw append-nil in
      ap₂ (read_records codec) rounds whole
      ∙ read_records-Encodes codec es bytes [] [] os (suc j) enc
      ∙ ap (prepend_all es) (read_records-end j bytes os)
      ∙ prepend_all-nil es (cursor bytes [] os)

  pub Encodes-snoc :
      (es : List WalEntry) (bytes : Bytes) (e : WalEntry) (b : Bytes)
      → Encodes codec es bytes
      → marshal e ≡ some b
      → e.seq ≢ 0
      → Encodes codec (es ++ e ∷ []) (bytes ++ frame b)
  Encodes-snoc [] bytes e b enc m ne = (b, [], m, ne, refl, rw (enc, append-nil))
  Encodes-snoc (x ∷ es) bytes e b (c, more, mx, nx, enc, eq) m ne =
      (c, more ++ frame b, mx, nx, Encodes-snoc es more e b enc m ne, rw (eq, append_assoc))

  read_all-cursor :
      (es : List WalEntry) (bytes : Bytes) (os : List Outcome) (seq : ℕ)
      → Encodes codec es bytes
      → read_all codec (record { file = cursor bytes [] os; is_open = true; seq = seq })
        ≡ (ok es, record { file = cursor bytes [] os; is_open = true; seq = seq })
  unfolding read_all seek_start
  read_all-cursor es bytes os seq enc =
      simp append-nil (rw (read_records-all es bytes os enc) (simp append-nil))

  -- ReadAll on a log that holds es returns es and leaves the log as it was, the cursor at the end.
  pub read_all-Holds : (l : Log) (es : List WalEntry) → Holds l es → read_all codec l ≡ (ok es, l)
  read_all-Holds l es h =
      subst (λ m. read_all codec m ≡ (ok es, m))
        (λ i. record { file = sym h.at_end i; is_open = sym h.is_open i; seq = l.seq })
        (read_all-cursor es h.bytes l.file.outcomes l.seq h.encodes)

  pub open_log-cursor :
      (es : List WalEntry) (bytes : Bytes) (os : List Outcome)
      → Encodes codec es bytes
      → open_log codec bytes os
        ≡ ok (record { file = cursor bytes [] os; is_open = true; seq = max_seq 0 es })
  unfolding open_log recovered read_all seek_start
  open_log-cursor es bytes os enc = rw (read_records-all es bytes os enc) refl

  -- Opening a file that holds the frames of a list of numbered entries succeeds and gives a log
  -- that holds these entries, with the number that the loop of `recoverSeq` finds.
  pub open_log-Holds :
      (es : List WalEntry) (bytes : Bytes) (os : List Outcome)
      → Encodes codec es bytes
      → (l : Log) × (open_log codec bytes os ≡ ok l) × Holds l es
  open_log-Holds es bytes os enc = (
    record { file = cursor bytes [] os; is_open = true; seq = max_seq 0 es },
    open_log-cursor es bytes os enc,
    record { bytes = bytes; at_end = refl; encodes = enc; is_open = refl; seq = refl },
  )

  content-Holds : (l : Log) (es : List WalEntry) (h : Holds l es) → l.file.content ≡ h.bytes
  content-Holds l es h = ap (λ (f : File). f.content) h.at_end ∙ append-nil h.bytes

  -- The file of a log opens again.
  pub open_log-reopened :
      (os : List Outcome) (l : Log) (es : List WalEntry)
      → Holds l es
      → (m : Log) × (open_log codec l.file.content os ≡ ok m) × Holds m es
  open_log-reopened os l es h =
      let (m, opened, holds) = open_log-Holds es h.bytes os h.encodes in
      (m, ap (λ c. open_log codec c os) (content-Holds l es h) ∙ opened, holds)

  -- What opens is a log of the same entries.
  pub open_log-again :
      (os : List Outcome) (l m : Log) (es : List WalEntry)
      → Holds l es
      → open_log codec l.file.content os ≡ ok m
      → Holds m es × (m.file.outcomes ≡ os)
  open_log-again os l m es h opened =
      let fresh : Log = record {
        file = cursor h.bytes [] os;
        is_open = true;
        seq = max_seq 0 es;
      } in
      let same : fresh ≡ m = ok-inj (
        sym (open_log-cursor es h.bytes os h.encodes)
        ∙ ap (λ c. open_log codec c os) (sym (content-Holds l es h))
        ∙ opened) in
      subst (λ l'. Holds l' es × (l'.file.outcomes ≡ os)) same
        (
          record {
            bytes = h.bytes;
            at_end = refl;
            encodes = h.encodes;
            is_open = refl;
            seq = refl;
          },
          refl,
        )
