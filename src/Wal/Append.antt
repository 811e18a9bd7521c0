-- ===== src/Wal/Append.antt =====
-- `Append` and `AppendReplicated` on a log that holds entries: every outcome.
use snowcast.Prelude.{
  ℕ, ◌+◌, ◌^◌, ◌<◌, ◌≡◌, ◌≢◌, refl, ap, sym, ◌∙◌, false, Option, none, some, List, [], ◌∷◌, ◌++◌,
  arith, ltb, if◌then◌else◌, ◌==◌, Option-cases, Bool-cases, inl, inr,
}
use snowcast.Run.{Result, ok, err}
use snowcast.Protocol.{WalEntry, Error}
use snowcast.Wal.File.{Bytes, File}
use snowcast.Wal.Log.{
  Codec, Log, u64, write_record, append, append_marshalled, append_written, append_replicated,
  replicated_marshalled, replicated_written, max_seq,
}
use snowcast.Wal.Records.{frame, cursor}
use snowcast.Wal.Holds.{Holds, Encodes-snoc, write_record-ok, write_record-fine}

abbrev pub numbered : ℕ → WalEntry → WalEntry
numbered n e = record e { seq = n }

pub max_seq-snoc :
    (n : ℕ) (es : List WalEntry) (e : WalEntry)
    → max_seq n (es ++ e ∷ []) ≡ (if ltb (max_seq n es) e.seq then e.seq else max_seq n es)
unfolding max_seq
max_seq-snoc n [] e = refl
max_seq-snoc n (x ∷ es) e = max_seq-snoc (if ltb n x.seq then x.seq else n) es e

module _ (codec : Codec) where
  open codec use {marshal}

  -- The log with one more record, whose number is at least the highest so far.
  Holds-snoc :
      {l : Log} {es : List WalEntry} (e : WalEntry) (b : Bytes) (f : File)
      → Holds codec l es
      → marshal e ≡ some b
      → e.seq ≢ 0
      → write_record b l.is_open l.file ≡ (ok tt, f)
      → Holds codec
          (record l { file = f; seq = if ltb l.seq e.seq then e.seq else l.seq })
          (es ++ e ∷ [])
  Holds-snoc {l} {es} e b f h m ne w =
      let (is_open, at_end) =
        write_record-ok h.bytes b l.is_open l.file.outcomes
          (ap (write_record b l.is_open) (sym h.at_end) ∙ w) in
      record {
        bytes = h.bytes ++ frame b;
        at_end = at_end;
        encodes = Encodes-snoc codec es h.bytes e b h.encodes m ne;
        is_open = is_open;
        seq = rw (max_seq-snoc 0 es e, h.seq);
      }

  -- The outcome of `Append` on a log that holds `es`.
  abbrev pub Appended : WalEntry → Log → List WalEntry → Result Error ℕ × Log → Type 0
  Appended e l es (ok n, l') = (n ≡ l.seq + 1) × Holds codec l' (es ++ numbered n e ∷ [])
  Appended e l es (err x, l') = l'.seq ≡ l.seq

  append_written-Appended :
      (e : WalEntry) (l : Log) (es : List WalEntry) (b : Bytes) (r : Result Error (Unit {0}) × File)
      → Holds codec l es
      → l.seq + 1 < 2 ^ 64
      → marshal (numbered (l.seq + 1) e) ≡ some b
      → write_record b l.is_open l.file ≡ r
      → Appended e l es (append_written (l.seq + 1) l r)
  unfolding append_written
  append_written-Appended e l es b (err x, f) h room m w = omega arith
  append_written-Appended e l es b (ok _, f) h room m w =
      let top : (if ltb l.seq (l.seq + 1) then l.seq + 1 else l.seq) ≡ l.seq + 1 = ground arith in
      (refl, rw top at (Holds-snoc (numbered (l.seq + 1) e) b f h m (omega arith) w))

  -- On a log that holds es and whose number is below 2^64 - 1, Append either puts the entry behind
  -- es under the next number and returns that number, or fails and leaves the number as it was.
  pub append-Appended :
      (e : WalEntry) (l : Log) (es : List WalEntry)
      → Holds codec l es
      → l.seq + 1 < 2 ^ 64
      → Appended e l es (append codec e l)
  unfolding append append_marshalled
  append-Appended e l es h room =
      let n : u64 (l.seq + 1) ≡ l.seq + 1 = omega arith in
      rw n (elim (Option-cases (marshal (numbered (l.seq + 1) e))) [
        | inl refused ↦ rw refused (omega arith)
        | inr (b, m) ↦
            rw m (append_written-Appended e l es b (write_record b l.is_open l.file) h room m refl)
      ])

  -- With no failure ahead, `Append` writes the frame.
  append-written :
      (e : WalEntry) (l : Log) (es : List WalEntry) (b : Bytes) (h : Holds codec l es)
      → l.seq + 1 < 2 ^ 64
      → l.file.outcomes ≡ []
      → marshal (numbered (l.seq + 1) e) ≡ some b
      → append codec e l
        ≡ (ok (l.seq + 1), record l { file = cursor (h.bytes ++ frame b) [] []; seq = l.seq + 1 })
  unfolding append append_marshalled append_written
  append-written e l es b h room calm m =
      let n : u64 (l.seq + 1) ≡ l.seq + 1 = omega arith in
      let file : l.file ≡ cursor h.bytes [] [] = h.at_end ∙ ap (cursor h.bytes []) calm in
      rw (n, m, file, h.is_open, write_record-fine h.bytes b)

  -- Then it succeeds, and no failure is ahead afterwards.
  pub append-calm :
      (e : WalEntry) (l : Log) (es : List WalEntry) (b : Bytes)
      → Holds codec l es
      → l.seq + 1 < 2 ^ 64
      → l.file.outcomes ≡ []
      → marshal (numbered (l.seq + 1) e) ≡ some b
      → (l' : Log) × (append codec e l ≡ (ok (l.seq + 1), l'))
        × Holds codec l' (es ++ numbered (l.seq + 1) e ∷ [])
        × (l'.file.outcomes ≡ [])
        × (l'.seq ≡ l.seq + 1)
  append-calm e l es b h room calm m =
      let done = append-written e l es b h room calm m in
      let kept : Appended e l es (append codec e l) = append-Appended e l es h room in
      (
        record l { file = cursor (h.bytes ++ frame b) [] []; seq = l.seq + 1 },
        done,
        (rw done at kept).1,
        refl,
        refl,
      )

  -- With no failing write or sync ahead, and a message for the numbered entry, Append on a log that
  -- holds entries succeeds.
  pub append-fine :
      (e : WalEntry) (l : Log) (es : List WalEntry) (b : Bytes)
      → Holds codec l es
      → l.seq + 1 < 2 ^ 64
      → l.file.outcomes ≡ []
      → marshal (numbered (l.seq + 1) e) ≡ some b
      → (append codec e l).0 ≡ ok (l.seq + 1)
  append-fine e l es b h room calm m = ap (λ r. r.0) (append-written e l es b h room calm m)

  -- The outcome of `AppendReplicated` on a log that holds `es`.
  abbrev pub Replicated : WalEntry → Log → List WalEntry → Option Error × Log → Type 0
  Replicated e l es (none, l') = Holds codec l' (es ++ e ∷ [])
  Replicated e l es (some x, l') = l'.seq ≡ l.seq

  replicated_written-Replicated :
      (e : WalEntry) (l : Log) (es : List WalEntry) (b : Bytes) (r : Result Error (Unit {0}) × File)
      → Holds codec l es
      → e.seq ≢ 0
      → marshal e ≡ some b
      → write_record b l.is_open l.file ≡ r
      → Replicated e l es (replicated_written e.seq l r)
  unfolding replicated_written
  replicated_written-Replicated e l es b (err x, f) h ne m w = refl
  replicated_written-Replicated e l es b (ok _, f) h ne m w = Holds-snoc e b f h m ne w

  -- On a log that holds es, AppendReplicated either puts the entry with its own number behind es
  -- and raises the log's number to it, or fails and leaves the number as it was.
  pub append_replicated-Replicated :
      (e : WalEntry) (l : Log) (es : List WalEntry)
      → Holds codec l es
      → Replicated e l es (append_replicated codec e l)
  unfolding append_replicated replicated_marshalled
  append_replicated-Replicated e l es h = elim (Bool-cases (e.seq == 0)) [
    | inl unset_seq ↦ rw unset_seq refl
    | inr numbered_seq ↦ rw numbered_seq (elim (Option-cases (marshal e)) [
      | inl refused ↦ rw refused refl
      | inr (b, m) ↦ rw m (
          replicated_written-Replicated e l es b (write_record b l.is_open l.file) h (ground arith)
            m refl)
    ])
  ]

  append_replicated-calm :
      (e : WalEntry) (l : Log) (es : List WalEntry) (b : Bytes) (h : Holds codec l es)
      → e.seq ≢ 0
      → l.file.outcomes ≡ []
      → marshal e ≡ some b
      → append_replicated codec e l ≡ (
        none,
        record l {
          file = cursor (h.bytes ++ frame b) [] [];
          seq = if ltb l.seq e.seq then e.seq else l.seq;
        },
      )
  unfolding append_replicated replicated_marshalled replicated_written
  append_replicated-calm e l es b h ne calm m =
      let n : (e.seq == 0) ≡ false = ground arith in
      let file : l.file ≡ cursor h.bytes [] [] = h.at_end ∙ ap (cursor h.bytes []) calm in
      rw (n, m, file, h.is_open, write_record-fine h.bytes b)

  -- With no failure ahead, `AppendReplicated` succeeds, and none is ahead afterwards.
  pub append_replicated-fine :
      (e : WalEntry) (l : Log) (es : List WalEntry) (b : Bytes)
      → Holds codec l es
      → e.seq ≢ 0
      → l.file.outcomes ≡ []
      → marshal e ≡ some b
      → (l' : Log) × (append_replicated codec e l ≡ (none, l'))
        × Holds codec l' (es ++ e ∷ [])
        × (l'.file.outcomes ≡ [])
  append_replicated-fine e l es b h ne calm m =
      let done = append_replicated-calm e l es b h ne calm m in
      let kept : Replicated e l es (append_replicated codec e l) =
        append_replicated-Replicated e l es h in
      (
        record l {
          file = cursor (h.bytes ++ frame b) [] [];
          seq = if ltb l.seq e.seq then e.seq else l.seq;
        },
        done,
        rw done at kept,
        refl,
      )
