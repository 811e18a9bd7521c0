-- ===== src/Replication/Backup.antt =====
-- The backup's handler as the primary sees it: it holds a prefix of the primary's entries.
use native.Mathlib.Nat.{add-zero}
use snowcast.Prelude.{
  ℕ, suc, ◌+◌, ◌^◌, ◌≤◌, ◌<◌, ◌≡◌, refl, true, false, none, some, List, [], ◌∷◌, ◌++◌, arith,
  length, length-append, ltb, leb, ◌==◌, not, ◌&&◌, append_assoc, append-nil,
}
use snowcast.Protocol.{WalEntry, Error, expected_seq}
use snowcast.Wal.File.{Bytes}
use snowcast.Wal.Log.{Codec, Log, u64, append_replicated}
use snowcast.Wal.Records.{Encodes}
use snowcast.Wal.Holds.{Holds}
use snowcast.Wal.Append.{append_replicated-fine}
use snowcast.Replication.Server.{InboundHandler, accepted, rejected, replicate, persisted}

-- The entries are numbered n + 1, n + 2, …
abbrev pub IsNumbered : ℕ → List WalEntry → Type 0
IsNumbered n [] = Unit
IsNumbered n (e ∷ es) = (e.seq ≡ n + 1) × IsNumbered (n + 1) es

pub IsNumbered-append :
    (n : ℕ) (es fs : List WalEntry)
    → IsNumbered n (es ++ fs)
    → IsNumbered n es × IsNumbered (n + length es) fs
IsNumbered-append n [] fs h = (tt, rw add-zero h)
IsNumbered-append n (e ∷ es) fs h =
    let (front, back) = IsNumbered-append (n + 1) es fs h.1 in
    let shift : n + suc (length es) ≡ n + 1 + length es = omega arith in
    ((h.0, front), rw shift back)

module _ (codec : Codec) where
  open codec use {marshal}

  -- The handler accepts, its disk works, and it holds exactly these entries.
  pub record Follows (bs : List WalEntry) (h : InboundHandler) : Type 0 where
    pub wal : Holds codec h.wal bs
    pub last : h.last_wal_seq ≡ length bs
    pub accepting : h.accepting ≡ true
    pub calm : h.wal.file.outcomes ≡ []

  -- An entry that the backup has is confirmed and nothing changes.
  pub replicate-old :
      (e : WalEntry) (bs : List WalEntry) (h : InboundHandler)
      → Follows bs h
      → e.seq ≤ length bs
      → replicate codec (some e) h ≡ (accepted e.seq, h)
  unfolding replicate
  replicate-old e bs h f old =
      let known : leb e.seq (length bs) ≡ true = ground arith in rw (f.accepting, f.last, known)

  -- An entry beyond the next one is rejected, once the backup has any.
  pub replicate-gap :
      (e : WalEntry) (bs : List WalEntry) (h : InboundHandler)
      → Follows bs h
      → length bs + 1 < e.seq
      → 0 < length bs
      → length bs + 1 < 2 ^ 64
      → (x : Error) × (replicate codec (some e) h ≡ (rejected e.seq x, h))
  unfolding replicate
  replicate-gap e bs h f beyond some_there room =
      let new : leb e.seq (length bs) ≡ false = ground arith in
      let n : u64 (length bs + 1) ≡ length bs + 1 = omega arith in
      let gap : (ltb 0 (length bs) && not (e.seq == length bs + 1)) ≡ true = ground arith in
      (expected_seq (length bs + 1) e.seq, rw (f.accepting, f.last, new, n, gap))

  replicate-written :
      (e : WalEntry) (bs : List WalEntry) (h : InboundHandler) (l : Log)
      → Follows bs h
      → e.seq ≡ length bs + 1
      → length bs + 1 < 2 ^ 64
      → append_replicated codec e h.wal ≡ (none, l)
      → replicate codec (some e) h
        ≡ (accepted e.seq, record { wal = l; last_wal_seq = e.seq; accepting = true })
  unfolding replicate
  replicate-written e bs h l f next room written =
      let new : leb e.seq (length bs) ≡ false = ground arith in
      let n : u64 (length bs + 1) ≡ length bs + 1 = omega arith in
      let same : (e.seq == length bs + 1) ≡ true = ground arith in
      let step : (ltb 0 (length bs) && not (e.seq == length bs + 1)) ≡ false = ground arith in
      rw (f.accepting, f.last, new, n, step, written, persisted, f.accepting)

  -- The next entry is written and confirmed.
  pub replicate-next :
      (e : WalEntry) (b : Bytes) (bs : List WalEntry) (h : InboundHandler)
      → Follows bs h
      → e.seq ≡ length bs + 1
      → length bs + 1 < 2 ^ 64
      → marshal e ≡ some b
      → (h' : InboundHandler) × (replicate codec (some e) h ≡ (accepted e.seq, h'))
        × Follows (bs ++ e ∷ []) h'
  replicate-next e b bs h f next room m =
      let (l, written, holds, calm) =
        append_replicated-fine codec e h.wal bs b f.wal (omega arith) f.calm m in
      (
        record { wal = l; last_wal_seq = e.seq; accepting = true },
        replicate-written e bs h l f next room written,
        record {
          wal = holds;
          last = omega (arith, length-append bs (e ∷ []));
          accepting = refl;
          calm = calm;
        },
      )

  -- What the primary knows of the backup while it sends: a prefix of `es` that has not shrunk.
  pub record Ahead (es bs : List WalEntry) (h : InboundHandler) : Type 0 where
    pub more : List WalEntry
    pub rest : List WalEntry
    pub split : es ≡ (bs ++ more) ++ rest
    pub follows : Follows (bs ++ more) h

  pub Ahead-here :
      {es bs : List WalEntry} {h : InboundHandler} (rest : List WalEntry)
      → es ≡ bs ++ rest
      → Follows bs h
      → Ahead es bs h
  Ahead-here {es} {bs} {h} rest split f = record {
    more = [];
    rest = rest;
    split = rw append-nil split;
    follows = rw append-nil f;
  }

  pub Ahead-all :
      {es bs : List WalEntry} {h : InboundHandler} (rest : List WalEntry)
      → es ≡ bs ++ rest
      → Follows es h
      → Ahead es bs h
  Ahead-all {es} {bs} rest split f = record {
    more = rest;
    rest = [];
    split = rw append-nil split;
    follows = rw (← split) f;
  }

  pub Ahead-trans :
      {es bs : List WalEntry} {h g : InboundHandler} (a : Ahead es bs h)
      → Ahead es (bs ++ a.more) g
      → Ahead es bs g
  Ahead-trans {es} {bs} a b = record {
    more = a.more ++ b.more;
    rest = b.rest;
    split = rw (← append_assoc bs a.more b.more) b.split;
    follows = rw (← append_assoc bs a.more b.more) b.follows;
  }

  -- A prefix of a prefix, and a start further back.
  pub Ahead-longer :
      {es fs bs : List WalEntry} {h : InboundHandler} (extra : List WalEntry)
      → fs ≡ es ++ extra
      → Ahead es bs h
      → Ahead fs bs h
  Ahead-longer {es} {fs} {bs} extra e a = record {
    more = a.more;
    rest = a.rest ++ extra;
    split = rw (e, a.split) (append_assoc (bs ++ a.more) a.rest extra);
    follows = a.follows;
  }

  pub Ahead-earlier :
      {es mid bs : List WalEntry} {h : InboundHandler} (extra : List WalEntry)
      → mid ≡ bs ++ extra
      → Ahead es mid h
      → Ahead es bs h
  Ahead-earlier {es} {mid} {bs} extra e a = record {
    more = extra ++ a.more;
    rest = a.rest;
    split = rw (← append_assoc bs extra a.more, ← e) a.split;
    follows = rw (← append_assoc bs extra a.more, ← e) a.follows;
  }

  -- Every entry has a message.
  abbrev pub IsEncodable : List WalEntry → Type 0
  IsEncodable [] = Unit
  IsEncodable (e ∷ es) = ((b : Bytes) × (marshal e ≡ some b)) × IsEncodable es

  pub IsEncodable-Encodes :
      (es : List WalEntry) (bytes : Bytes) → Encodes codec es bytes → IsEncodable es
  IsEncodable-Encodes [] bytes enc = tt
  IsEncodable-Encodes (e ∷ es) bytes (b, more, m, ne, enc, eq) =
      ((b, m), IsEncodable-Encodes es more enc)

  pub IsEncodable-append :
      (es fs : List WalEntry) → IsEncodable (es ++ fs) → IsEncodable es × IsEncodable fs
  IsEncodable-append [] fs h = (tt, h)
  IsEncodable-append (e ∷ es) fs h =
      let (front, back) = IsEncodable-append es fs h.1 in ((h.0, front), back)
