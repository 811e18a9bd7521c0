-- ===== src/Wal/Highest.antt =====
-- The number of a log that was opened: the highest one of its entries.
use snowcast.Prelude.{
  ℕ, ◌≤◌, ◌≡◌, refl, sym, ◌∙◌, ◌⊎◌, inl, inr, List, [], ◌∷◌, Bool-cases, ltb, if◌then◌else◌, arith,
}
use snowcast.Run.{ok}
use snowcast.Protocol.{WalEntry}
use snowcast.Wal.File.{Bytes, Outcome}
use snowcast.Wal.Log.{Codec, Log, max_seq, open_log}
use snowcast.Wal.Records.{Encodes}
use snowcast.Wal.Holds.{Holds, open_log-Holds}

abbrev pub AreUpTo : ℕ → List WalEntry → Type 0
AreUpTo n [] = Unit
AreUpTo n (e ∷ es) = (e.seq ≤ n) × AreUpTo n es

abbrev pub IsReached : ℕ → List WalEntry → Type 0
IsReached n [] = ⊥
IsReached n (e ∷ es) = (e.seq ≡ n) ⊎ IsReached n es

-- No entry has a higher number, and one has this one; 0 where there is none.
abbrev pub IsHighest : ℕ → List WalEntry → Type 0
IsHighest n es = AreUpTo n es × ((n ≡ 0) ⊎ IsReached n es)

max_seq-le : (n : ℕ) (es : List WalEntry) → n ≤ max_seq n es
unfolding max_seq
max_seq-le n [] = omega arith
max_seq-le n (e ∷ es) = ground (arith, max_seq-le (if ltb n e.seq then e.seq else n) es)

max_seq-AreUpTo : (n : ℕ) (es : List WalEntry) → AreUpTo (max_seq n es) es
unfolding max_seq
max_seq-AreUpTo n [] = tt
max_seq-AreUpTo n (e ∷ es) =
    let m = if ltb n e.seq then e.seq else n in
    (ground (arith, max_seq-le m es), max_seq-AreUpTo m es)

max_seq-IsReached : (n : ℕ) (es : List WalEntry) → (max_seq n es ≡ n) ⊎ IsReached (max_seq n es) es
unfolding max_seq
max_seq-IsReached n [] = inl refl
max_seq-IsReached n (e ∷ es) =
    let m = if ltb n e.seq then e.seq else n in
    elim (max_seq-IsReached m es) [
      | inr there ↦ inr (inr there)
      | inl same ↦ elim (Bool-cases (ltb n e.seq)) [
        | inl up ↦ let taken : m ≡ e.seq = ground (arith, up) in inr (inl (sym (same ∙ taken)))
        | inr down ↦ let kept : m ≡ n = ground (arith, down) in inl (same ∙ kept)
      ]
    ]

module _ (codec : Codec) where
  -- Opening a file that holds the frames of a list of numbered entries succeeds and gives a log
  -- that holds these entries; no entry has a higher number than the log, and one has the log's
  -- number, or it is 0.
  pub open_log-IsHighest :
      (es : List WalEntry) (bytes : Bytes) (os : List Outcome)
      → Encodes codec es bytes
      → (l : Log) × (open_log codec bytes os ≡ ok l) × Holds codec l es × IsHighest l.seq es
  open_log-IsHighest es bytes os enc =
      let (l, opened, holds) = open_log-Holds codec es bytes os enc in
      (l, opened, holds, rw holds.seq (max_seq-AreUpTo 0 es, max_seq-IsReached 0 es))
