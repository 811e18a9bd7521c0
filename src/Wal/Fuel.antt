-- ===== src/Wal/Fuel.antt =====
-- The loop of `readAllUnlocked` ends before its fuel does: each round that goes on has read at least
-- the four bytes of a header.
use snowcast.Prelude.{
  ℕ, zero, suc, ◌+◌, ◌-◌, ◌<◌, ◌≡◌, refl, Bool, true, false, List, [], ◌∷◌, arith, length, drop,
  leb, ◌==◌, Bool-cases, Option-cases, inl, inr,
}
use snowcast.Run.{Result, ok, err}
use snowcast.Protocol.{WalEntry, Error, eof, unexpected_eof, out_of_fuel}
use snowcast.Wal.File.{Bytes, File, read_full, seek_start, uint32}
use snowcast.Wal.Log.{Codec, Log, prepend, read_entry, read_header, read_records, read_all}

-- The error of a loop that was not given enough rounds.
abbrev pub ran_out : {A : Type 0} → Result Error A → Bool
ran_out (err out_of_fuel) = true
ran_out _ = false

abbrev pub remaining : File → ℕ
remaining f = length (drop f.pos f.content)

length-drop : (n : ℕ) (xs : Bytes) → length (drop n xs) ≡ length xs - n
length-drop zero xs = omega arith
length-drop (suc n) [] = omega arith
length-drop (suc n) (x ∷ xs) = omega (arith, length-drop n xs)

-- What a read leaves, and which errors it has.
abbrev ReadFull : ℕ → File → Result Error Bytes × File → Type 0
ReadFull n f (ok b, g) = remaining g + n ≡ remaining f
ReadFull n f (err x, g) = ran_out {A = Bytes} (err x) ≡ false

end_error :
    (rest : Bytes)
    → ran_out {A = Bytes} (err (elim rest [ [] ↦ eof | b ∷ bs ↦ unexpected_eof ])) ≡ false
end_error [] = refl
end_error (b ∷ bs) = refl

read_full-ReadFull : (n : ℕ) (f : File) → ReadFull n f (read_full n f)
unfolding read_full
read_full-ReadFull n f = elim (Bool-cases (leb n (remaining f))) [
  | inl fits ↦
      rw fits (ground (arith, length-drop (f.pos + n) f.content, length-drop f.pos f.content))
  | inr beyond ↦ rw beyond (end_error (drop f.pos f.content))
]

prepend-ran_out :
    (e : WalEntry) (r : Result Error (List WalEntry) × File)
    → ran_out r.0 ≡ false
    → ran_out (prepend e r).0 ≡ false
unfolding prepend
prepend-ran_out e (ok es, f) h = refl
prepend-ran_out e (err x, f) h = h

module _ (codec : Codec) where
  open codec use {unmarshal}

  module _ (next : File → Result Error (List WalEntry) × File) (k : ℕ)
      (ends : (g : File) → remaining g < k → ran_out (next g).0 ≡ false) where
    read_entry-ran_out :
        (n : ℕ) (f : File) (r : Result Error Bytes × File)
        → remaining f < k
        → ReadFull n f r
        → ran_out (read_entry codec next r).0 ≡ false
    unfolding read_entry
    read_entry-ran_out n f (err x, g) room h = h
    read_entry-ran_out n f (ok b, g) room h = elim (Option-cases (unmarshal b)) [
      | inl bad ↦ rw (bad, read_entry) refl
      | inr (e, good) ↦ rw (good, read_entry) (prepend-ran_out e (next g) (ends g (omega arith)))
    ]

    header_error :
        (x : Error) (g : File)
        → ran_out {A = Bytes} (err x) ≡ false
        → ran_out (read_header codec next (err x, g)).0 ≡ false
    unfolding read_header
    header_error eof g h = refl
    header_error x g h = h

    read_header-ran_out :
        (f : File) (r : Result Error Bytes × File)
        → remaining f < suc k
        → ReadFull 4 f r
        → ran_out (read_header codec next r).0 ≡ false
    unfolding read_header
    read_header-ran_out f (err x, g) room h = header_error x g h
    read_header-ran_out f (ok header, g) room h = elim (Bool-cases (uint32 header == 0)) [
      | inl nothing ↦ rw nothing refl
      | inr some_bytes ↦ rw some_bytes (
          read_entry-ran_out (uint32 header) g (read_full (uint32 header) g) (omega arith)
            (read_full-ReadFull (uint32 header) g))
    ]

  read_records-ran_out :
      (k : ℕ) (f : File) → remaining f < k → ran_out (read_records codec k f).0 ≡ false
  unfolding read_records
  read_records-ran_out zero f room = absurd (omega arith)
  read_records-ran_out (suc k) f room =
      read_header-ran_out (λ g. read_records codec k g) k (λ g less. read_records-ran_out k g less)
        f (read_full 4 f) room (read_full-ReadFull 4 f)

  -- ReadAll never uses up the fuel of its loop, whatever the file holds and wherever its cursor
  -- stands.
  pub read_all-ends : (l : Log) → ran_out (read_all codec l).0 ≡ false
  unfolding read_all seek_start
  read_all-ends l = elim (Bool-cases l.is_open) [
    | inl is_open ↦
        rw is_open
          (read_records-ran_out (suc (length l.file.content)) (seek_start l.file) (omega arith))
    | inr shut ↦ rw shut refl
  ]
