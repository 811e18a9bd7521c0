-- ===== src/Replication/Commit.antt =====
-- `ReplicateAndWait` of the coordinator: what each of its outcomes means for the state, for the
-- primary's log and for the backup.
use mathlib.Core.Path.{subst}
use native.Mathlib.Nat.{zero-add}
use snowcast.Prelude.{
  ℕ, ◌+◌, ◌^◌, ◌≤◌, ◌<◌, ◌≡◌, refl, ap, sym, ◌∙◌, ◌⊎◌, inl, inr, Option, none, some, List, [], ◌∷◌,
  ◌++◌, arith, length, length-append, ltb, if◌then◌else◌, append_assoc,
}
use snowcast.Run.{Run, done, panic, Go, ◌>>=◌, Result, ok, err}
use snowcast.Protocol.{WalEntry, Error}
use snowcast.State.Store.{State}
use snowcast.Wal.Log.{Codec, Log, append, max_seq}
use snowcast.Wal.Holds.{Holds}
use snowcast.Wal.Append.{Appended, append-Appended, numbered}
use snowcast.Replication.Coordinator.{
  Pair, on_mem, acknowledge, replicate_with_retry, after_apply, after_append, replicate_and_wait,
}
use snowcast.Replication.Backup.{IsNumbered, Ahead}
use snowcast.Replication.Catchup.{Sent}
use snowcast.Replication.Retry.{InSync, InSync-all, replicate_with_retry-Sent}

pub max_seq-numbered : (n : ℕ) (es : List WalEntry) → IsNumbered n es → max_seq n es ≡ n + length es
unfolding max_seq
max_seq-numbered n [] h = omega arith
max_seq-numbered n (e ∷ es) h =
    let up : (if ltb n e.seq then e.seq else n) ≡ n + 1 = ground arith in
    rw up (omega (arith, max_seq-numbered (n + 1) es h.1))

pub IsNumbered-snoc :
    (n : ℕ) (es : List WalEntry) (e : WalEntry)
    → IsNumbered n es
    → e.seq ≡ n + length es + 1
    → IsNumbered n (es ++ e ∷ [])
IsNumbered-snoc n [] e h seq = (omega arith, tt)
IsNumbered-snoc n (x ∷ es) e h seq = (h.0, IsNumbered-snoc (n + 1) es e h.1 (omega arith))

module _ (codec : Codec) (entry : WalEntry) (apply : Go State (Option Error))
    (rollback : Go State (Unit {0})) where
  -- The primary's log with the entry, under the next number.
  abbrev pub extended : List WalEntry → List WalEntry
  extended es = es ++ numbered (length es + 1) entry ∷ []

  -- An error stands for one of three things: Append failed, its bytes may be in the file, and nothing
  -- was applied; the entry
  -- is in the log and was refused by `apply`; or it was applied, not replicated, and rolled back, and
  -- it still is in the log.
  pub data Failed (w : Pair) (es bs : List WalEntry) (w' : Pair) : Type 0 where
    not_logged :
        {x : Error}
        → (append codec entry w.wal).0 ≡ err x
        → w'.mem ≡ w.mem
        → w'.wal.seq ≡ w.wal.seq
        → w'.backup ≡ w.backup
        → Failed w es bs w'
    not_applied :
        {x : Error}
        → apply w.mem ≡ done (some x) w'.mem
        → Holds codec w'.wal (extended es)
        → w'.backup ≡ w.backup
        → Failed w es bs w'
    not_replicated :
        {m : State}
        → apply w.mem ≡ done none m
        → rollback m ≡ done tt w'.mem
        → Holds codec w'.wal (extended es)
        → Ahead codec (extended es) bs w'.backup
        → Failed w es bs w'

  abbrev pub Committed : Pair → List WalEntry → List WalEntry → Run Pair (Option Error) → Type 0
  Committed w es bs (done none w') =
      InSync codec w' (extended es) (extended es) [] × (apply w.mem ≡ done none w'.mem)
  Committed w es bs (done (some x) w') = Failed w es bs w'
  Committed w es bs (panic w') = Holds codec w'.wal (extended es)

  module _ (w : Pair) (es bs rest : List WalEntry) (i : InSync codec w es bs rest) where
    acknowledged :
        (m : State) (l : Log) (r : Option Error × Pair)
        → apply w.mem ≡ done none m
        → InSync codec
            (record w { mem = m; wal = l })
            (extended es)
            bs
            (rest ++ numbered (length es + 1) entry ∷ [])
        → Sent codec (extended es) bs (record w { mem = m; wal = l }) r
        → Committed w es bs (acknowledge (length es + 1) rollback r)
    unfolding acknowledge
    acknowledged m l (none, v) applied j s =
        let k = InSync-all codec j s.0 s.1 in
        (
          record {
            primary = k.primary;
            numbered = k.numbered;
            split = k.split;
            backup = k.backup;
            room = k.room;
          },
          subst (λ m'. apply w.mem ≡ done none m') (sym s.0.mem) applied,
        )
    acknowledged m l (some x, v) applied j s = rolled_back (rollback v.mem) refl
      where
        at_start : apply w.mem ≡ done none v.mem
        at_start = subst (λ m'. apply w.mem ≡ done none m') (sym s.0.mem) applied

        logged : Holds codec v.wal (extended es)
        logged = subst (λ l'. Holds codec l' (extended es)) (sym s.0.wal) j.primary

        rolled_back :
            (q : Run State (Unit {0}))
            → rollback v.mem ≡ q
            → Committed w es bs (acknowledge (length es + 1) rollback (some x, v))
        rolled_back (done u m') e = rw e (not_replicated at_start e logged s.1)
        rolled_back (panic m') e = rw e logged

    InSync-logged :
        (m : State) (l : Log)
        → Holds codec l (extended es)
        → length es + 1 < 2 ^ 64
        → InSync codec
            (record w { mem = m; wal = l })
            (extended es)
            bs
            (rest ++ numbered (length es + 1) entry ∷ [])
    InSync-logged m l holds room = record {
      primary = holds;
      numbered = IsNumbered-snoc 0 es (numbered (length es + 1) entry) i.numbered (omega arith);
      split =
          ap (λ fs. fs ++ numbered (length es + 1) entry ∷ []) i.split
          ∙ append_assoc bs rest (numbered (length es + 1) entry ∷ []);
      backup = i.backup;
      room = omega (arith, length-append es (numbered (length es + 1) entry ∷ []));
    }

    reachable :
        (0 < length bs) ⊎ (rest ≡ []) → (0 < length bs) ⊎ (length (extended es) ≤ length bs + 1)
    reachable (inl some_there) = inl some_there
    reachable (inr none_missing) = inr (
        omega (
          arith,
          ap length i.split,
          length-append bs rest,
          ap length none_missing,
          length-append es (numbered (length es + 1) entry ∷ []),
        ))

    applied_run :
        (l : Log) (q : Run State (Option Error))
        → Holds codec l (extended es)
        → (0 < length bs) ⊎ (rest ≡ [])
        → length es + 1 < 2 ^ 64
        → apply w.mem ≡ q
        → Committed w es bs (
            (on_mem apply >>= after_apply codec (numbered (length es + 1) entry) rollback)
              (record w { wal = l }))
    unfolding after_apply
    applied_run l (done none m) holds near room e =
        let j = InSync-logged m l holds room in
        rw e (
          acknowledged m l
            (replicate_with_retry codec (numbered (length es + 1) entry)
              (record w { mem = m; wal = l }))
            e j
            (replicate_with_retry-Sent codec (numbered (length es + 1) entry) es (extended es) refl
              bs (rest ++ numbered (length es + 1) entry ∷ []) (record w { mem = m; wal = l }) j
              (reachable near)))
    applied_run l (done (some x) m) holds near room e = rw e (not_applied e holds refl)
    applied_run l (panic m) holds near room e = rw e holds

    after_append-Committed :
        (r : Result Error ℕ × Log)
        → append codec entry w.wal ≡ r
        → w.wal.seq ≡ length es
        → Appended codec entry w.wal es r
        → (0 < length bs) ⊎ (rest ≡ [])
        → length es + 1 < 2 ^ 64
        → Committed w es bs (after_append codec entry apply rollback w r)
    unfolding after_append
    after_append-Committed (err x, l) ran next a near room =
        not_logged (ap (λ q. q.0) ran) refl a refl
    after_append-Committed (ok seq, l) ran next a near room =
        let n : seq ≡ length es + 1 = a.0 ∙ ap (λ k. k + 1) next in
        rw n (
          applied_run l (apply w.mem)
            (subst (λ k. Holds codec l (es ++ numbered k entry ∷ [])) n a.1) near room refl)

    -- Where the primary's log holds the entries es, numbered from 1, the backup accepts calls, no
    -- write or sync of its file fails and it holds a prefix of them (not an empty one, unless it
    -- lacks nothing), for any apply and rollback and any fate of the calls: without an error the
    -- primary and the backup both hold es and the new entry under the next number and apply took
    -- effect; with an error Append failed, and the number of the log, the state and the backup are
    -- as before, though bytes of the entry may be in the primary's file; or the entry is logged and
    -- apply refused it, or it is logged, applied and rolled back and the backup still holds a
    -- prefix; with a panic the entry is logged.
    pub replicate_and_wait-Committed :
        (0 < length bs) ⊎ (rest ≡ [])
        → length es + 1 < 2 ^ 64
        → Committed w es bs (replicate_and_wait codec entry apply rollback w)
    unfolding replicate_and_wait
    replicate_and_wait-Committed near room =
        let seq : w.wal.seq ≡ length es =
          i.primary.seq ∙ max_seq-numbered 0 es i.numbered ∙ zero-add (length es) in
        after_append-Committed (append codec entry w.wal) refl seq
          (append-Appended codec entry w.wal es i.primary (omega arith)) near room
