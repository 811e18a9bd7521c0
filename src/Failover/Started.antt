-- ===== src/Failover/Started.antt =====
-- A primary that starts is in step with its backup.
use mathlib.Core.Path.{subst}
use snowcast.Prelude.{ℕ, ◌≡◌, refl, sym, ap, ◌∙◌, Option, none, some, arith, List, [], ◌∷◌, length}
use snowcast.Run.{done, and_then, Ends, ends, Ends-done, Ends-mono, done-state}
use snowcast.Protocol.{WalEntry, Error, recover_seq}
use snowcast.State.Store.{State}
use snowcast.State.Apply.{apply_wal_op, apply_wal_entry}
use snowcast.State.Invariant.{IsConsistent}
use snowcast.State.Roster.{Roster, roster, apply_wal_op-Refines}
use snowcast.Wal.Log.{Codec}
use snowcast.Wal.Holds.{Holds, read_all-Holds}
use snowcast.Replication.Coordinator.{
  Pair, lift_mem, replay, after_read, recover_primary, start_synced, start_recovered,
  start_with_wal, sync_backup_wal,
}
use snowcast.Replication.Dial.{Attempt, dial_backup, after_dial, start_with_wal_timeout}
use snowcast.Replication.Catchup.{Sent}
use snowcast.Replication.Retry.{InSync, InSync-all, sync_backup_wal-Sent}
use snowcast.Replication.Recovery.{
  spec_replay, IsValidLog, IsValidLog-length, Replayed, replay-Replayed,
}
use snowcast.Failover.Tracked.{IsTracked}

length-replay_step :
    (wrap : ℕ → Error → Error) (es : List WalEntry) (s t : State) (e : WalEntry) (x : Option Error)
    → apply_wal_op e.op s ≡ done x t
    → length t.station_list ≡ length s.station_list
    → Ends (λ _ u. length u.station_list ≡ length t.station_list) (replay wrap es t)
    → Ends (λ _ u. length u.station_list ≡ length s.station_list) (replay wrap (e ∷ es) s)
unfolding replay apply_wal_entry
length-replay_step wrap es s t e none ran kept rest =
    rw (ran, replay) (Ends-mono rest λ _ u k. k ∙ kept)
length-replay_step wrap es s t e (some x) ran kept rest = rw (ran, replay) (ends kept)

pub length-replay :
    (wrap : ℕ → Error → Error) (es : List WalEntry) (s : State)
    → IsConsistent s
    → IsValidLog s.station_list es
    → Ends (λ _ t. length t.station_list ≡ length s.station_list) (replay wrap es s)
unfolding replay
length-replay wrap [] s h v = ends refl
length-replay wrap (e ∷ es) s h v =
    let (x, t, ran, r) = Ends-done (apply_wal_op-Refines e.op s h (v.0)) in
    length-replay_step wrap es s t e x ran r.stations (
      length-replay wrap es t r.consistent
        (IsValidLog-length s.station_list t.station_list es r.stations (v.1)))

-- Without an error the pair is in step, and has `k` stations.
abbrev pub InStep : Codec → ℕ → List WalEntry → Option Error → Pair → Type 0
InStep codec k es none w' = IsTracked codec es w' × (length w'.mem.station_list ≡ k)
InStep codec k es (some x) w' = Unit

module _ (codec : Codec) (es : List WalEntry) where
  pub start_with_wal-replayed :
      (w : Pair) (x : Option Error) (t : State)
      → Holds codec w.wal es
      → replay recover_seq es w.mem ≡ done x t
      → start_with_wal codec w ≡ start_recovered codec x (record w { mem = t })
  unfolding start_with_wal recover_primary after_read
  start_with_wal-replayed w x t holds ran =
      ap (λ r. and_then (after_read w r) (start_recovered codec))
        (read_all-Holds codec w.wal es holds)
      ∙ ap (λ q. and_then (lift_mem w q) (start_recovered codec)) ran

module _ (codec : Codec) (es bs rest : List WalEntry) where
  start_synced-InStep :
      (w : Pair) (r : Option Error × Pair)
      → InSync codec w es bs rest
      → IsConsistent w.mem
      → IsValidLog w.mem.station_list es
      → spec_replay es (λ k. none) ≡ some (roster w.mem)
      → Sent codec es bs w r
      → Ends (InStep codec (length w.mem.station_list) es) (start_synced codec r)
  unfolding start_synced
  start_synced-InStep w (some x, w') i h v seen s = ends tt
  start_synced-InStep w (none, w') i h v seen (kept, follows) = ends (
    record {
      sync = InSync-all codec i kept follows;
      consistent = rw kept.mem h;
      valid = rw kept.mem v;
      agrees = rw kept.mem seen;
    },
    rw kept.mem refl,
  )

  start_recovered-InStep :
      (o : Option Roster) (x : Option Error) (w : Pair)
      → spec_replay es (λ k. none) ≡ o
      → InSync codec w es bs rest
      → IsConsistent w.mem
      → IsValidLog w.mem.station_list es
      → Replayed o x w.mem
      → Ends (InStep codec (length w.mem.station_list) es) (start_recovered codec x w)
  unfolding start_recovered
  start_recovered-InStep o (some x) w spec i h v replayed = ends tt
  start_recovered-InStep none none w spec i h v failed = absurd (ground (arith, failed))
  start_recovered-InStep (some r) none w spec i h v (fine, seen) =
      start_synced-InStep w (sync_backup_wal codec w) i h v (spec ∙ ap some (sym seen))
        (sync_backup_wal-Sent codec w es bs rest i)

  -- The pair behind the replay.
  pub InSync-mem :
      (w : Pair) (t : State)
      → InSync codec w es bs rest
      → InSync codec (record w { mem = t }) es bs rest
  InSync-mem w t i = record {
    primary = i.primary;
    numbered = i.numbered;
    split = i.split;
    backup = i.backup;
    room = i.room;
  }

  pub start_with_wal-InStep :
      (w : Pair)
      → InSync codec w es bs rest
      → IsConsistent w.mem
      → roster w.mem ≡ (λ k. none)
      → IsValidLog w.mem.station_list es
      → Ends (InStep codec (length w.mem.station_list) es) (start_with_wal codec w)
  start_with_wal-InStep w i h empty v =
      let (x, t, ran, (k, replayed)) = Ends-done (replay-Replayed recover_seq es w.mem h v) in
      let (y, u, ran', stations) = Ends-done (length-replay recover_seq es w.mem h v) in
      let same : u ≡ t = done-state (sym ran' ∙ ran) in
      let kept : length t.station_list ≡ length w.mem.station_list = rw (sym same) stations in
      rw (start_with_wal-replayed codec es w x t i.primary ran) (
        rw (← kept) (
          start_recovered-InStep (spec_replay es (λ k. none)) x (record w { mem = t }) refl
            (InSync-mem w t i) k (IsValidLog-length w.mem.station_list t.station_list es kept v)
            (subst (λ (q : Roster). Replayed (spec_replay es q) x t) empty replayed)))

  pub start_with_wal_timeout-InStep :
      (attempts : List Attempt) (w : Pair)
      → InSync codec w es bs rest
      → IsConsistent w.mem
      → roster w.mem ≡ (λ k. none)
      → IsValidLog w.mem.station_list es
      → Ends (InStep codec (length w.mem.station_list) es) (start_with_wal_timeout codec attempts w)
  unfolding start_with_wal_timeout after_dial
  start_with_wal_timeout-InStep attempts w i h empty v = by_dial (dial_backup attempts)
    where
      by_dial :
          (x : Option Error)
          → Ends (InStep codec (length w.mem.station_list) es) (after_dial codec x w)
      by_dial (some x) = ends tt
      by_dial none = start_with_wal-InStep w i h empty v
