-- ===== src/Failover/Answered.antt =====
-- A request that told its client of success did what it means, and leaves the server with a log that
-- its memory is what it comes to; so does a run of requests.
use snowcast.Prelude.{
  ℕ, ◌+◌, ◌%◌, ◌^◌, ◌≤◌, ◌<◌, ◌≡◌, refl, sym, ap, ◌∙◌, inl, inr, Text, ℤ, pos, Bool, true, false,
  Bool-cases, Option, none, some, Option-cases, List, [], ◌∷◌, ◌++◌, length, length-append, arith,
  ltb, to_int32-pos,
}
use snowcast.Run.{Run, done, panic, done-state, done-value, done-ne-panic, pure, and_then}
use snowcast.Protocol.{WalEntry, Error}
use snowcast.State.Store.{State, ClientInfo, lookup}
use snowcast.State.Apply.{
  apply_handshake, rollback_handshake, apply_set_station, rollback_set_station, apply_disconnect,
  rollback_disconnect, apply_wal_op, get_client,
}
use snowcast.State.Allocate.{allocate, roster-allocate}
use snowcast.State.Roster.{Roster, roster, spec_op}
use snowcast.State.Reconnect.{saved_client}
use snowcast.Wal.Log.{Codec}
use snowcast.Control.Replicator.{Replicator}
use snowcast.Control.Handlers.{
  client_ip, key_of, handshake_op, set_station_op, disconnect_op, error_of, answer, announced,
  song_name, handshake_free, set_station_at_client, disconnect_client, handle_handshake,
  handle_set_station, handle_disconnect,
}
use snowcast.Replication.Coordinator.{Pair}
use snowcast.Replication.Settles.{coordinator}
use snowcast.Failover.Kept.{
  IsLogging, IsKept, IsKept-allocate, Acknowledged, replicate_and_wait-Acknowledged,
}
use snowcast.Failover.Tracked.{InStepLog, IsTracked, coordinator-IsLogging}
use snowcast.Failover.Requests.{
  Call, join, tune, leave, welcomed, tuned_in, spec_call, perform_on, perform, and_more,
  perform_all,
}

-- The requests in terms of the operations of the log.
spec_call-join :
    (k n port : ℕ) (r : Roster) → spec_op (handshake_op port) r ≡ spec_call k (join n port) r
unfolding spec_op spec_call
spec_call-join k n port r = refl

spec_call-leave :
    (k port : ℕ) (r : Roster) → spec_op (disconnect_op port) r ≡ spec_call k (leave port) r
unfolding spec_op spec_call
spec_call-leave k port r = refl

spec_call-tune :
    (k num port : ℕ) (previous : ℤ) (works : Bool) (r : Roster)
    → ltb num k ≡ true
    → num < 2 ^ 31
    → spec_op (set_station_op port num previous) r ≡ spec_call k (tune works num port) r
unfolding spec_op spec_call
spec_call-tune k num port previous works r inside small = rw (inside, to_int32-pos num small) refl

module _ {S : Type 0} (repl : Replicator S) (IsLog : List WalEntry → S → Type 0)
    (law : IsLogging repl IsLog) where
  open repl use {mem, with_mem}

  -- Where the client was told of a success, the log has one more entry and comes to the memory.
  abbrev pub Answered : Call → List WalEntry → S → Run S Bool → Type 0
  Answered c es w (done true w') =
      (e : WalEntry) × IsKept repl IsLog (es ++ e ∷ []) w'
      × (length (mem w').station_list ≡ length (mem w).station_list)
      × (spec_call (length (mem w).station_list) c (roster (mem w)) ≡ some (roster (mem w')))
  Answered c es w (done false w') = Unit
  Answered c es w (panic w') = Unit

  module _ (es : List WalEntry) (w : S) (t : IsKept repl IsLog es w)
      (room : length es + 1 < 2 ^ 64) where
    welcomed-Answered :
        (port n k : ℕ) (q : Run S (Option Error))
        → Acknowledged repl IsLog (handshake_op port) es w q
        → Answered
            (join n port)
            es
            w
            (and_then (and_then q (λ e. pure (answer k e))) (λ r. pure (welcomed r)))
    welcomed-Answered port n k (done none w') a = (
      _,
      a.0,
      a.1,
      sym (spec_call-join (length (mem w).station_list) n port (roster (mem w))) ∙ a.2,
    )
    welcomed-Answered port n k (done (some x) w') a = tt
    welcomed-Answered port n k (panic w') a = tt

    apply_handshake-op :
        (port : ℕ) (s : State)
        → error_of (apply_handshake client_ip port) s ≡ apply_wal_op (handshake_op port) s
    unfolding apply_wal_op
    apply_handshake-op port s = refl

    join-Answered : (n port : ℕ) → Answered (join n port) es w (perform_on repl (join n port) w)
    unfolding handle_handshake handshake_free get_client
    join-Answered n port = elim (Option-cases (lookup (key_of port) (mem w).current_clients)) [
      | inl free ↦
          rw (free, handle_handshake)
            (welcomed-Answered port n (n % 2 ^ 32) _ (
              replicate_and_wait-Acknowledged repl IsLog law (handshake_op port) es w t tt
                (error_of (apply_handshake client_ip port)) (rollback_handshake client_ip port)
                (apply_handshake-op port (mem w)) room))
      | inr (client, found) ↦ rw (found, handle_handshake) tt
    ]

    left-Answered :
        (port : ℕ) (copied : ClientInfo) (q : Run S (Option Error))
        → Acknowledged repl IsLog (disconnect_op port) es (with_mem (allocate copied (mem w)) w) q
        → Answered (leave port) es w (
            and_then
              (and_then {A = Option Error} {B = Bool × Option Error} q
                (λ e. pure (elim e [ some x ↦ (false, some x) | none ↦ (true, none) ])))
              (λ r. pure (r.0)))
    left-Answered port copied (done none w') a =
        let same = law.mem-with_mem (allocate copied (mem w)) w in
        let stations = rw same at a.1 in
        let spec = rw same at a.2 in
        (
          _,
          a.0,
          stations,
          sym (spec_call-leave (length (mem w).station_list) port (roster (mem w)))
              ∙ ap (spec_op (disconnect_op port))
                  (sym (roster-allocate copied (mem w) t.consistent))
              ∙ spec,
        )
    left-Answered port copied (done (some x) w') a = tt
    left-Answered port copied (panic w') a = tt

    apply_disconnect-op :
        (port : ℕ) (s : State)
        → apply_disconnect (key_of port) s ≡ apply_wal_op (disconnect_op port) s
    unfolding apply_wal_op
    apply_disconnect-op port s = refl

    leave-Answered : (port : ℕ) → Answered (leave port) es w (perform_on repl (leave port) w)
    unfolding handle_disconnect disconnect_client get_client
    leave-Answered port = elim (Option-cases (lookup (key_of port) (mem w).current_clients)) [
      | inl nobody ↦ rw (nobody, handle_disconnect) tt
      | inr (client, found) ↦
          let saved = saved_client ((mem w).heap client) in
          let copied = with_mem (allocate saved (mem w)) w in
          rw (found, handle_disconnect)
            (left-Answered port saved _ (
              replicate_and_wait-Acknowledged repl IsLog law (disconnect_op port) es copied
                (IsKept-allocate repl IsLog law saved es w t) tt (apply_disconnect (key_of port))
                (rollback_disconnect (key_of port) (mem w).next)
                (apply_disconnect-op port (mem copied)) room))
    ]

    tuned-Answered :
        (port num : ℕ) (previous : ℤ) (works good : Bool) (name : Text) (q : Run S (Option Error))
        → ltb num (length (mem w).station_list) ≡ true
        → num < 2 ^ 31
        → Acknowledged repl IsLog (set_station_op port num previous) es w q
        → Answered
            (tune good num port)
            es
            w
            (and_then (and_then q (λ e. pure (announced works name e))) (λ r. pure (tuned_in r)))
    tuned-Answered port num previous true good name (done none w') inside small a = (
      _,
      a.0,
      a.1,
      sym (
            spec_call-tune (length (mem w).station_list) num port previous good (roster (mem w))
              inside small)
          ∙ a.2,
    )
    tuned-Answered port num previous false good name (done none w') inside small a = tt
    tuned-Answered port num previous works good name (done (some x) w') inside small a = tt
    tuned-Answered port num previous works good name (panic w') inside small a = tt

    apply_set_station-op :
        (port num : ℕ) (previous : ℤ) (s : State)
        → num < 2 ^ 31
        → error_of (apply_set_station (key_of port) (pos num)) s
          ≡ apply_wal_op (set_station_op port num previous) s
    unfolding apply_wal_op
    apply_set_station-op port num previous s small = rw (to_int32-pos num small) refl

    tune-Answered :
        (works : Bool) (num port : ℕ)
        → length (mem w).station_list ≤ 2 ^ 31
        → Answered (tune works num port) es w (perform_on repl (tune works num port) w)
    unfolding handle_set_station set_station_at_client get_client
    tune-Answered works num port few = elim (Bool-cases (ltb num (length (mem w).station_list))) [
      | inr out ↦ rw (out, handle_set_station) tt
      | inl inside ↦ elim (Option-cases (lookup (key_of port) (mem w).current_clients)) [
        | inl nobody ↦ rw (inside, nobody, handle_set_station) tt
        | inr (client, found) ↦
            let previous = ((mem w).heap client).curr_station in
            let small : num < 2 ^ 31 = ground (arith, few, inside) in
            rw (inside, found, handle_set_station)
              (tuned-Answered port num previous works works (song_name port num (mem w)) _ inside
                small
                (replicate_and_wait-Acknowledged repl IsLog law (set_station_op port num previous)
                  es w t (rw (to_int32-pos num small) inside)
                  (error_of (apply_set_station (key_of port) (pos num)))
                  (rollback_set_station (key_of port) previous)
                  (apply_set_station-op port num previous (mem w) small) room))
      ]
    ]

  pub perform-Answered :
      (c : Call) (es : List WalEntry) (w : S)
      → IsKept repl IsLog es w
      → length es + 1 < 2 ^ 64
      → length (mem w).station_list ≤ 2 ^ 31
      → Answered c es w (perform_on repl c w)
  perform-Answered (join n port) es w t room few = join-Answered es w t room n port
  perform-Answered (leave port) es w t room few = leave-Answered es w t room port
  perform-Answered (tune works num port) es w t room few =
      tune-Answered es w t room works num port few

module _ (codec : Codec) where
  -- One request, by its outcome, and the requests behind it.
  more-IsTracked :
      (c : Call) (es : List WalEntry) (cs : List Call) (w w' : Pair) (q : Run Pair Bool)
      → Answered (coordinator codec) (InStepLog codec) (coordinator-IsLogging codec) c es w q
      → ((e : WalEntry) (v : Pair)
          → IsTracked codec (es ++ e ∷ []) v
          → length v.mem.station_list ≡ length w.mem.station_list
          → perform_all codec cs v ≡ done true w'
          → (fs : List WalEntry) × IsTracked codec fs w'
            × (length w'.mem.station_list ≡ length w.mem.station_list))
      → and_then q (λ told. and_more codec told (perform_all codec cs)) ≡ done true w'
      → (fs : List WalEntry) × IsTracked codec fs w'
        × (length w'.mem.station_list ≡ length w.mem.station_list)
  more-IsTracked c es cs w w' (done true v) (e, t, stations, spec) rest ran =
      rest e v t stations ran
  more-IsTracked c es cs w w' (done false v) a rest ran = absurd (ground (arith, done-value ran))
  more-IsTracked c es cs w w' (panic v) a rest ran = absurd (done-ne-panic (sym ran))

  pub perform_all-IsTracked :
      (cs : List Call) (es : List WalEntry) (w w' : Pair)
      → IsTracked codec es w
      → length es + length cs < 2 ^ 64
      → length w.mem.station_list ≤ 2 ^ 31
      → perform_all codec cs w ≡ done true w'
      → (fs : List WalEntry) × IsTracked codec fs w'
        × (length w'.mem.station_list ≡ length w.mem.station_list)
  unfolding perform_all
  perform_all-IsTracked [] es w w' t room few ran =
      let here = done-state ran in (es, rw (sym here) t, rw (sym here) refl)
  perform_all-IsTracked (c ∷ cs) es w w' t room few ran =
      more-IsTracked c es cs w w' (perform codec c w)
        (perform-Answered (coordinator codec) (InStepLog codec) (coordinator-IsLogging codec) c es w
          t (omega (arith, room)) few)
        (λ e v next stations rest.
          let (fs, tracked, kept) =
            perform_all-IsTracked cs (es ++ e ∷ []) v w' next
              (omega (arith, room, length-append es (e ∷ []))) (rw stations few) rest in
          (fs, tracked, kept ∙ stations))
        ran
