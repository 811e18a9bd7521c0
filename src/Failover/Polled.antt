-- ===== src/Failover/Polled.antt =====
-- The round of a standby's loop in which it takes over.
use snowcast.Prelude.{◌+◌, ◌^◌, ◌≤◌, ◌<◌, ◌≡◌, refl, ap, ◌∙◌, true, none, some, List, [], length}
use snowcast.Run.{done, and_then, Ends, ends, Ends-done, ok}
use snowcast.Protocol.{WalEntry}
use snowcast.Wal.Log.{Codec}
use snowcast.Replication.Coordinator.{Pair}
use snowcast.Leadership.Etcd.{Etcd}
use snowcast.Leadership.Session.{Session, get_primary, try_acquire}
use snowcast.Node.Manager.{Node, standby, Surroundings, primary_value, promote_to_leader}
use snowcast.Node.Poll.{serving, lift_node, after_promotion, after_try, after_get, poll_from, poll}
use snowcast.Node.Promote.{IsAlone}
use snowcast.Failover.Tracked.{IsTracked}
use snowcast.Failover.Requests.{Call, perform_all}
use snowcast.Failover.Survives.{TakesOver, perform_all-TakesOver}

module _ {E : Type 0} (etcd : Etcd E) (codec : Codec) (env : Surroundings) (session : Session)
    (m : Node) (e e1 e2 : E) (is_standby : m.role ≡ standby)
    (free : get_primary etcd m.cfg.etcd_key e ≡ (ok none, e1))
    (acquired : try_acquire etcd m.cfg.etcd_key (primary_value m.cfg) m.cfg.lease_ttl e1
      ≡ (ok (some session), e2)) where
  poll-serving :
      (m' : Node)
      → promote_to_leader codec env session m ≡ done none m'
      → poll etcd codec env true (e, m) ≡ done serving (e2, m')
  unfolding poll poll_from after_get after_try after_promotion
  poll-serving m' promoted =
      ap (λ r. poll_from etcd codec env true r (e, m)) is_standby
      ∙ ap (after_get etcd codec env true m) free
      ∙ ap (after_try etcd codec env m) acquired
      ∙ ap (λ q. and_then (lift_node etcd codec e2 q) (after_promotion etcd codec session)) promoted

  -- Where a primary and its backup hold the same log, the primary's memory is what the log comes to,
  -- the backup accepts calls and no write or sync of its file fails, after any run of requests that all told their clients of success, with at most 2^31
  -- stations and fewer than 2^64 entries: a round of the loop of a standby with the backup's log
  -- that saw the key held before, finds it free now and is given a session ends with the standby
  -- promoted and serving every client at the station that it has at the primary. The standby has as
  -- many stations, no clients in memory, no reachable backup of its own and ports that open.
  pub poll-TakesOver :
      (w w' : Pair)
      → m.pair.mem.current_clients ≡ []
      → IsAlone env m
      → env.serves ≡ true
      → length m.cfg.files ≡ length w.mem.station_list
      → m.pair.wal ≡ w'.backup.wal
      → (calls : List Call) (es : List WalEntry) → IsTracked codec es w
      → length es + length calls < 2 ^ 64
      → length w.mem.station_list ≤ 2 ^ 31
      → perform_all codec calls w ≡ done true w'
      → Ends
          (λ outcome v. (outcome ≡ serving) × (v.0 ≡ e2) × TakesOver w'.mem none (v.1))
          (poll etcd codec env true (e, m))
  poll-TakesOver w w' nobody alone serves stations backup calls es t room few ran =
      let (x, m', promoted, over) = Ends-done (
        perform_all-TakesOver codec env session m w w' is_standby nobody alone serves stations
          backup calls es t room few ran) in
      let fine : x ≡ none = over.fine in
      rw (poll-serving m' (promoted ∙ ap (λ y. done y m') fine)) (
        ends (
          refl,
          refl,
          record {
            fine = refl;
            role = over.role;
            client_srv = over.client_srv;
            consistent = over.consistent;
            clients = over.clients;
          },
        ))
