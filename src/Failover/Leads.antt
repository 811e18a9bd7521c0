-- ===== src/Failover/Leads.antt =====
-- What `RunAsLeader` leaves.
use snowcast.Prelude.{
  ℕ, ◌≡◌, refl, Bool, Text, true, false, Option, none, some, List, [], length, if◌then◌else◌,
  text_eq,
}
use snowcast.Run.{Run, done, panic, and_then, Ends, ends, Result, ok, err}
use snowcast.Protocol.{WalEntry, Error}
use snowcast.State.Store.{init_stations}
use snowcast.State.Boot.{init_stations-IsConsistent, roster-init_stations}
use snowcast.Wal.Log.{Codec}
use snowcast.Replication.Coordinator.{Pair}
use snowcast.Replication.Dial.{Attempt}
use snowcast.Replication.Retry.{InSync}
use snowcast.Replication.Recovery.{IsValidLog}
use snowcast.Leadership.Etcd.{Etcd, IsEtcd}
use snowcast.Leadership.Session.{Session, acquired, acquire, try_acquire}
use snowcast.Leadership.Exclusive.{Acquired, try_acquire-Acquired}
use snowcast.Node.Manager.{
  Node, leader, replicated, Surroundings, boot, primary_value, lift_pair, serve_clients,
}
use snowcast.Node.Poll.{lift_node, started_leader, after_acquire, run_as_leader}
use snowcast.Failover.Tracked.{IsTracked}
use snowcast.Failover.Started.{InStep, InSync-mem, start_with_wal_timeout-InStep}

module _ {E : Type 0} (holder : E → Text → Option (Text × ℕ)) (codec : Codec) (es : List WalEntry)
    (m : Node) (e : E) where
  -- The node serves over its coordinator, in step with the backup, and holds the key, which was free.
  pub record IsLeading (w : E × Node) : Type 0 where
    pub role : w.1.role ≡ leader
    pub client_srv : w.1.client_srv ≡ some replicated
    pub connected : w.1.connected ≡ true
    pub tracked : IsTracked codec es w.1.pair
    pub was_free : holder e m.cfg.etcd_key ≡ none
    pub session :
        (s : Session) × (w.1.session ≡ some s)
        × ((k : Text)
            → holder w.0 k ≡ (
                if text_eq m.cfg.etcd_key k
                then some (primary_value m.cfg, s.lease)
                else holder e k))

  -- Without an error it leads; with one it does not serve.
  abbrev pub Led : Option Error → E × Node → Type 0
  Led none w = IsLeading w
  Led (some x) w = w.1.client_srv ≡ m.client_srv

  module _ (etcd : Etcd E) (env : Surroundings) where
    module _ (s : Session) (f : E) (free : holder e m.cfg.etcd_key ≡ none)
        (held : (k : Text)
          → holder f k ≡ (
              if text_eq m.cfg.etcd_key k
              then some (primary_value m.cfg, s.lease)
              else holder e k)) where
      started_leader-Led :
          (serves : Bool) (attempts : List Attempt) (x : Option Error) (v : Node)
          → v.role ≡ leader
          → v.session ≡ some s
          → v.client_srv ≡ m.client_srv
          → InStep codec (length (boot m).pair.mem.station_list) es x v.pair
          → Ends Led (
              lift_node etcd codec f
                (started_leader etcd codec (record { attempts = attempts; serves = serves }) x v))
      unfolding started_leader serve_clients
      started_leader-Led serves attempts (some x) v role its before step = ends before
      started_leader-Led true attempts none v role its before step = ends (record {
        role = role;
        client_srv = refl;
        connected = refl;
        tracked = step.0;
        was_free = free;
        session = (s, its, held);
      })
      started_leader-Led false attempts none v role its before step = ends before

      -- The node that has acquired the key.
      abbrev elected : Node
      elected = record (boot m) { session = some s; role = leader }

      leads :
          (q : Run Pair (Option Error))
          → Ends (InStep codec (length (boot m).pair.mem.station_list) es) q
          → Ends Led (
              lift_node etcd codec f
                (and_then (lift_pair elected q) (started_leader etcd codec env)))
      leads (done x w') (ends step) =
          started_leader-Led env.serves env.attempts x (record elected { pair = w' }) refl refl refl
            step
      leads (panic w') step = elim step [ ]

    module _ (bs rest : List WalEntry) (law : IsEtcd holder etcd)
        (sync : InSync codec m.pair es bs rest) (nobody : m.pair.mem.current_clients ≡ [])
        (valid : IsValidLog (init_stations m.cfg.files m.pair.mem).station_list es) where
      after_acquire-Led :
          (t : Result Error (Option Session) × E)
          → Acquired holder m.cfg.etcd_key (primary_value m.cfg) e t
          → Ends Led (after_acquire etcd codec env (boot m) (acquired m.cfg.etcd_key t))
      unfolding after_acquire acquired
      after_acquire-Led (err x, f) a = ends refl
      after_acquire-Led (ok none, f) a = ends refl
      after_acquire-Led (ok (some s), f) (free, held) = leads s f free held _ (
          start_with_wal_timeout-InStep codec es bs rest env.attempts (boot m).pair
            (InSync-mem codec es bs rest m.pair (init_stations m.cfg.files m.pair.mem) sync)
            (init_stations-IsConsistent m.cfg.files m.pair.mem nobody)
            (roster-init_stations m.cfg.files m.pair.mem nobody) valid)

      -- Over an etcd that does as documented, where the log of the node holds es, numbered from 1
      -- and valid for its stations, the backup holds a prefix of it, accepts calls and has no
      -- failing write or sync ahead, and no client is in memory, RunAsLeader does not panic,
      -- whatever the dial and the network do: without an error the key was free and is held under
      -- the lease of the node's session, the node is leader and serves over its coordinator, the
      -- backup holds es and the memory is what es comes to; with an error the client service is as
      -- it was.
      pub run_as_leader-Led : Ends Led (run_as_leader etcd codec env (e, m))
      unfolding run_as_leader acquire
      run_as_leader-Led =
          after_acquire-Led
            (try_acquire etcd m.cfg.etcd_key (primary_value m.cfg) m.cfg.lease_ttl e)
            (try_acquire-Acquired holder etcd law m.cfg.etcd_key (primary_value m.cfg)
              m.cfg.lease_ttl e)
