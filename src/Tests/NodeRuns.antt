-- ===== src/Tests/NodeRuns.antt =====
-- The theorems on a node, applied to a standby whose log has one handshake, and to its loop over etcd.
use snowcast.Prelude.{
  ◌≡◌, refl, inl, true, false, none, some, codes, [], ◌∷◌, text_eq, text_eq_refl, text_eq-cons_nil,
  is_some, minus_one,
}
use snowcast.Run.{Ends}
use snowcast.State.Store.{client_key}
use snowcast.State.Roster.{Roster, assign}
use snowcast.Replication.Dial.{dial_backup, ping_failed, ping_answered}
use snowcast.Replication.Recovery.{spec_replay}
use snowcast.Leadership.Session.{Session, default_key}
use snowcast.Node.Manager.{Config, Node, standby, Surroundings, promote_to_leader}
use snowcast.Node.Poll.{Round, run_etcd_poll_loop}
use snowcast.Node.Promote.{Promoted, promote_to_leader-Promoted}
use snowcast.Node.Twice.{IsLocal, promote_to_leader-IsLocal}
use snowcast.Node.Watch.{received, IsWaiting, run_etcd_poll_loop-IsWaiting}
use snowcast.Node.Again.{IsStuck, promote_to_leader-IsStuck}
use snowcast.Tests.Server.{known, host, booted}
use snowcast.Tests.Journal.{plain, joining, journal-Holds}
use snowcast.Tests.PairRuns.{pair}
use snowcast.Tests.Keys.{holder, local_etcd, local_etcd-IsEtcd, no_keys, Keys}

abbrev pub config : Config
config = record {
  etcd_key = default_key;
  lease_ttl = 5;
  lease_poll = 1000;
  client_port = codes "16800";
  backup_addr = [];
  files = codes "a.mp3" ∷ codes "b.mp3" ∷ [];
}

abbrev pub alone : Node
alone = record {
  cfg = config;
  pair = record pair { mem = booted };
  connected = false;
  role = standby;
  session = none;
  keeping = false;
  repl_server = none;
  client_srv = none;
}

abbrev beside : Node
beside = record alone { cfg = record config { backup_addr = codes "127.0.0.1:16801" } }

abbrev pub reached : Surroundings
reached = record { attempts = ping_failed ∷ ping_answered ∷ []; serves = true }

abbrev pub lease_1 : Session
lease_1 = record { lease = 1; key = default_key; value = codes "127.0.0.1:16800" }

promote_to_leader-Promoted_example :
    Ends
      (λ x m'. Promoted lease_1 alone (spec_replay (joining ∷ []) (λ k. none)) true x m')
      (promote_to_leader plain reached lease_1 alone)
promote_to_leader-Promoted_example =
    promote_to_leader-Promoted plain reached lease_1 alone (joining ∷ []) refl journal-Holds refl
      (tt, tt) (inl (text_eq_refl []))

abbrev one_client : Roster
one_client = assign (λ k. none) (client_key host 5000) (some minus_one)

address : text_eq beside.cfg.backup_addr [] ≡ false
address = text_eq-cons_nil 49 (codes "27.0.0.1:16801")

answers : dial_backup reached.attempts ≡ none
unfolding dial_backup
answers = refl

replayed : spec_replay (joining ∷ []) (λ k. none) ≡ some one_client
unfolding spec_replay snowcast.State.Roster.spec_op
replayed = refl

still : is_some (one_client (client_key host 5000)) ≡ true
still = rw (text_eq_refl (client_key host 5000)) refl

promote_to_leader-IsLocal_example :
    Ends (IsLocal one_client) (promote_to_leader plain reached lease_1 beside)
promote_to_leader-IsLocal_example =
    promote_to_leader-IsLocal plain reached lease_1 beside joining []
      (record { client_ip = host; udp_port = 5000 }) one_client address answers refl journal-Holds
      refl refl refl (tt, tt) replayed still

abbrev calm : Round Keys
calm = record { meanwhile = λ e. e; requests = none ∷ some joining ∷ []; surroundings = reached }

-- The standby with its replication server.
abbrev following : Node
following = record alone { repl_server = some (record { last_wal_seq = 1; accepting = true }) }

run_etcd_poll_loop-IsWaiting_example :
    Ends
      (IsWaiting holder default_key false local_etcd plain local_etcd-IsEtcd
        (received plain (calm ∷ calm ∷ []) following))
      (run_etcd_poll_loop local_etcd plain (calm ∷ calm ∷ []) false (no_keys, following))
run_etcd_poll_loop-IsWaiting_example =
    run_etcd_poll_loop-IsWaiting holder default_key false local_etcd plain local_etcd-IsEtcd
      (calm ∷ calm ∷ []) false following no_keys (λ e h. h, (λ e h. h, tt))
      (record { role = refl; watched = refl }) refl (λ h. refl)

promote_to_leader-IsStuck_example :
    Ends
      (IsStuck lease_1 (record alone { pair = pair }))
      (promote_to_leader plain reached lease_1 (record alone { pair = pair }))
promote_to_leader-IsStuck_example =
    promote_to_leader-IsStuck plain reached lease_1 (record alone { pair = pair }) joining []
      (record { client_ip = host; udp_port = 5000 }) 0 refl journal-Holds refl known
