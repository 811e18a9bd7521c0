-- ===== src/Node/Poll.antt =====
-- internal/node/manager.go: the standby's loop over etcd, and the start of the primary, over any etcd
-- client.
use snowcast.Prelude.{Text, Bool, true, false, Option, none, some, List, [], ◌∷◌}
use snowcast.Run.{Run, done, panic, Go, ◌>>=◌, Result, ok, err}
use snowcast.Protocol.{WalEntry, Error}
use snowcast.Wal.Log.{Codec}
use snowcast.Replication.Dial.{start_with_wal_timeout}
use snowcast.Leadership.Etcd.{Etcd}
use snowcast.Leadership.Session.{Session, get_primary, try_acquire, acquire, revoke_session}
use snowcast.Node.Manager.{
  Node, Role, leader, standby, replicated, Surroundings, boot, primary_value, on_pair,
  serve_clients, promote_to_leader, receive_all,
}

-- How a round of the loop ends: another round, `return`, or the promoted node serves.
pub data Polled : Type 0 where
  polling : (seen_primary : Bool) → Polled
  returned : Polled
  serving : Polled

-- What else happens to etcd while the loop sleeps, the entries that the primary sends meanwhile, and what
-- the node would meet if promoted.
pub record Round (E : Type 0) : Type 0 where
  pub meanwhile : E → E
  pub requests : List (Option WalEntry)
  pub surroundings : Surroundings

module _ {E : Type 0} (etcd : Etcd E) (codec : Codec) where
  abbrev pub lift_node : {A : Type 0} → E → Run Node A → Run (E × Node) A
  lift_node e (done a m) = done a (e, m)
  lift_node e (panic m) = panic (e, m)

  -- The lease of a promotion that failed is revoked.
  unfoldable pub after_promotion : Session → Option Error → Go (E × Node) Polled
  after_promotion session none (e, m) = done serving (e, m)
  after_promotion session (some x) (e, m) =
      done (polling true) ((revoke_session etcd session e).1, m)

  unfoldable pub after_try :
      Surroundings → Node → Result Error (Option Session) × E → Run (E × Node) Polled
  unfolding after_promotion
  after_try env m (err x, e) = done (polling true) (e, m)
  after_try env m (ok none, e) = done (polling true) (e, m)
  after_try env m (ok (some session), e) =
      ((λ (w : E × Node). lift_node (w.0) (promote_to_leader codec env session (w.1)))
          >>= after_promotion session)
        (e, m)

  unfoldable pub after_get :
      Surroundings → Bool → Node → Result Error (Option Text) × E → Run (E × Node) Polled
  unfolding after_try
  after_get env seen m (err x, e) = done (polling seen) (e, m)
  after_get env seen m (ok (some value), e) = done (polling true) (e, m)
  after_get env false m (ok none, e) = done (polling false) (e, m)
  after_get env true m (ok none, e) =
      after_try env m (try_acquire etcd m.cfg.etcd_key (primary_value m.cfg) m.cfg.lease_ttl e)

  -- A round of `runEtcdPollLoop`, by the role.
  unfoldable pub poll_from : Surroundings → Bool → Role → Go (E × Node) Polled
  unfolding after_get
  poll_from env seen leader w = done returned w
  poll_from env seen standby (e, m) = after_get env seen m (get_primary etcd m.cfg.etcd_key e)

  unfoldable pub poll : Surroundings → Bool → Go (E × Node) Polled
  unfolding poll_from
  poll env seen w = poll_from env seen (w.1).role w

  -- The loop over the rounds to come.
  unfoldable pub run_etcd_poll_loop : List (Round E) → Bool → Go (E × Node) Polled
  unfolding poll receive_all
  run_etcd_poll_loop [] seen w = done (polling seen) w
  run_etcd_poll_loop (round ∷ rounds) seen w =
      let rest = λ (s : Bool) (v : E × Node). run_etcd_poll_loop rounds s v in
      (poll round.surroundings seen >>= λ outcome v. elim outcome [
        | polling s ↦ rest s v
        | returned ↦ done returned v
        | serving ↦ done serving v
      ])
        (round.meanwhile (w.0), receive_all codec round.requests (w.1))

  -- Behind `StartWithWal`. After its error `global` is nil: it was at the start, or it was cleared.
  unfoldable pub started_leader : Surroundings → Option Error → Go Node (Option Error)
  unfolding serve_clients
  started_leader env (some x) m = done (some x) (record m { connected = false })
  started_leader env none m =
      (serve_clients env.serves replicated >>= λ outcome v. elim outcome [
        | none ↦ done none (record v { keeping = true })
        | some x ↦ done (some x) v
      ])
        (record m { connected = true })

  unfoldable pub after_acquire :
      Surroundings → Node → Result Error Session × E → Run (E × Node) (Option Error)
  unfolding started_leader
  after_acquire env m (err x, e) = done (some x) (e, m)
  after_acquire env m (ok session, e) = lift_node e (
      (on_pair (start_with_wal_timeout codec env.attempts) >>= started_leader env)
        (record m { session = some session; role = leader }))

  -- `RunAsLeader` up to the commands of the operator.
  unfoldable pub run_as_leader : Surroundings → Go (E × Node) (Option Error)
  unfolding after_acquire
  run_as_leader env (e, m) =
      after_acquire env (boot m)
        (acquire etcd m.cfg.etcd_key (primary_value m.cfg) m.cfg.lease_ttl e)
