-- ===== src/System/Sound.antt =====
-- What every state of the system keeps, and that a promotion keeps it.
use mathlib.Core.Path.{subst}
use snowcast.Prelude.{
  ℕ, ◌≡◌, refl, sym, ap, ◌∙◌, true, false, Bool, Option, none, some, arith, List, [], length,
}
use snowcast.Run.{done, Ends-done, done-state, done-value}
use snowcast.Protocol.{WalEntry, Error, apply_wal_seq}
use snowcast.State.Store.{State, init_stations}
use snowcast.State.Boot.{init_stations-IsConsistent, roster-init_stations}
use snowcast.State.Invariant.{IsConsistent}
use snowcast.State.Roster.{roster}
use snowcast.Wal.Log.{Codec}
use snowcast.Wal.Holds.{Holds}
use snowcast.Replication.Coordinator.{Pair}
use snowcast.Replication.Recovery.{
  spec_replay, IsValidLog, IsValidLog-length, Replayed, replay-Replayed,
}
use snowcast.Leadership.Session.{Session}
use snowcast.Node.Manager.{
  Node, leader, standby, local_only, Surroundings, serve_clients, after_replay, promote_to_leader,
}
use snowcast.Node.Promote.{IsAlone, connect-alone, caught_up, promote_to_leader-replayed}
use snowcast.Failover.Tracked.{IsTracked}
use snowcast.Failover.Logged.{IsOnItsOwn}
use snowcast.Failover.Started.{length-replay}
use snowcast.Failover.Survives.{length-init_stations}
use snowcast.System.Steps.{System, paired, single, own}

module _ (codec : Codec) (k : ℕ) where
  pub record IsPaired (es : List WalEntry) (w : Pair) (m : Node) : Type 0 where
    pub tracked : IsTracked codec es w
    pub stations : length w.mem.station_list ≡ k
    pub role : m.role ≡ standby
    pub log : m.pair.wal ≡ w.backup.wal
    pub nobody : m.pair.mem.current_clients ≡ []
    pub files : length m.cfg.files ≡ k

  pub record IsSingle (es : List WalEntry) (m : Node) : Type 0 where
    pub kept : IsOnItsOwn codec es (own m)
    pub stations : length m.pair.mem.station_list ≡ k
    pub role : m.role ≡ leader
    pub service : m.client_srv ≡ some local_only

  abbrev pub IsSound : System → Type 0
  IsSound (paired w m) = (es : List WalEntry) × IsPaired es w m
  IsSound (single m) = (es : List WalEntry) × IsSingle es m

  module _ (env : Surroundings) (session : Session) (m : Node) where
    -- The promoted node that serves.
    abbrev pub serving : State → Node
    serving t = record (caught_up codec env session m t) { client_srv = some local_only }

    -- Behind a replay without an error, a promotion without an error serves.
    after_replay-serving :
        (t : State) (serves : Bool) (m' : Node)
        → env.serves ≡ serves
        → IsAlone env m
        → after_replay codec env none (caught_up codec env session m t) ≡ done none m'
        → m' ≡ serving t
    unfolding after_replay serve_clients
    after_replay-serving t true m' ports alone ran =
        let run =
          rw (connect-alone codec env (caught_up codec env session m t) alone, ports) at ran in
        sym (done-state run)
    after_replay-serving t false m' ports alone ran =
        let run =
          rw (connect-alone codec env (caught_up codec env session m t) alone, ports) at ran in
        absurd (ground (arith, done-value run))

    module _ (es : List WalEntry) (w : Pair) (p : IsPaired es w m) (alone : IsAlone env m) where
      abbrev booted : State
      booted = init_stations m.cfg.files m.pair.mem

      length-booted : length booted.station_list ≡ length w.mem.station_list
      length-booted = length-init_stations m.cfg.files m.pair.mem ∙ p.files ∙ sym p.stations

      valid-booted : IsValidLog booted.station_list es
      valid-booted =
          IsValidLog-length w.mem.station_list booted.station_list es length-booted p.tracked.valid

      own_log : Holds codec m.pair.wal es
      own_log = subst (λ l. Holds codec l es) (sym p.log) p.tracked.sync.backup.wal

      Replayed-roster :
          (x : Option Error) (t : State)
          → Replayed (spec_replay es (roster booted)) x t
          → (x ≡ none) × (roster t ≡ roster w.mem)
      Replayed-roster x t r =
          subst (λ o. Replayed o x t)
            (ap (spec_replay es) (roster-init_stations m.cfg.files m.pair.mem p.nobody)
              ∙ p.tracked.agrees)
            r

      serving-IsSingle :
          (t : State)
          → IsConsistent t
          → roster t ≡ roster w.mem
          → length t.station_list ≡ length booted.station_list
          → IsSingle es (serving t)
      serving-IsSingle t h seen kept = record {
        kept = record {
          sync = record { holds = own_log; numbered = p.tracked.sync.numbered };
          consistent = h;
          valid = IsValidLog-length booted.station_list t.station_list es kept valid-booted;
          agrees = p.tracked.agrees ∙ ap some (sym seen);
        };
        stations = kept ∙ length-booted ∙ p.stations;
        role = refl;
        service = refl;
      }

      pub promote_to_leader-IsSingle :
          (m' : Node)
          → promote_to_leader codec env session m ≡ done none m'
          → IsSingle es m' × (roster m'.pair.mem ≡ roster w.mem)
      promote_to_leader-IsSingle m' promoted =
          let start = init_stations-IsConsistent m.cfg.files m.pair.mem p.nobody in
          let (x, t, ran, (h, replayed)) =
            Ends-done (replay-Replayed apply_wal_seq es booted start valid-booted) in
          let (y, u, again, kept) =
            Ends-done (length-replay apply_wal_seq es booted start valid-booted) in
          let kept_t : length t.station_list ≡ length booted.station_list =
            rw (done-state (sym ran ∙ again)) kept in
          let (fine, seen) = Replayed-roster x t replayed in
          let whole = promote_to_leader-replayed codec env session m es x t p.role own_log ran in
          let here : m' ≡ serving t = after_replay-serving t env.serves m' refl alone (
            ap (λ e. after_replay codec env e (caught_up codec env session m t)) (sym fine)
            ∙ sym whole
            ∙ promoted) in
          rw here (serving-IsSingle t h seen kept_t, seen)
