-- ===== src/Node/Demote.antt =====
-- A node that steps down is a backup again.
use snowcast.Prelude.{◌≡◌, Bool, true, false, Option, none, some, List, [], ◌∷◌}
use snowcast.Protocol.{WalEntry}
use snowcast.Wal.Log.{Codec}
use snowcast.Wal.Holds.{Holds}
use snowcast.Replication.Backup.{Follows}
use snowcast.Node.Manager.{
  Node, ReplServer, standby, handler_of, Demotion, stopping, demoted, Service,
}

-- One of the rounds finds the port free.
abbrev pub IsFree : List Bool → Type 0
IsFree [] = ⊥
IsFree (true ∷ rounds) = Unit
IsFree (false ∷ rounds) = IsFree rounds

pub record IsBackup (codec : Codec) (es : List WalEntry) (x : Demotion) (m : Node) : Type 0 where
  pub fine : x ≡ demoted none
  pub role : m.role ≡ standby
  pub keeping : m.keeping ≡ false
  pub session : m.session ≡ none
  pub client_srv : m.client_srv ≡ none
  pub connected : m.connected ≡ false
  pub server :
      (r : ReplServer) × (m.repl_server ≡ some r) × Follows codec es (handler_of r m.pair.wal)

-- It waits for a stream of its clients, and only its keepalive has ended.
abbrev pub IsStopping : Node → Demotion → Node → Type 0
IsStopping m x v = (x ≡ stopping) × (v ≡ record m { keeping = false })

-- By whether the clients' streams end, and the client service.
abbrev pub IsDemoted :
    Codec → List WalEntry → Bool → Option Service → Node → Demotion → Node → Type 0
IsDemoted codec es streams_end none m x v = IsBackup codec es x v
IsDemoted codec es true (some srv) m x v = IsBackup codec es x v
IsDemoted codec es false (some srv) m x v = IsStopping m x v
