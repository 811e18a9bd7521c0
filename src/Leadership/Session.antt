-- ===== src/Leadership/Session.antt =====
-- internal/leadership/etcd.go, over any etcd client.
use snowcast.Prelude.{ℕ, Text, codes, Bool, true, false, Option, none, some, List, [], ◌∷◌}
use snowcast.Run.{Result, ok, err}
use snowcast.Protocol.{Error, key_held, context_ended, lease_lost, lease_revoked}
use snowcast.Leadership.Etcd.{Etcd}

abbrev pub default_key : Text
default_key = codes "/snowcast/primary"

-- `Session` without the client; `onLost` is what the manager does when `keep_alive` calls it.
pub record Session : Type 0 where
  pub lease : ℕ
  pub key : Text
  pub value : Text

-- What the loop of `KeepAlive` meets.
pub data Beat : Type 0 where
  renewed : Beat
  stopped : Beat
  chan_closed : Beat
  nil_response : Beat

-- Whether `onLost` was called, and the error; `none` for a loop that has not returned.
unfoldable pub keep_alive : List Beat → Option (Bool × Error)
keep_alive [] = none
keep_alive (renewed ∷ beats) = keep_alive beats
keep_alive (stopped ∷ beats) = some (false, context_ended)
keep_alive (chan_closed ∷ beats) = some (true, lease_lost)
keep_alive (nil_response ∷ beats) = some (true, lease_revoked)

-- What `Acquire` makes of the outcome of `TryAcquire`.
unfoldable pub acquired :
    {E : Type 0} → Text → Result Error (Option Session) × E → Result Error Session × E
acquired key (err x, e) = (err x, e)
acquired key (ok none, e) = (err (key_held key), e)
acquired key (ok (some s), e) = (ok s, e)

module _ {E : Type 0} (etcd : Etcd E) where
  open etcd use {grant, commit, revoke, get}

  -- `TryAcquire` behind `Commit`, and behind `Grant`. The error of `Revoke` is dropped.
  unfoldable pub after_commit :
      Text → Text → ℕ → Result Error Bool × E → Result Error (Option Session) × E
  after_commit key value lease (err x, e) = (err x, (revoke lease e).1)
  after_commit key value lease (ok false, e) = (ok none, (revoke lease e).1)
  after_commit key value lease (ok true, e) =
      (ok (some (record { lease = lease; key = key; value = value })), e)

  unfoldable pub after_grant : Text → Text → Result Error ℕ × E → Result Error (Option Session) × E
  unfolding after_commit
  after_grant key value (err x, e) = (err x, e)
  after_grant key value (ok lease, e) =
      after_commit key value lease
        (commit (record { compared = key; key = key; value = value; lease = lease }) e)

  unfoldable pub try_acquire : (key value : Text) (ttl : ℕ) → E → Result Error (Option Session) × E
  unfolding after_grant
  try_acquire key value ttl e = after_grant key value (grant ttl e)

  unfoldable pub acquire : (key value : Text) (ttl : ℕ) → E → Result Error Session × E
  unfolding acquired try_acquire
  acquire key value ttl e = acquired key (try_acquire key value ttl e)

  -- `GetPrimary`: `none` is a key that is not held.
  unfoldable pub get_primary : Text → E → Result Error (Option Text) × E
  get_primary key e = get key e

  unfoldable pub revoke_session : Session → E → Option Error × E
  revoke_session s e = revoke s.lease e
