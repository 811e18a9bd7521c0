-- ===== src/Leadership/Etcd.antt =====
-- The etcd client that internal/leadership/etcd.go calls, as a parameter: its calls, and what their
-- documentation promises. `E` is the state of the servers; a key stands with its value and its lease.
use snowcast.Prelude.{
  ℕ, ◌≡◌, ◌≢◌, ◌⊎◌, Text, Bool, true, false, Option, none, some, is_some, text_eq, if◌then◌else◌,
  ◌==◌,
}
use snowcast.Run.{Result, ok, err}
use snowcast.Protocol.{Error}

-- The transaction that `TryAcquire` builds: if `compared` has no create revision, put.
pub record Txn : Type 0 where
  pub compared : Text
  pub key : Text
  pub value : Text
  pub lease : ℕ

pub record Etcd (E : Type 0) : Type 0 where
  pub grant : (ttl : ℕ) → E → Result Error ℕ × E
  pub commit : Txn → E → Result Error Bool × E
  pub revoke : (lease : ℕ) → E → Option Error × E
  pub get : (key : Text) → E → Result Error (Option Text) × E

-- A key that is revoked with its lease.
abbrev pub unless_lease : ℕ → Option (Text × ℕ) → Option (Text × ℕ)
unless_lease l none = none
unless_lease l (some (v, m)) = if m == l then none else some (v, m)

abbrev pub value_of : Option (Text × ℕ) → Option Text
value_of none = none
value_of (some (v, m)) = some v

module _ {E : Type 0} (holder : E → Text → Option (Text × ℕ)) where
  abbrev pub IsSame : E → E → Type 0
  IsSame e f = (k : Text) → holder f k ≡ holder e k

  abbrev pub IsPut : Txn → E → E → Type 0
  IsPut t e f =
      (holder e t.compared ≡ none)
      × ((k : Text)
          → holder f k ≡ (if text_eq t.key k then some (t.value, t.lease) else holder e k))

  -- A granted lease is one that no key has.
  abbrev pub Granted : E → Result Error ℕ × E → Type 0
  Granted e (ok l, f) = IsSame e f × ((k v : Text) → holder e k ≢ some (v, l))
  Granted e (err x, f) = IsSame e f

  -- The reply to a transaction can be lost after it took effect.
  abbrev pub Committed : Txn → E → Result Error Bool × E → Type 0
  Committed t e (ok true, f) = IsPut t e f
  Committed t e (ok false, f) = (is_some (holder e t.compared) ≡ true) × IsSame e f
  Committed t e (err x, f) = IsSame e f ⊎ IsPut t e f

  abbrev pub Revoked : ℕ → E → Option Error × E → Type 0
  Revoked l e (none, f) = (k : Text) → holder f k ≡ unless_lease l (holder e k)
  Revoked l e (some x, f) = IsSame e f ⊎ ((k : Text) → holder f k ≡ unless_lease l (holder e k))

  abbrev pub Got : Text → E → Result Error (Option Text) × E → Type 0
  Got k e (ok v, f) = (v ≡ value_of (holder e k)) × IsSame e f
  Got k e (err x, f) = IsSame e f

  pub record IsEtcd (etcd : Etcd E) : Type 0 where
    pub granted : (ttl : ℕ) (e : E) → Granted e (etcd.grant ttl e)
    pub committed : (t : Txn) (e : E) → Committed t e (etcd.commit t e)
    pub revoked : (l : ℕ) (e : E) → Revoked l e (etcd.revoke l e)
    pub got : (k : Text) (e : E) → Got k e (etcd.get k e)
