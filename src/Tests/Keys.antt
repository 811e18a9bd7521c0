-- ===== src/Tests/Keys.antt =====
-- An etcd of one process: the keys, and a lease that no key has.
use snowcast.Prelude.{
  ℕ, suc, ◌+◌, ◌<◌, ◌≡◌, ◌≢◌, refl, inl, inr, Text, Bool, true, false, Option, none, some, arith,
  text_eq, Bool-cases, ◌==◌, if◌then◌else◌,
}
use snowcast.Run.{Result, ok}
use snowcast.Protocol.{Error}
use snowcast.Leadership.Etcd.{Txn, Etcd, IsEtcd, Committed, unless_lease, value_of}

abbrev KeyMap : Type 0
KeyMap = Text → Option (Text × ℕ)

abbrev IsBelow : ℕ → Option (Text × ℕ) → Type 0
IsBelow n none = Unit
IsBelow n (some (v, l)) = l < n

pub record Keys : Type 0 where
  pub next : ℕ
  pub keys : KeyMap
  pub below : (k : Text) → IsBelow next (keys k)

pub IsBelow-le : (n m : ℕ) (o : Option (Text × ℕ)) → IsBelow n o → IsBelow (n + m) o
IsBelow-le n m none h = tt
IsBelow-le n m (some (v, l)) h = omega (arith, h)

pub IsBelow-put :
    (b : Bool) (n l : ℕ) (v : Text) (o : Option (Text × ℕ))
    → IsBelow n o
    → IsBelow (n + suc l) (if b then some (v, l) else o)
IsBelow-put true n l v o h = omega arith
IsBelow-put false n l v o h = IsBelow-le n (suc l) o h

pub IsBelow-unless : (n l : ℕ) (o : Option (Text × ℕ)) → IsBelow n o → IsBelow n (unless_lease l o)
IsBelow-unless n l none h = tt
IsBelow-unless n l (some (v, m)) h = elim (Bool-cases (m == l)) [
  | inl same ↦ rw same tt
  | inr other ↦ rw other h
]

abbrev put_key : Txn → Keys → Keys
put_key t e = record {
  next = e.next + suc t.lease;
  keys = λ k. if text_eq t.key k then some (t.value, t.lease) else e.keys k;
  below = λ k. IsBelow-put (text_eq t.key k) e.next t.lease t.value (e.keys k) (e.below k);
}

abbrev commit_at : Option (Text × ℕ) → Txn → Keys → Result Error Bool × Keys
commit_at none t e = (ok true, put_key t e)
commit_at (some held) t e = (ok false, e)

abbrev pub local_etcd : Etcd Keys
local_etcd = record {
  grant = λ ttl e. (
    ok e.next,
    record {
      next = e.next + 1;
      keys = e.keys;
      below = λ k. IsBelow-le e.next 1 (e.keys k) (e.below k);
    },
  );
  commit = λ t e. commit_at (e.keys t.compared) t e;
  revoke = λ l e. (
    none,
    record {
      next = e.next;
      keys = λ k. unless_lease l (e.keys k);
      below = λ k. IsBelow-unless e.next l (e.keys k) (e.below k);
    },
  );
  get = λ k e. (ok (value_of (e.keys k)), e);
}

abbrev pub holder : Keys → KeyMap
holder e = e.keys

unused : (e : Keys) (k v : Text) → e.keys k ≢ some (v, e.next)
unused e k v found =
    let below : IsBelow e.next (some (v, e.next)) = rw found at (e.below k) in omega (arith, below)

commit_at-Committed :
    (t : Txn) (e : Keys) (o : Option (Text × ℕ))
    → e.keys t.compared ≡ o
    → Committed holder t e (commit_at o t e)
commit_at-Committed t e none free = (free, λ k. refl)
commit_at-Committed t e (some held) taken = (rw taken refl, λ k. refl)

pub local_etcd-IsEtcd : IsEtcd holder local_etcd
local_etcd-IsEtcd = record {
  granted = λ ttl e. (λ k. refl, unused e);
  committed = λ t e. commit_at-Committed t e (e.keys t.compared) refl;
  revoked = λ l e k. refl;
  got = λ k e. (refl, λ j. refl);
}

-- No key is held.
abbrev pub no_keys : Keys
no_keys = record { next = 1; keys = λ k. none; below = λ k. tt }
