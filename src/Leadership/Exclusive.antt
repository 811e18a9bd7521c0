-- ===== src/Leadership/Exclusive.antt =====
-- What an attempt to acquire the key does to it.
use snowcast.Prelude.{
  ℕ, ◌≡◌, ◌≢◌, ◌∙◌, refl, sym, ap, ==_refl, inl, inr, ◌⊎◌, Text, Bool, true, false, Option, none,
  some, is_some, arith, text_eq, text_eq_iff, Bool-cases, if◌then◌else◌, ◌==◌,
}
use snowcast.Run.{Result, ok, err}
use snowcast.Protocol.{Error}
use snowcast.Leadership.Etcd.{
  Etcd, Txn, unless_lease, IsSame, IsPut, Granted, Committed, Revoked, IsEtcd,
}
use snowcast.Leadership.Session.{Session, after_commit, after_grant, try_acquire}

unless_lease-other :
    (l : ℕ) (o : Option (Text × ℕ)) → ((v : Text) → o ≢ some (v, l)) → unless_lease l o ≡ o
unless_lease-other l none h = refl
unless_lease-other l (some (v, m)) h = elim (Bool-cases (m == l)) [
  | inl same ↦ absurd (ground (arith, h v))
  | inr other ↦ rw other refl
]

module _ {E : Type 0} (holder : E → Text → Option (Text × ℕ)) where
  -- The outcome of an attempt: a session is for a key that was free and is held now; no session is
  -- for a key that somebody holds; after an error the key is as before, or it was free and is held
  -- under a lease that no session has. No other key changes.
  abbrev pub Acquired : (key value : Text) → E → Result Error (Option Session) × E → Type 0
  Acquired key value e (ok (some s), f) =
      (holder e key ≡ none)
      × ((k : Text) → holder f k ≡ (if text_eq key k then some (value, s.lease) else holder e k))
  Acquired key value e (ok none, f) = (is_some (holder e key) ≡ true) × IsSame holder e f
  Acquired key value e (err x, f) =
      (k : Text)
      → (holder f k ≡ holder e k)
        ⊎ ((key ≡ k) × (holder e k ≡ none) × (l : ℕ) × (holder f k ≡ some (value, l)))

  module _ (etcd : Etcd E) (law : IsEtcd holder etcd) (key value : Text) where
    module _ (lease : ℕ) (e e1 : E) (granted : IsSame holder e e1)
        (fresh : (k v : Text) → holder e k ≢ some (v, lease)) where
      -- The lease of an attempt that put nothing is revoked, which no key notices.
      IsSame-revoke :
          (e2 : E)
          → IsSame holder e1 e2
          → (r : Option Error × E) → Revoked holder lease e2 r
          → IsSame holder e (r.1)
      IsSame-revoke e2 same (none, f) revoked k =
          revoked k ∙ rw (same k, granted k) (unless_lease-other lease (holder e k) (fresh k))
      IsSame-revoke e2 same (some x, f) (inl kept) k = kept k ∙ same k ∙ granted k
      IsSame-revoke e2 same (some x, f) (inr revoked) k =
          revoked k ∙ rw (same k, granted k) (unless_lease-other lease (holder e k) (fresh k))

      abbrev attempt : Txn
      attempt = record { compared = key; key = key; value = value; lease = lease }

      was_free :
          (e2 : E) (k : Text)
          → IsPut holder attempt e1 e2
          → text_eq key k ≡ true
          → (key ≡ k) × (holder e k ≡ none)
      was_free e2 k put same =
          let there : key ≡ k = (text_eq_iff key k).0 same in
          (there, ap (holder e) (sym there) ∙ sym (granted key) ∙ put.0)

      put_revoked :
          (e2 f : E) (k : Text)
          → IsPut holder attempt e1 e2
          → holder f k ≡ unless_lease lease (holder e2 k)
          → holder f k ≡ holder e k
      put_revoked e2 f k put revoked = elim (Bool-cases (text_eq key k)) [
        | inl same ↦ revoked ∙ rw (put.1 k, same, ==_refl lease) (sym (was_free e2 k put same).1)
        | inr other ↦
            revoked
            ∙ rw (put.1 k, other, granted k) (unless_lease-other lease (holder e k) (fresh k))
      ]

      put_kept :
          (e2 f : E) (k : Text)
          → IsPut holder attempt e1 e2
          → holder f k ≡ holder e2 k
          → (holder f k ≡ holder e k)
            ⊎ ((key ≡ k) × (holder e k ≡ none) × (l : ℕ) × (holder f k ≡ some (value, l)))
      put_kept e2 f k put kept = elim (Bool-cases (text_eq key k)) [
        | inl same ↦
            let free = was_free e2 k put same in
            inr (free.0, free.1, lease, kept ∙ rw (put.1 k, same) refl)
        | inr other ↦ inl (kept ∙ rw (put.1 k, other) (granted k))
      ]

      after_error :
          (e2 : E) (k : Text)
          → IsPut holder attempt e1 e2
          → (r : Option Error × E) → Revoked holder lease e2 r
          → (holder r.1 k ≡ holder e k)
            ⊎ ((key ≡ k) × (holder e k ≡ none) × (l : ℕ) × (holder r.1 k ≡ some (value, l)))
      after_error e2 k put (none, f) revoked = inl (put_revoked e2 f k put (revoked k))
      after_error e2 k put (some x, f) (inl kept) = put_kept e2 f k put (kept k)
      after_error e2 k put (some x, f) (inr revoked) = inl (put_revoked e2 f k put (revoked k))

      after_commit-Acquired :
          (r : Result Error Bool × E)
          → Committed holder attempt e1 r
          → Acquired key value e (after_commit etcd key value lease r)
      unfolding after_commit
      after_commit-Acquired (ok true, f) (free, put) =
          (sym (granted key) ∙ free, λ k. put k ∙ rw (granted k) refl)
      after_commit-Acquired (ok false, f) (taken, same) = (
        rw (granted key) at taken,
        IsSame-revoke f same (etcd.revoke lease f) (law.revoked lease f),
      )
      after_commit-Acquired (err x, f) (inl same) =
          λ k. inl (IsSame-revoke f same (etcd.revoke lease f) (law.revoked lease f) k)
      after_commit-Acquired (err x, f) (inr put) =
          λ k. after_error f k put (etcd.revoke lease f) (law.revoked lease f)

    after_grant-Acquired :
        (e : E) (r : Result Error ℕ × E)
        → Granted holder e r
        → Acquired key value e (after_grant etcd key value r)
    unfolding after_grant
    after_grant-Acquired e (err x, f) same = λ k. inl (same k)
    after_grant-Acquired e (ok lease, f) (same, fresh) =
        after_commit-Acquired lease e f same fresh
          (etcd.commit (record { compared = key; key = key; value = value; lease = lease }) f)
          (law.committed _ f)

    -- Over an etcd that does as documented, TryAcquire gives a session only where the key was free,
    -- and then the key is held with the value under the lease of the session; without a session and
    -- an error the key was held and no key changed; after an error every key is as before, or the
    -- key was free and is held now. No other key changes.
    pub try_acquire-Acquired :
        (ttl : ℕ) (e : E) → Acquired key value e (try_acquire etcd key value ttl e)
    unfolding try_acquire
    try_acquire-Acquired ttl e = after_grant-Acquired e (etcd.grant ttl e) (law.granted ttl e)
