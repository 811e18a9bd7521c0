-- ===== src/State/Maps.antt =====
-- Reads of `CurrentClients` after its writes, and the keys that stand in it.
use snowcast.Prelude.{
  ℕ, ◌≡◌, Text, none, some, [], ◌∷◌, arith, if◌then◌else◌, text_eq, text_eq_iff, colon_split,
}
use snowcast.State.Store.{Clients, lookup, delete, put, client_key}

pub lookup-delete :
    (k j : Text) (m : Clients) → lookup j (delete k m) ≡ (if text_eq k j then none else lookup j m)
unfolding lookup delete
lookup-delete k j [] = ground arith
lookup-delete k j ((i, p) ∷ m) =
    ground (arith, lookup-delete k j m, text_eq_iff i k, text_eq_iff i j, text_eq_iff k j)

pub lookup-put :
    (k j : Text) (p : ℕ) (m : Clients)
    → lookup j (put k p m) ≡ (if text_eq k j then some p else lookup j m)
unfolding lookup put
lookup-put k j p m = ground (arith, lookup-delete k j m)

pub ruleset map_laws = (lookup-delete, lookup-put)

-- Two clients share a key only if their address texts and ports are the same.
pub client_key-injective :
    (ip ip' : Text) (port port' : ℕ)
    → client_key ip port ≡ client_key ip' port'
    → (ip ≡ ip') × (port ≡ port')
unfolding client_key
client_key-injective ip ip' port port' = colon_split ip ip' port port'
