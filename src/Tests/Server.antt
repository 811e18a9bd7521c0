-- ===== src/Tests/Server.antt =====
-- A server with two stations and one client, and the state operations on it.
use snowcast.Prelude.{
  ◌∙◌, some, text_eq_refl, ℕ, zero, suc, ◌≡◌, refl, Text, codes, ℤ, pos, negsuc, minus_one, [], ◌∷◌,
  arith,
}
use snowcast.State.Store.{client_key, State, ClientInfo, fresh_chan, lookup}
use snowcast.State.Maps.{lookup-put}
use snowcast.State.Effects.{count_at}
use snowcast.State.Invariant.{IsConsistent}
use snowcast.State.Sessions.{registered_state, registered-IsConsistent}

abbrev pub host : Text
host = codes "127.0.0.1"

abbrev pub nobody : ClientInfo
nobody = record {
  udp_addr = record { ip = []; port = 0 };
  curr_station = minus_one;
  event_chan = fresh_chan;
}

abbrev pub booted : State
booted = record {
  heap = λ _. nobody;
  next = 0;
  current_clients = [];
  station_list =
      record { clients = []; name = codes "a.mp3" }
      ∷ record { clients = []; name = codes "b.mp3" }
      ∷ [];
}

unlisted : (p : ℕ) (y : ℤ) → count_at booted p y ≡ 0
unlisted p (pos zero) = refl
unlisted p (pos (suc zero)) = refl
unlisted p (pos (suc (suc n))) = refl
unlisted p (negsuc n) = refl

pub booted-IsConsistent : IsConsistent booted
unfolding lookup
booted-IsConsistent = record {
  allocated = λ k p e. absurd (ground arith);
  unaliased = λ j k p e f. absurd (ground arith);
  placed = λ k p e. absurd (ground arith);
  registered = λ p y n. absurd (omega (arith, unlisted p y));
  open_chan = λ k p e. absurd (ground arith);
}

-- After the handshake of port 5000.
abbrev pub joined : State
joined = registered_state host 5000 booted

pub joined-IsConsistent : IsConsistent joined
unfolding lookup
joined-IsConsistent = registered-IsConsistent host 5000 booted booted-IsConsistent refl

abbrev pub key : Text
key = client_key host 5000

pub known : lookup key joined.current_clients ≡ some 0
known = lookup-put key key 0 [] ∙ rw (text_eq_refl key) refl
