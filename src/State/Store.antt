-- ===== src/State/Store.antt =====
-- The data of internal/state/state.go. The package's variables are one record. A `*ClientInfo` is an
-- address in `heap`, so that `CurrentClients` and the stations' lists alias one client as in the
-- source.
use snowcast.Prelude.{
  ℕ, ◌+◌, ◌-◌, Text, ℤ, pos, negsuc, Bool, false, Option, none, some, List, [], ◌∷◌, ◌++◌, map,
  length, get_elem?, set, take, ltb, ◌==◌, if◌then◌else◌, text_eq, decimal,
}
use snowcast.Protocol.{ServerEvent}

-- A channel of capacity 100.
pub record EventChan : Type 0 where
  pub queue : List ServerEvent
  pub closed : Bool

-- `net.UDPAddr`; `ip` is the text that `net.ParseIP` is given.
pub record UdpAddr : Type 0 where
  pub ip : Text
  pub port : ℕ

pub record ClientInfo : Type 0 where
  pub udp_addr : UdpAddr
  pub curr_station : ℤ
  pub event_chan : EventChan

pub record Station : Type 0 where
  pub clients : List ℕ
  pub name : Text

abbrev pub Clients : Type 0
Clients = List (Text × ℕ)

pub record State : Type 0 where
  pub heap : ℕ → ClientInfo
  pub next : ℕ  -- the first address that is not in use
  pub current_clients : Clients
  pub station_list : List Station

abbrev pub fresh_chan : EventChan
fresh_chan = record { queue = []; closed = false }

-- Go maps.
unfoldable pub lookup : Text → Clients → Option ℕ
lookup k [] = none
lookup k ((j, p) ∷ m) = if text_eq j k then some p else lookup k m

unfoldable pub delete : Text → Clients → Clients
delete k [] = []
delete k ((j, p) ∷ m) = let rest = delete k m in if text_eq j k then rest else (j, p) ∷ rest

unfoldable pub put : Text → ℕ → Clients → Clients
unfolding delete
put k p m = (k, p) ∷ delete k m

abbrev pub update : (ℕ → ClientInfo) → ℕ → ClientInfo → ℕ → ClientInfo
update h p c q = if p == q then c else h q

unfoldable pub init_stations : List Text → State → State
init_stations files s = record s {
  station_list = map (λ path. record { clients = []; name = path }) files;
}

-- `fmt.Sprintf("%s:%d", ip, udpPort)`; 58 is the colon.
unfoldable pub client_key : Text → ℕ → Text
client_key ip udp_port = ip ++ 58 ∷ decimal udp_port

-- `&StationList[i]`, where `none` is the panic of an index out of range.
abbrev pub station_at : List Station → ℤ → Option Station
station_at l (pos i) = get_elem? l i
station_at l (negsuc i) = none

abbrev pub set_station_at : List Station → ℤ → Station → List Station
set_station_at l (pos i) st = set l i st
set_station_at l (negsuc i) st = l

abbrev pub write_clients : ℤ → Station → List ℕ → State → State
write_clients z st cs s = record s {
  station_list = set_station_at s.station_list z (record st { clients = cs });
}

abbrev pub set_curr_station : ℕ → ℤ → State → State
set_curr_station p z s = record s {
  heap = update s.heap p (record (s.heap p) { curr_station = z });
}

-- The loop of `removeFromCurrentStation`: the first index that holds the client.
unfoldable pub find_index : ℕ → List ℕ → Option ℕ
find_index p [] = none
find_index p (q ∷ qs) =
    let later = find_index p qs in
    if q == p then some 0 else elim later [ none ↦ none | some i ↦ some (i + 1) ]

abbrev pub last_or : ℕ → List ℕ → ℕ
last_or d [] = d
last_or d (q ∷ qs) = last_or q qs

-- The last client takes the place of the removed one, and the slice gets shorter by one.
unfoldable pub swap_remove : ℕ → List ℕ → List ℕ
unfolding find_index
swap_remove p qs = elim (find_index p qs) [
  | none ↦ qs
  | some i ↦ take (length qs - 1) (set qs i (last_or p qs))
]

-- `0 <= i && i < len(StationList)`
abbrev pub in_range : ℤ → List Station → Bool
in_range (pos i) l = ltb i (length l)
in_range (negsuc i) l = false
