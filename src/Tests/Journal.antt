-- ===== src/Tests/Journal.antt =====
-- A codec, and logs of one entry.
use snowcast.Prelude.{
  ℕ, zero, suc, true, ◌^◌, ◌<◌, ◌≡◌, refl, ap, ℤ, pos, negsuc, Option, none, some, [], ◌∷◌, arith,
  length, append-nil, ltb, if◌then◌else◌,
}
use snowcast.Protocol.{WalEntry, WalOp, handshake, set_station, disconnect, unset}
use snowcast.Wal.File.{Bytes, put_uint32}
use snowcast.Wal.Log.{Codec, Log, max_seq}
use snowcast.Wal.Records.{frame}
use snowcast.Wal.Holds.{Holds}
use snowcast.Tests.Server.{host}

abbrev put_int : ℤ → Bytes → Bytes
put_int (pos n) b = 0 ∷ n ∷ b
put_int (negsuc n) b = 1 ∷ n ∷ b

abbrev encode_op : WalOp → Bytes
encode_op (handshake op) = 1 ∷ op.udp_port ∷ op.client_ip
encode_op (set_station op) =
    2 ∷ op.udp_port ∷ put_int op.station_number (put_int op.previous_station op.client_ip)
encode_op (disconnect op) = 3 ∷ op.udp_port ∷ op.client_ip
encode_op unset = 0 ∷ []

abbrev get_int : (ℤ → Bytes → Option WalOp) → Bytes → Option WalOp
get_int k (zero ∷ n ∷ b) = k (pos n) b
get_int k (suc zero ∷ n ∷ b) = k (negsuc n) b
get_int k _ = none

abbrev decode_op : Bytes → Option WalOp
decode_op (zero ∷ []) = some unset
decode_op (suc zero ∷ port ∷ ip) = some (handshake (record { client_ip = ip; udp_port = port }))
decode_op (suc (suc zero) ∷ port ∷ b) =
    get_int
      (λ station c.
        get_int
          (λ previous ip. some (
            set_station (record {
              client_ip = ip;
              udp_port = port;
              station_number = station;
              previous_station = previous;
            })))
          c)
      b
decode_op (suc (suc (suc zero)) ∷ port ∷ ip) =
    some (disconnect (record { client_ip = ip; udp_port = port }))
decode_op _ = none

get_int-put_int :
    (z : ℤ) (k : ℤ → Bytes → Option WalOp) (ip : Bytes) → get_int k (put_int z ip) ≡ k z ip
get_int-put_int (pos n) k ip = refl
get_int-put_int (negsuc n) k ip = refl

pub decode_encode : (op : WalOp) → decode_op (encode_op op) ≡ some op
decode_encode (handshake op) = refl
decode_encode (set_station op) =
    rw (get_int-put_int op.station_number, get_int-put_int op.previous_station) refl
decode_encode (disconnect op) = refl
decode_encode unset = refl

abbrev with_seq : ℕ → Option WalOp → Option WalEntry
with_seq n none = none
with_seq n (some op) = some (record { seq = n; op = op })

abbrev decode : Bytes → Option WalEntry
decode [] = none
decode (n ∷ b) = with_seq n (decode_op b)

abbrev encode : WalEntry → Option Bytes
encode e = let b = e.seq ∷ encode_op e.op in if ltb (length b) (2 ^ 31) then some b else none

pub encode-is :
    (e : WalEntry) (b : Bytes)
    → encode e ≡ some b
    → (b ≡ e.seq ∷ encode_op e.op) × (length b < 2 ^ 31)
encode-is e b h = (ground arith, ground arith)

abbrev pub plain : Codec
plain = record {
  marshal = encode;
  unmarshal = decode;
  unmarshal-marshal = λ e b h. rw ((encode-is e b h).0, decode_encode e.op) refl;
  marshal-nonempty = λ e b h ne. omega (arith, ap length (encode-is e b h).0);
  marshal-lt = λ e b h. (encode-is e b h).1;
}

abbrev pub joining : WalEntry
joining = record { seq = 1; op = handshake (record { client_ip = host; udp_port = 5000 }) }

abbrev pub joining_bytes : Bytes
joining_bytes = 1 ∷ encode_op joining.op

-- A log that holds the first handshake.
abbrev pub journal : Log
journal = record {
  file = record {
    content = frame joining_bytes;
    pos = length (frame joining_bytes);
    outcomes = [];
  };
  is_open = true;
  seq = 1;
}

pub journal-Holds : Holds plain journal (joining ∷ [])
unfolding max_seq put_uint32
journal-Holds = record {
  bytes = frame joining_bytes;
  at_end = refl;
  encodes = (joining_bytes, [], refl, ground arith, refl, rw append-nil refl);
  is_open = refl;
  seq = refl;
}
