-- ===== src/Runtime/Operator.antt =====
-- The commands of the operator: `HandleUserInput` and `FormatStationString` of
-- internal/runtime/runtime.go. Input and output are texts; `ip_string` is `net.IP.String` of the address
-- that a text parses to.
use snowcast.Prelude.{
  ℕ, zero, suc, Text, codes, Bool, true, false, List, [], ◌∷◌, ◌++◌, length, ◌||◌, ◌&&◌, ◌==◌, leb,
  text_eq, decimal, if◌then◌else◌,
}
use snowcast.Run.{done, Go, pure, modify, ◌>>=◌, ◌>>◌}
use snowcast.State.Store.{State, Station, ClientInfo, delete}
use snowcast.State.Apply.{close_chan}

-- `strings.Fields`, whose spaces are here those of ASCII; a `TrimSpace` before it changes nothing.
abbrev pub is_space : ℕ → Bool
is_space b = b == 32 || (leb 9 b && leb b 13)

abbrev flush : Text → List Text → List Text
flush [] words = words
flush (b ∷ bs) words = (b ∷ bs) ∷ words

abbrev fields_from : Text → Text → List Text
fields_from word [] = flush word []
fields_from word (b ∷ bs) = elim (is_space b) [
  | true ↦ flush word (fields_from [] bs)
  | false ↦ fields_from (word ++ b ∷ []) bs
]

abbrev pub fields : Text → List Text
fields s = fields_from [] s

module _ (ip_string : Text → Text) where
  unfoldable pub format_clients : (ℕ → ClientInfo) → List ℕ → Text
  format_clients heap [] = []
  format_clients heap (p ∷ ps) =
      let addr = (heap p).udp_addr in
      codes "," ++ ip_string addr.ip ++ codes ":" ++ decimal addr.port ++ format_clients heap ps

  -- The stations from the `i`-th on; 10 is the newline.
  unfoldable pub format_stations : (ℕ → ClientInfo) → (i : ℕ) → List Station → Text
  unfolding format_clients
  format_stations heap i [] = []
  format_stations heap i (st ∷ sts) =
      decimal i
      ++ codes ","
      ++ st.name
      ++ format_clients heap st.clients
      ++ 10 ∷ format_stations heap (suc i) sts

  unfoldable pub format_station_string : State → Text
  unfolding format_stations
  format_station_string s = format_stations s.heap 0 s.station_list

-- The loop of `q`, over as many clients as are left: close a channel, delete its key.
unfoldable pub close_some : ℕ → Go State (Unit {0})
unfolding close_chan
close_some zero s = done tt s
close_some (suc n) s = elim s.current_clients [
  | [] ↦ done tt s
  | (key, p) ∷ more ↦
      (close_chan p
          >> (modify (λ t. record t { current_clients = delete key t.current_clients })
              >> close_some n))
        s
]

unfoldable pub close_clients : Go State (Unit {0})
unfolding close_some
close_clients s = close_some (length s.current_clients) s

-- What a line does: output, a file to write, or the end of the process.
pub data Reply : Type 0 where
  silent : Reply
  printed : Text → Reply
  saved : (path text : Text) → Reply
  exited : Reply

abbrev pub invalid_type : Text
invalid_type = codes "Invalid Command Type"

abbrev pub invalid_command : Text
invalid_command = codes "Invalid command"

abbrev pub and_reply : Reply → List Reply × Bool → List Reply × Bool
and_reply reply (replies, ended) = (reply ∷ replies, ended)

-- The next lines are read unless the process exited.
abbrev pub then_more : Reply → Go State (List Reply × Bool) → Go State (List Reply × Bool)
then_more exited rest = pure (exited ∷ [], true)
then_more silent rest = rest
then_more (printed text) rest = rest >>= λ o. pure (and_reply (printed text) o)
then_more (saved path text) rest = rest >>= λ o. pure (and_reply (saved path text) o)

module _ (ip_string : Text → Text) where
  unfoldable pub print_stations : List Text → State → Reply
  unfolding format_station_string
  print_stations [] s = printed (format_station_string ip_string s)
  print_stations (path ∷ []) s = saved path (format_station_string ip_string s)
  print_stations (path ∷ more ∷ rest) s = printed invalid_type

  unfoldable pub handle_words : List Text → Go State Reply
  unfolding print_stations close_clients
  handle_words [] s = done silent s
  handle_words (word ∷ rest) s =
      if text_eq word (codes "p")
      then done (print_stations rest s) s
      else if text_eq word (codes "q")
      then (close_clients >> pure exited) s
      else done (printed invalid_command) s

  -- The replies to the lines of the input, and whether the process exited.
  unfoldable pub handle_user_input : List Text → Go State (List Reply × Bool)
  unfolding handle_words
  handle_user_input [] s = done ([], false) s
  handle_user_input (line ∷ lines) s =
      let rest = handle_user_input lines in
      (handle_words (fields line) >>= λ reply. then_more reply rest) s
