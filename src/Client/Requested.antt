-- ===== src/Client/Requested.antt =====
-- The requests of the client: which station a line asks for, and on which port.
use snowcast.Prelude.{
  ℕ, ◌+◌, ◌*◌, ◌-◌, ◌≤◌, ◌≡◌, refl, sym, ap, ◌∙◌, inl, inr, Text, codes, Bool, true, false,
  Bool-cases, Option, none, some, List, [], ◌∷◌, ◌++◌, ltb, if◌then◌else◌, arith, text_eq,
  text_eq-cons, text_eq-cons_nil, decimal, value, all_decimal, all_decimal-decimal, value-decimal,
  decimal-cons, append-nil,
}
use snowcast.Client.Input.{
  NumError, no_error, range_error, check_only_numbers, parse_digits, parse_uint16, trim_space,
}
use snowcast.Client.Session.{
  Answer, refused, streaming, Request, handshake, set_station, disconnect, Trace, Line, printing,
  set_station_error, parse_error, quiet, request_station, handle_input, handle_user_input,
  run_client, handle_server_stream, after_stream, complaint, requesting, welcome, then_disconnect,
}

-- A number, and what is left of one that needs more than 16 bits.
abbrev pub clamped : ℕ → ℕ × NumError
clamped n = if ltb n 65536 then (n, no_error) else (65535, range_error)

not_big : (n : ℕ) → ltb n 65536 ≡ true → ltb 65535 n ≡ false
not_big n small = ground (arith, small)

is_big : (n : ℕ) → ltb n 65536 ≡ false → ltb 65535 n ≡ true
is_big n big = ground (arith, big)

value-least : (n : ℕ) (s : Text) → n ≤ value n s
value-least n [] = omega arith
value-least n (c ∷ cs) = omega (arith, value-least (n * 10 + (c - 48)) cs)

parse_digits-value :
    (n : ℕ) (s : Text) → n ≤ 65535 → all_decimal s ≡ true → parse_digits n s ≡ clamped (value n s)
unfolding parse_digits
parse_digits-value n [] h digits = ground arith
parse_digits-value n (c ∷ cs) h digits =
    let m = n * 10 + (c - 48) in
    elim (Bool-cases (ltb 65535 m)) [
      | inl over ↦ ground (arith, value-least m cs)
      | inr fits ↦ ground (arith, parse_digits-value m cs)
    ]

parse_uint16-decimal : (n : ℕ) → parse_uint16 (decimal n) ≡ clamped n
unfolding parse_uint16
parse_uint16-decimal n =
    let (c, cs, e) = decimal-cons n in
    let digits : all_decimal (c ∷ cs) ≡ true = rw e at (all_decimal-decimal n) in
    rw (e) (parse_digits-value 0 (c ∷ cs) (omega arith) digits)
    ∙ ap (λ s. clamped (value 0 s)) (sym e)
    ∙ ap clamped (value-decimal n)

module _ (other_digit : ℕ → Bool) where
  check_only_numbers-decimal :
      (s : Text) → all_decimal s ≡ true → check_only_numbers other_digit s ≡ true
  unfolding check_only_numbers
  check_only_numbers-decimal [] digits = refl
  check_only_numbers-decimal (c ∷ cs) digits = ground (arith, check_only_numbers-decimal cs)

  module _ (listener_port : ℕ) where
    -- What the session does behind the request for a station, by what the call meets.
    abbrev pub behind_request : List Answer → Bool → (List Answer → Bool → Trace) → Trace
    behind_request [] joined rest = record {
      requests = [];
      output = [];
      joined_station = joined;
      returned = false;
    }
    behind_request (refused ∷ answers) joined rest =
        let more = rest answers joined in record more { output = set_station_error ∷ more.output }
    behind_request (streaming events ∷ answers) joined rest =
        let (lines, ended) = handle_server_stream events in
        if ended
        then record (rest answers true) { output = lines ++ (rest answers true).output }
        else record { requests = []; output = lines; joined_station = true; returned = false }

    -- The one request, and the error that is printed before it.
    abbrev pub asked_for : ℕ → Trace → Trace
    asked_for n more = record more {
      requests = set_station (if ltb 65535 n then 65535 else n) listener_port ∷ more.requests;
      output = if ltb 65535 n then parse_error range_error ∷ more.output else more.output;
    }

    printing-output :
        (ls : List Line) (t : Trace) → printing ls t ≡ record t { output = ls ++ t.output }
    printing-output [] t = refl
    printing-output (l ∷ ls) t =
        ap (λ (q : Trace). record q { output = l ∷ q.output }) (printing-output ls t)

    request_station-after :
        (lines : List Line) (ended : Bool) (more : Trace)
        → after_stream other_digit listener_port (lines, ended) more ≡ (
            if ended
            then record more { output = lines ++ more.output }
            else record { requests = []; output = lines; joined_station = true; returned = false })
    request_station-after lines true more = printing-output lines more
    request_station-after lines false more =
        printing-output lines (quiet true false)
        ∙ ap (λ ls. record { requests = []; output = ls; joined_station = true; returned = false })
            (append-nil lines)

    request_station-clamped :
        (n : ℕ) (answers : List Answer) (joined : Bool) (rest : List Answer → Bool → Trace)
        → request_station other_digit listener_port (clamped n) answers joined rest
          ≡ asked_for n (behind_request answers joined rest)
    unfolding request_station
    request_station-clamped n [] joined rest = elim (Bool-cases (ltb n 65536)) [
      | inl small ↦ rw (small, not_big n small) refl
      | inr big ↦ rw (big, is_big n big) refl
    ]
    request_station-clamped n (refused ∷ answers) joined rest = elim (Bool-cases (ltb n 65536)) [
      | inl small ↦ rw (small, not_big n small) refl
      | inr big ↦ rw (big, is_big n big) refl
    ]
    request_station-clamped n (streaming events ∷ answers) joined rest =
        let (lines, ended) = handle_server_stream events in
        let after = request_station-after lines ended (rest answers true) in
        elim (Bool-cases (ltb n 65536)) [
          | inl small ↦
              rw (small, not_big n small) (ap (requesting (set_station n listener_port)) after)
          | inr big ↦
              rw (big, is_big n big)
                (ap
                  (λ t.
                    printing (parse_error range_error ∷ [])
                      (requesting (set_station 65535 listener_port) t))
                  after)
        ]

    -- A decimal line is a request for what is left of its number.
    pub handle_input-clamped :
        (n : ℕ) (answers : List Answer) (joined : Bool) (rest : List Answer → Bool → Trace)
        → handle_input other_digit listener_port (decimal n) answers joined rest
          ≡ request_station other_digit listener_port (clamped n) answers joined rest
    unfolding handle_input
    handle_input-clamped n answers joined rest =
        let (c, cs, e) = decimal-cons n in
        let digits = all_decimal-decimal n in
        let not_q : text_eq (decimal n) (codes "q") ≡ false =
          rw (e, text_eq-cons c 113 cs []) (ground (arith, rw e at digits)) in
        let not_empty : text_eq (decimal n) [] ≡ false = rw (e, text_eq-cons_nil c cs) refl in
        rw (not_q, not_empty, check_only_numbers-decimal (decimal n) digits, parse_uint16-decimal n)
          refl

    -- A line that is the decimal text of a number requests that station, once and on the listener's
    -- port, if the number has 16 bits, and otherwise prints the error and requests station 65535.
    -- What follows is the rest of the session: behind the lines of the call's stream if that ends,
    -- behind the complaint if the call fails, and nothing while the call or its stream goes on.
    pub handle_input-decimal :
        (n : ℕ) (answers : List Answer) (joined : Bool) (rest : List Answer → Bool → Trace)
        → handle_input other_digit listener_port (decimal n) answers joined rest
          ≡ asked_for n (behind_request answers joined rest)
    handle_input-decimal n answers joined rest =
        handle_input-clamped n answers joined rest ∙ request_station-clamped n answers joined rest

parse_digits-le : (n : ℕ) (s : Text) → n ≤ 65535 → (parse_digits n s).0 ≤ 65535
unfolding parse_digits
parse_digits-le n [] h = h
parse_digits-le n (c ∷ cs) h = elim (Bool-cases (ltb 65535 (n * 10 + (c - 48)))) [
  | inl over ↦ ground (arith)
  | inr fits ↦ ground (arith, parse_digits-le (n * 10 + (c - 48)) cs)
]

parse_uint16-le : (s : Text) → (parse_uint16 s).0 ≤ 65535
unfolding parse_uint16
parse_uint16-le [] = omega arith
parse_uint16-le (c ∷ cs) = parse_digits-le 0 (c ∷ cs) (omega arith)

requests-printing : (ls : List Line) (t : Trace) → (printing ls t).requests ≡ t.requests
requests-printing [] t = refl
requests-printing (l ∷ ls) t = requests-printing ls t

module _ (other_digit : ℕ → Bool) (listener_port : ℕ) where
  -- Requests for stations of 16 bits, on the listener's port.
  abbrev pub AreStations : List Request → Type 0
  AreStations [] = Unit
  AreStations (set_station number port ∷ rs) =
      (number ≤ 65535) × (port ≡ listener_port) × AreStations rs
  AreStations (handshake port ∷ rs) = ⊥
  AreStations (disconnect port ∷ rs) = ⊥

  -- A handshake, requests for stations, and a disconnect where the client got to its end, all on the
  -- listener's port.
  pub record IsPaired (t : Trace) : Type 0 where
    pub stations : List Request
    pub are_stations : AreStations stations
    pub requests :
        t.requests
        ≡ handshake listener_port ∷ stations
          ++ (if t.returned then disconnect listener_port ∷ [] else [])

  AreStations-printing :
      (ls : List Line) (t : Trace) → AreStations t.requests → AreStations (printing ls t).requests
  AreStations-printing ls t h = rw (requests-printing ls t) h

  AreStations-after_stream :
      (o : List Line × Bool) (rest : Trace)
      → AreStations rest.requests
      → AreStations (after_stream other_digit listener_port o rest).requests
  AreStations-after_stream (lines, true) rest h = AreStations-printing lines rest h
  AreStations-after_stream (lines, false) rest h = AreStations-printing lines (quiet true false) tt

  module _ (rest : List Answer → Bool → Trace)
      (h : (answers : List Answer) (joined : Bool)
        → AreStations (rest answers joined).requests) where
    AreStations-request_station :
        (o : ℕ × NumError) (answers : List Answer) (joined : Bool)
        → o.0 ≤ 65535
        → AreStations (request_station other_digit listener_port o answers joined rest).requests
    unfolding request_station
    AreStations-request_station (number, e) [] joined le =
        AreStations-printing (complaint e) _ (le, refl, tt)
    AreStations-request_station (number, e) (refused ∷ answers) joined le =
        AreStations-printing (complaint e) _ (le, refl, h answers joined)
    AreStations-request_station (number, e) (streaming events ∷ answers) joined le =
        AreStations-printing (complaint e) _ (
          le,
          refl,
          AreStations-after_stream (handle_server_stream events) (rest answers true)
              (h answers true),
        )

    AreStations-handle_input :
        (input : Text) (answers : List Answer) (joined : Bool)
        → AreStations (handle_input other_digit listener_port input answers joined rest).requests
    unfolding handle_input
    AreStations-handle_input input answers joined = elim (Bool-cases (text_eq input (codes "q"))) [
      | inl is_q ↦ rw is_q tt
      | inr not_q ↦ elim (Bool-cases (text_eq input [])) [
        | inl is_empty ↦ rw (not_q, is_empty) (h answers joined)
        | inr not_empty ↦ elim (Bool-cases (check_only_numbers other_digit input)) [
          | inl digits ↦
              rw (not_q, not_empty, digits)
                (AreStations-request_station (parse_uint16 input) answers joined
                  (parse_uint16-le input))
          | inr no_digits ↦ rw (not_q, not_empty, no_digits) (h answers joined)
        ]
      ]
    ]

  AreStations-handle_user_input :
      (lines : List Text) (answers : List Answer) (joined : Bool)
      → AreStations (handle_user_input other_digit listener_port lines answers joined).requests
  unfolding handle_user_input
  AreStations-handle_user_input [] answers joined = tt
  AreStations-handle_user_input (line ∷ lines) answers joined =
      AreStations-handle_input (handle_user_input other_digit listener_port lines)
        (AreStations-handle_user_input lines) (trim_space line) answers joined

  then_disconnect-IsPaired :
      (num_stations : ℕ) (t : Trace)
      → AreStations t.requests
      → IsPaired (
          requesting
            (handshake listener_port)
            (printing (welcome num_stations ∷ []) (then_disconnect other_digit listener_port t)))
  then_disconnect-IsPaired num_stations t h = elim (Bool-cases t.returned) [
    | inl ended ↦ record { stations = t.requests; are_stations = h; requests = rw (ended) refl }
    | inr waits ↦ record {
      stations = t.requests;
      are_stations = h;
      requests = rw (waits, append-nil) refl;
    }
  ]

  -- Whatever the lines, the handshake's reply and the answers, the client requests a handshake,
  -- then stations whose numbers have 16 bits, then, if and only if it got to its end, a disconnect,
  -- all on the listener's port.
  pub run_client-IsPaired :
      (reply : Option ℕ) (lines : List Text) (answers : List Answer)
      → IsPaired (run_client other_digit listener_port reply lines answers)
  unfolding run_client
  run_client-IsPaired none lines answers = record {
    stations = [];
    are_stations = tt;
    requests = refl;
  }
  run_client-IsPaired (some num_stations) lines answers =
      then_disconnect-IsPaired num_stations _ (AreStations-handle_user_input lines answers false)
