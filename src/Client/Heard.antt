-- ===== src/Client/Heard.antt =====
-- The client's loop over the stream that the server's loop feeds.
use snowcast.Prelude.{
  ℕ, ◌≡◌, refl, ap, ◌∙◌, decimal, Bool, true, false, none, some, List, [], ◌∷◌, ◌++◌, map,
}
use snowcast.Protocol.{ServerEvent, announce, invalid}
use snowcast.Control.Stream.{
  Incoming, event, chan_closed, context_done, Status, returned, waiting, forward,
}
use snowcast.Client.Session.{
  Recv, received, at_end, stream_failed, Line, new_song, invalid_reply, stream_error,
  handle_server_stream, Answer, streaming, Request, set_station, Trace, printing, quiet, requesting,
  complaint, request_station, handle_input,
}
use snowcast.Client.Requested.{clamped, handle_input-clamped}

-- What `Recv` gives after the handler's end: gRPC sends io.EOF for nil, and the error otherwise.
abbrev pub ending : Status → List Recv
ending (returned none) = at_end ∷ []
ending (returned (some e)) = stream_failed ∷ []
ending waiting = []

abbrev pub on_stream : List ServerEvent × Status → List Recv
on_stream (es, status) = map received es ++ ending status

-- The lines that the client prints, and whether it goes on to the next input.
abbrev pub heard : List ServerEvent → Status → List Line × Bool
heard [] (returned none) = ([], true)
heard [] (returned (some e)) = (stream_error ∷ [], true)
heard [] waiting = ([], false)
heard (announce song ∷ es) status = (new_song song ∷ (heard es status).0, (heard es status).1)
heard (invalid reply ∷ es) status = (invalid_reply reply ∷ [], true)

on_stream-heard :
    (es : List ServerEvent) (status : Status)
    → handle_server_stream (on_stream (es, status)) ≡ heard es status
unfolding handle_server_stream
on_stream-heard [] (returned none) = refl
on_stream-heard [] (returned (some e)) = refl
on_stream-heard [] waiting = refl
on_stream-heard (announce song ∷ es) status =
    ap (λ o. (new_song song ∷ o.0, o.1)) (on_stream-heard es status)
on_stream-heard (invalid reply ∷ es) status = refl

-- The announcements, in order, up to the loop's end.
abbrev pub songs : List Incoming → List Line × Bool
songs [] = ([], false)
songs (chan_closed ∷ more) = ([], true)
songs (context_done ∷ more) = (stream_error ∷ [], true)
songs (event e false ∷ more) = (stream_error ∷ [], true)
songs (event (invalid reply) true ∷ more) = (invalid_reply reply ∷ [], true)
songs (event (announce song) true ∷ more) = (new_song song ∷ (songs more).0, (songs more).1)

heard-forward :
    (incoming : List Incoming) → heard (forward incoming).0 (forward incoming).1 ≡ songs incoming
unfolding forward
heard-forward [] = refl
heard-forward (chan_closed ∷ more) = refl
heard-forward (context_done ∷ more) = refl
heard-forward (event e false ∷ more) = refl
heard-forward (event (invalid reply) true ∷ more) = refl
heard-forward (event (announce song) true ∷ more) =
    ap (λ o. (new_song song ∷ o.0, o.1)) (heard-forward more)

-- What the client prints of a stream that the server's loop feeds is each announcement that was
-- sent, in order, up to a rejection or the end of the loop, and it stops reading exactly where the
-- loop ended or a rejection came.
pub handle_server_stream-forward :
    (incoming : List Incoming)
    → handle_server_stream (on_stream (forward incoming)) ≡ songs incoming
handle_server_stream-forward incoming =
    on_stream-heard (forward incoming).0 (forward incoming).1 ∙ heard-forward incoming

-- The trace of a client that requested a station and listens.
pub record IsListening (request : Request) (t : Trace) : Type 0 where
  pub requests : t.requests ≡ request ∷ []
  pub waits : t.returned ≡ false

IsListening-printing :
    (request : Request) (ls : List Line) (t : Trace)
    → IsListening request t
    → IsListening request (printing ls t)
IsListening-printing request [] t h = h
IsListening-printing request (l ∷ ls) t h =
    let rest = IsListening-printing request ls t h in
    record { requests = rest.requests; waits = rest.waits }

quiet-IsListening :
    (request : Request) (ls : List Line)
    → IsListening request (requesting request (printing ls (quiet true false)))
quiet-IsListening request [] = record { requests = refl; waits = refl }
quiet-IsListening request (l ∷ ls) =
    let rest = quiet-IsListening request ls in
    record { requests = rest.requests; waits = rest.waits }

module _ (other_digit : ℕ → Bool) (listener_port n : ℕ) where
  -- While the stream of the requested station goes on the client sends no other request and handles
  -- no other line.
  pub handle_input-IsListening :
      (incoming : List Incoming) (answers : List Answer) (joined : Bool)
      (rest : List Answer → Bool → Trace)
      → (songs incoming).1 ≡ false
      → IsListening (set_station (clamped n).0 listener_port) (
          handle_input other_digit listener_port
            (decimal n)
            (streaming (on_stream (forward incoming)) ∷ answers)
            joined
            rest)
  unfolding request_station
  handle_input-IsListening incoming answers joined rest still =
      let open_stream : handle_server_stream (on_stream (forward incoming))
          ≡ ((songs incoming).0, false) =
        handle_server_stream-forward incoming ∙ ap (λ b. ((songs incoming).0, b)) still in
      rw
        (
          handle_input-clamped other_digit listener_port n
              (streaming (on_stream (forward incoming)) ∷ answers) joined rest,
          open_stream,
        )
        (IsListening-printing _ (complaint (clamped n).1) _
          (quiet-IsListening (set_station (clamped n).0 listener_port) (songs incoming).0))
