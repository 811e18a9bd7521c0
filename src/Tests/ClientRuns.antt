-- ===== src/Tests/ClientRuns.antt =====
-- The theorems on the client, applied to sessions on port 5000.
use snowcast.Prelude.{◌≡◌, refl, false, true, some, codes, [], ◌∷◌, decimal}
use snowcast.Protocol.{announce}
use snowcast.Control.Stream.{event, chan_closed, forward}
use snowcast.Client.Session.{
  refused, streaming, quiet, set_station, handle_server_stream, handle_input, run_client,
}
use snowcast.Client.Requested.{
  asked_for, behind_request, IsPaired, handle_input-decimal, run_client-IsPaired,
}
use snowcast.Client.Heard.{
  songs, on_stream, IsListening, handle_server_stream-forward, handle_input-IsListening,
}

handle_input-decimal_example :
    handle_input
      (λ r. false)
      5000
      (decimal 70000)
      (refused ∷ [])
      false
      (λ answers joined. quiet joined true)
    ≡ asked_for
        (λ r. false)
        5000
        70000
        (behind_request
          (λ r. false)
          5000
          (refused ∷ [])
          false
          (λ answers joined. quiet joined true))
handle_input-decimal_example =
    handle_input-decimal (λ r. false) 5000 70000 (refused ∷ []) false
      (λ answers joined. quiet joined true)

run_client-IsPaired_example :
    IsPaired
      (λ r. false)
      5000
      (run_client (λ r. false) 5000 (some 2) (codes " 1 " ∷ codes "q" ∷ []) (refused ∷ []))
run_client-IsPaired_example =
    run_client-IsPaired (λ r. false) 5000 (some 2) (codes " 1 " ∷ codes "q" ∷ []) (refused ∷ [])

handle_server_stream-forward_example :
    handle_server_stream
      (on_stream (forward (event (announce (codes "a.mp3")) true ∷ chan_closed ∷ [])))
    ≡ songs (event (announce (codes "a.mp3")) true ∷ chan_closed ∷ [])
handle_server_stream-forward_example =
    handle_server_stream-forward (event (announce (codes "a.mp3")) true ∷ chan_closed ∷ [])

handle_input-IsListening_example : IsListening (set_station 1 5000) (
    handle_input
      (λ r. false)
      5000
      (decimal 1)
      (streaming (on_stream (forward (event (announce (codes "a.mp3")) true ∷ []))) ∷ [])
      false
      (λ answers joined. quiet joined true))
handle_input-IsListening_example =
    handle_input-IsListening (λ r. false) 5000 1 (event (announce (codes "a.mp3")) true ∷ []) []
      false (λ answers joined. quiet joined true) refl
