-- ===== src/Tests/OperatorRuns.antt =====
-- The theorems on the operator's commands and on full channels, applied to a server with a listener.
use snowcast.Prelude.{◌≡◌, refl, codes, [], ◌∷◌}
use snowcast.Run.{panic, Ends}
use snowcast.Runtime.Stream.{at_eof, stream_tick}
use snowcast.Runtime.Operator.{close_clients}
use snowcast.Runtime.Session.{close_clients-panics}
use snowcast.Tests.RuntimeRuns.{station_a, tuned, tuned-IsConsistent}

close_clients-panics_example :
    Ends
      (λ _ t. stream_tick 0 (codes "a.mp3") (1 ∷ 2 ∷ []) at_eof t ≡ panic t)
      (close_clients tuned)
close_clients-panics_example =
    close_clients-panics 0 (codes "a.mp3") (1 ∷ 2 ∷ []) station_a 0 [] tuned tuned-IsConsistent refl
      refl
