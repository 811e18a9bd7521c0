-- ===== src/Tests/ServeRuns.antt =====
-- A process whose TCP port is taken at its first `Serve` and free at its second, and a client that leaves.
use snowcast.Prelude.{refl, codes, Text, true, false, List, [], ◌∷◌, arith}
use snowcast.Run.{Ends}
use snowcast.State.Apply.{apply_disconnect}
use snowcast.Control.Drain.{LeavesNothing, forward_from-apply_disconnect}
use snowcast.Runtime.Serve.{Ports, Host, serve}
use snowcast.Runtime.Served.{
  serves, AllClosed, Reached, idle, then_serves, IsStreaming, Reached-IsStreaming,
}
use snowcast.Tests.Server.{key, known, joined, joined-IsConsistent}

abbrev quiet_host : Host
quiet_host = record {
  is_open = λ p. false;
  next_socket = 0;
  streams = [];
  servers = λ p. record { socket = 0; accepting = false; stopped = true };
  next_server = 0;
}

abbrev taken : Ports
taken = record {
  udp_resolves = true;
  udp_listens = true;
  tcp_listens = false;
  opens = λ path. true;
}

abbrev available : Ports
available = record {
  udp_resolves = true;
  udp_listens = true;
  tcp_listens = true;
  opens = λ path. true;
}

abbrev files : List Text
files = codes "a.mp3" ∷ codes "b.mp3" ∷ []

closed_again : AllClosed (serve taken files quiet_host).1
unfolding serve
closed_again p = ground arith

twice :
    Reached
      (serves available files ∷ serves taken files ∷ [])
      (serve available files (serve taken files quiet_host).1).1
twice =
    then_serves available files
      (then_serves taken files (idle ((λ p. refl), refl)) (λ bound p. refl)) (λ bound. closed_again)

Reached-IsStreaming_example :
    IsStreaming
      (serves available files ∷ serves taken files ∷ [])
      (serve available files (serve taken files quiet_host).1).1
Reached-IsStreaming_example = Reached-IsStreaming twice

forward_from-apply_disconnect_example : Ends (LeavesNothing 0 []) (apply_disconnect key joined)
forward_from-apply_disconnect_example = forward_from-apply_disconnect key joined-IsConsistent known
