-- ===== src/Control/Stream.antt =====
-- The loop at the end of `SetStation`: events are forwarded to the client's stream.
use snowcast.Prelude.{Bool, true, false, Option, none, some, List, [], ◌∷◌}
use snowcast.Protocol.{ServerEvent, Error, stream_closed, context_ended}

-- What the `select` meets: an event with the outcome of its `Send`, the closed channel, or the end
-- of the stream's context.
pub data Incoming : Type 0 where
  event : ServerEvent → (send_works : Bool) → Incoming
  chan_closed : Incoming
  context_done : Incoming

-- `waiting` is a loop that has not returned.
pub data Status : Type 0 where
  returned : Option Error → Status
  waiting : Status

abbrev pub and_sent : ServerEvent → List ServerEvent × Status → List ServerEvent × Status
and_sent e (es, s) = (e ∷ es, s)

unfoldable pub forward : List Incoming → List ServerEvent × Status
forward [] = ([], waiting)
forward (event e true ∷ more) = and_sent e (forward more)
forward (event e false ∷ more) = ([], returned (some stream_closed))
forward (chan_closed ∷ more) = ([], returned none)
forward (context_done ∷ more) = ([], returned (some context_ended))
