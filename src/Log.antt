-- ===== src/Log.antt =====
-- A whole log: what `Writer` writes of it, and what `Reader` hands over of what was written.
pub mod Messages
pub mod Written
pub mod RoundTrip
use ulog_cpp.Prelude.{List, [], ◌∷◌}
use ulog_cpp.Handler.{Event, Outcome, returned, thrown, DataHandlerInterface}

-- Go on behind a call that returned; an exception ends the calls.
unfoldable pub if_returned : {S : Type 0} → (S → S × Outcome) → S × Outcome → S × Outcome
if_returned k (s, returned) = k s
if_returned k (s, thrown x) = (s, thrown x)

-- The calls that one makes on a handler, in order, up to the first that throws.
unfoldable pub calls : (H : DataHandlerInterface) → List Event → H.S → H.S × Outcome
unfolding if_returned
calls H [] s = (s, returned)
calls H (e ∷ es) s = if_returned (λ t. calls H es t) (H.on_event e s)
