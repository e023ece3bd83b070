-- ===== src/Server/Lifetime.antt =====
-- How `Run` of internal/server/server.go ends.
use tecora_be.Prelude.{Option, none, some}

-- An error that is `context.Canceled`, also where it is wrapped, or another.
pub data Failure : Type 0 where
  canceled broken : Failure

-- What the `select` meets: the parent context is done, and `Shutdown` answers; or `ListenAndServe`
-- returns, `http.ErrServerClosed`, nil or another error.
pub data Ended : Type 0 where
  asked : Option Failure → Ended
  server_closed : Ended
  stopped : Option Failure → Ended

-- What `Run` returns: nil, `context.Canceled`, or another error.
pub data Stop : Type 0 where
  clean canceled broken : Stop

abbrev returned : Option Failure → Stop
returned none = clean
returned (some Failure.canceled) = canceled
returned (some Failure.broken) = broken

unfoldable pub stop_of : Ended → Stop
stop_of (asked answer) = returned answer
stop_of server_closed = clean
stop_of (stopped answer) = returned answer
