-- ===== src/Connection/Waiting.antt =====
-- `WaitUntilConnected` of connection/connection.go, which looks every 50 milliseconds.
use qpub_go.Prelude.{Option, none, some, List, [], ◌∷◌, if◌then◌else◌}
use qpub_go.Prelude.Text.{Text}
use qpub_go.Connection.Types.{Conn}
use qpub_go.Connection.Ops.{is_connected}

-- What the `select` after a look finds: the end of the context, with its error, or the timer.
pub data Woken : Type 0 where
  context_ended : Text → Woken
  timer : Woken

-- The error of the call or nil, over the states that it meets; `none` where it still waits.
unfoldable pub wait_until_connected :
    {A C : Type 0} → List (Conn A C × Woken) → Option (Option Text)
wait_until_connected [] = none
wait_until_connected ((c, context_ended e) ∷ rest) =
    if is_connected c then some none else some (some e)
wait_until_connected ((c, timer) ∷ rest) =
    let later = wait_until_connected rest in if is_connected c then some none else later
