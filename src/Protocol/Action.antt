-- ===== src/Protocol/Action.antt =====
-- protocol/action.go: the action field of a frame, an `int` on the wire.
use qpub_go.Prelude.{ℤ, Option, none, some}
use qpub_go.Prelude.Text.{Text, codes}

-- The constants of the `iota` block in their order, and any other integer.
pub data ActionType : Type 0 where
  connect connected disconnect disconnected subscribe subscribed unsubscribe unsubscribed publish
        published message error ping pong :
      ActionType
  unknown : ℤ → ActionType

-- `ActionStrings`, a map that lacks every other integer.
unfoldable pub action_string : ActionType → Option Text
action_string connect = some (codes "connect")
action_string connected = some (codes "connected")
action_string disconnect = some (codes "disconnect")
action_string disconnected = some (codes "disconnected")
action_string subscribe = some (codes "subscribe")
action_string subscribed = some (codes "subscribed")
action_string unsubscribe = some (codes "unsubscribe")
action_string unsubscribed = some (codes "unsubscribed")
action_string publish = some (codes "publish")
action_string published = some (codes "published")
action_string message = some (codes "message")
action_string error = some (codes "error")
action_string ping = some (codes "ping")
action_string pong = some (codes "pong")
action_string (unknown n) = none
