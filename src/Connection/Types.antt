-- ===== src/Connection/Types.antt =====
-- The state of `Conn` (connection/connection.go), and what it asks of the components it calls.
use qpub_go.Prelude.{ℕ, ℤ, Bool, Option, List, ◌⊎◌}
use qpub_go.Prelude.Text.{Text}
use qpub_go.Protocol.Action.{ActionType}
use qpub_go.Protocol.Messages.{ConnectionDetails}
use qpub_go.Options.{Options}
use qpub_go.Ws.{Client, Error}

pub record FailedPayload : Type 0 where
  pub error : Option Error
  pub attempt : ℕ
  pub context : Text

-- The events of events/events.go, each with its payload.
pub data ConnectionEvent : Type 0 where
  initialized opened disconnected closing : ConnectionEvent
  connecting : ℕ → ConnectionEvent
  connected : Text → Option ConnectionDetails → ConnectionEvent
  closed : Option Error → ConnectionEvent
  failed : FailedPayload → ConnectionEvent

-- The goroutine of `startReadLoop`: its context, whether that is cancelled, and whether it waits in
-- `ReadMessage`.
pub record Reader : Type 0 where
  pub loop : ℕ
  pub cancelled : Bool
  pub reading : Bool

-- What `handleMessage` decodes of a message.
pub record Incoming : Type 0 where
  pub action : ActionType
  pub connection_id : Text
  pub connection_details : Option ConnectionDetails
  pub ping_id : ℤ

-- The auth manager with the state `A`, the channel manager with the state `C`, the WebSocket
-- library, the JSON decoder, and the settings.
pub record Env (A C : Type 0) : Type 0 where
  pub opts : Options
  pub authenticate : A → Option Error × A
  pub get_authenticate_url : Text → A → (Error ⊎ Text) × A
  pub dial : ℕ → Text → Option Error
  pub write : ℕ → Text → Option Error
  pub resubscribe_after_reconnect : C → C
  pub pending_subscribe_all_channels : C → C
  pub dispatch : Text → C → C
  pub decode : Text → Error ⊎ Incoming

-- A ping that waits: its number, of which Go's map has the decimal text, and its start.
pub record PendingPing : Type 0 where
  pub id : ℕ
  pub start : ℕ

-- `spawned` counts the goroutines of `tryReconnect` that have not begun, `sleeping` those that wait
-- for their delay, `dialing` those that are in `Connect`; `loops` counts the contexts of read loops. The newest event is first.
pub record Conn (A C : Type 0) : Type 0 where
  pub ws : Client
  pub auth : A
  pub channels : C
  pub reconnect_attempts : ℕ
  pub is_reconnecting : Bool
  pub intentional_disconnect : Bool
  pub resetting : Bool
  pub ping_counter : ℕ
  pub pending_pings : List PendingPing
  pub answers : List (ℕ × ℕ)
  pub loops : ℕ
  pub read_cancel : Option ℕ
  pub readers : List Reader
  pub spawned : ℕ
  pub sleeping : ℕ
  pub dialing : ℕ
  pub log : List ConnectionEvent
