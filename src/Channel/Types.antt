-- ===== src/Channel/Types.antt =====
-- The state of a `SocketChannel` (channel/socket.go), what it asks of its sender
-- (channel/ws_sender.go), and the events that it emits (events/events.go).
use qpub_go.Prelude.{ℕ, ℤ, Option, List, Bool}
use qpub_go.Prelude.Text.{Text}
use qpub_go.Prelude.Dict.{Dict}
use qpub_go.Protocol.Messages.{Message, DataMessagePayload}

-- A Go closure: its code pointer, which is not 0, is `suc code`; `env` tells apart the closures
-- that one function literal makes. A `nil` handler is `none`.
pub record Handler : Type 0 where
  pub code : ℕ
  pub env : ℕ

pub record SubscribeOptions : Type 0 where
  pub event : Text
  pub timeout : ℤ

pub record UnsubscribeOptions : Type 0 where
  pub event : Text
  pub handler : Option Handler
  pub timeout : ℤ

-- The two values of the field `kind`, each with the fields that it uses.
pub data QueuedOperation : Type 0 where
  subscribe : Option Handler → SubscribeOptions → QueuedOperation
  unsubscribe : Option Handler → UnsubscribeOptions → QueuedOperation

pub record PublishOptions : Type 0 where
  pub event : Text
  pub alias : Text

-- A frame before `json.Marshal`.
pub data Frame : Type 0 where
  subscribe_frame unsubscribe_frame : Text → Frame
  publish_frame : Text → DataMessagePayload → Frame

-- An `error` of the channel: a text, that of a failed marshal, the sender's, or a context's.
pub data Error : Type 0 where
  errors_new : Text → Error
  marshal_failed : Error
  sender_error : ℕ → Error
  context_done : Text → Error

-- The `MessageSender` as one operation meets it.
pub record MessageSender : Type 0 where
  pub is_connected : Bool
  pub send : Frame → Option Error

pub data ChannelEvent : Type 0 where
  subscribing subscribed unsubscribing unsubscribed paused resumed failed : ChannelEvent

pub data Payload : Type 0 where
  nil : Payload
  subscription : Text → Text → Payload
  failure : Text → Text → Text → Payload

-- What the world sees of a channel. `emitted` says whether the mutex was held.
pub data Output : Type 0 where
  sent : Frame → Output
  emitted : Bool → ChannelEvent → Payload → Output
  invoked : Handler → Message → Output

-- `mu` is true while the mutex is held. A `done` channel is a number, `next_done` the next one to
-- be made, and `signals` lists those that hold a value. `log` is the newest output first.
pub record SocketChannel : Type 0 where
  pub name : Text
  pub mu : Bool
  pub subscribed : Bool
  pub pending_subscribe : Bool
  pub pending_unsubscribe : Bool
  pub paused : Bool
  pub buffer_while_paused : Bool
  pub paused_messages : List Message
  pub catch_all_handler : Option Handler
  pub event_callbacks : Dict (List (Option Handler))
  pub operation_queue : List QueuedOperation
  pub sub_done : Option ℕ
  pub unsub_done : Option ℕ
  pub reconnect_pending : Bool
  pub next_done : ℕ
  pub signals : List ℕ
  pub log : List Output
