-- ===== src/Protocol/Messages.antt =====
-- protocol/messages.go. A `json.RawMessage` is its bytes, a missing pointer is `none`.
use qpub_go.Prelude.{ℤ, Option, List}
use qpub_go.Prelude.Text.{Text}
use qpub_go.Protocol.Action.{ActionType}

pub record ErrorInfo : Type 0 where
  pub code : ℤ
  pub href : Text
  pub message : Text
  pub status_code : ℤ

pub record ConnectionDetails : Type 0 where
  pub alias : Text
  pub client_id : Text
  pub server_id : Text

-- The field `Data` is spelled `payload`.
pub record DataMessagePayload : Type 0 where
  pub alias : Text
  pub event : Text
  pub payload : Text

pub record Message : Type 0 where
  pub action : ActionType
  pub error_info : Option ErrorInfo
  pub id : Text
  pub timestamp : Text
  pub channel : Text
  pub alias : Text
  pub event : Text
  pub payload : Text

pub record WireMessage : Type 0 where
  pub action : ActionType
  pub error_info : Option ErrorInfo
  pub connection_id : Text
  pub connection_details : Option ConnectionDetails
  pub channel : Text
  pub subscription_id : Text
  pub id : Text
  pub timestamp : Text
  pub messages : List DataMessagePayload

pub record RestPublishRequest : Type 0 where
  pub channels : List Text
  pub messages : List DataMessagePayload
