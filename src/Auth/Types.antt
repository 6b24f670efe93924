-- ===== src/Auth/Types.antt =====
-- The state of `Manager` in auth/manager.go. Its listeners are not in it; the events are in a log.
use qpub_go.Prelude.{ℤ, Bool, Option, List, ◌⊎◌}
use qpub_go.Prelude.Text.{Text}
use qpub_go.Prelude.Dict.{Dict}
use qpub_go.Protocol.Json.{Json}
use qpub_go.Options.{Options, AuthResponse, TokenRequest, TokenOptions}
use qpub_go.Jwt.Token.{Codec, DecodeError}

-- The errors, by where they arise; those of the HTTP client and of `json.Unmarshal` are texts.
pub data Error : Type 0 where
  no_credentials missing_aki token_not_found unexpected_response : Error
  missing_key bad_key not_signed : Error
  http_error json_error : Text → Error
  bad_token : DecodeError → Error

-- What is posted.
pub data Body : Type 0 where
  auth_body : Option (Dict Json) → Body
  request_body : TokenRequest → Body
  options_body : TokenOptions → Body

pub record Post : Type 0 where
  pub url : Text
  pub body : Body
  pub headers : Dict Text

-- The expiry in Unix seconds, where the token has one.
pub data Event : Type 0 where
  token_updated : Text → Option ℤ → Event
  token_expired : Option Text → Event

-- The HTTP client with its state, the codecs, the clock in milliseconds, and whether the context of
-- the manager is done.
pub record Env (S : Type 0) : Type 0 where
  pub opts : Options
  pub codec : Codec
  pub post : Post → S → (Text ⊎ Text) × S
  pub unmarshal_response : Text → Text ⊎ AuthResponse
  pub now : S → ℤ
  pub aborted : S → Bool

-- `refresh_timer` tells whether a timer is set; what is newest is first in the lists.
pub record Manager (S : Type 0) : Type 0 where
  pub state : S
  pub current_token : Text
  pub refresh_timer : Bool
  pub resetting : Bool
  pub events : List Event
  pub posts : List Post
