-- ===== src/Options.antt =====
-- option/option.go: the settings of a client, their defaults, and how they are merged.
pub mod Itoa
pub mod Laws
use qpub_go.Prelude.{
  ℕ, ℤ, pos, negsuc, zero, suc, Bool, true, false, ◌||◌, Option, none, some, List, [], ◌∷◌, ◌==◌,
  ◌^◌, if◌then◌else◌, is_zero,
}
use qpub_go.Prelude.Text.{Text, codes, is_empty}
use qpub_go.Prelude.Dict.{Dict}
use qpub_go.Protocol.Json.{Json}

pub record AuthOptions : Type 0 where
  pub headers : Dict Text
  pub body : Dict Json

abbrev pub Permission : Type 0
Permission = Dict (List Text)

-- The Unix time is an `int64`.
pub record TokenRequest : Type 0 where
  pub aki : Text
  pub permission : Option Permission
  pub alias : Text
  pub timestamp : ℤ
  pub signature : Text

pub record TokenOptions : Type 0 where
  pub permission : Option Permission
  pub alias : Text
  pub expires_in : ℤ

pub record AuthResponse : Type 0 where
  pub token : Text
  pub token_request : Option TokenRequest

-- The struct `Option`. The `float64` of the multiplier is its bit pattern.
pub record Options : Type 0 where
  pub api_key : Text
  pub auth_url : Text
  pub auth_options : Option AuthOptions
  pub token_request : Option TokenRequest
  pub alias : Text
  pub http_host : Text
  pub http_port : Option ℤ
  pub ws_host : Text
  pub ws_port : Option ℤ
  pub is_secure : Bool
  pub auto_connect : Bool
  pub auto_reconnect : Bool
  pub auto_resubscribe : Bool
  pub auto_authenticate : Bool
  pub connect_timeout_ms : ℤ
  pub max_reconnect_attempts : ℤ
  pub initial_reconnect_delay_ms : ℤ
  pub max_reconnect_delay_ms : ℤ
  pub reconnect_backoff_multiplier : ℕ
  pub resubscribe_interval_ms : ℤ
  pub authenticate_retries : ℤ
  pub authenticate_retry_interval_ms : ℤ
  pub ping_timeout_ms : ℤ
  pub debug : Bool
  pub log_level : Text

-- 1.5 as a `float64` is 0x3FF8000000000000.
unfoldable pub default_option : Options
default_option = record {
  api_key = [];
  auth_url = [];
  auth_options = none;
  token_request = none;
  alias = [];
  http_host = codes "rest.qpub.io";
  http_port = none;
  ws_host = codes "socket.qpub.io";
  ws_port = none;
  is_secure = true;
  auto_connect = true;
  auto_reconnect = true;
  auto_resubscribe = true;
  auto_authenticate = true;
  connect_timeout_ms = pos 10000;
  max_reconnect_attempts = pos 10;
  initial_reconnect_delay_ms = pos 1000;
  max_reconnect_delay_ms = pos 30000;
  reconnect_backoff_multiplier = 0x3FF8000000000000;
  resubscribe_interval_ms = pos 1000;
  authenticate_retries = pos 3;
  authenticate_retry_interval_ms = pos 1000;
  ping_timeout_ms = pos 10000;
  debug = false;
  log_level = codes "error";
}

-- `if src != "" { dst = src }`, and the same for a pointer, an `int` and a `float64`, of which 0
-- and -0 are zero.
abbrev pub or_text : Text → Text → Text
or_text src dst = if is_empty src then dst else src

abbrev pub or_pointer {ℓ} : {A : Type ℓ} → Option A → Option A → Option A
or_pointer none dst = dst
or_pointer (some a) dst = some a

abbrev pub or_int : ℤ → ℤ → ℤ
or_int src dst = if is_zero src then dst else src

abbrev pub or_float : ℕ → ℕ → ℕ
or_float src dst = if (src == 0) || (src == 0x8000000000000000) then dst else src

unfoldable pub merge_option : Options → Options → Options
merge_option dst src = record dst {
  api_key = or_text src.api_key dst.api_key;
  auth_url = or_text src.auth_url dst.auth_url;
  auth_options = or_pointer src.auth_options dst.auth_options;
  token_request = or_pointer src.token_request dst.token_request;
  alias = or_text src.alias dst.alias;
  http_host = or_text src.http_host dst.http_host;
  http_port = or_pointer src.http_port dst.http_port;
  ws_host = or_text src.ws_host dst.ws_host;
  ws_port = or_pointer src.ws_port dst.ws_port;
  connect_timeout_ms = or_int src.connect_timeout_ms dst.connect_timeout_ms;
  max_reconnect_attempts = or_int src.max_reconnect_attempts dst.max_reconnect_attempts;
  initial_reconnect_delay_ms = or_int src.initial_reconnect_delay_ms dst.initial_reconnect_delay_ms;
  max_reconnect_delay_ms = or_int src.max_reconnect_delay_ms dst.max_reconnect_delay_ms;
  reconnect_backoff_multiplier =
      or_float src.reconnect_backoff_multiplier dst.reconnect_backoff_multiplier;
  resubscribe_interval_ms = or_int src.resubscribe_interval_ms dst.resubscribe_interval_ms;
  authenticate_retries = or_int src.authenticate_retries dst.authenticate_retries;
  authenticate_retry_interval_ms =
      or_int src.authenticate_retry_interval_ms dst.authenticate_retry_interval_ms;
  ping_timeout_ms = or_int src.ping_timeout_ms dst.ping_timeout_ms;
  debug = src.debug;
  log_level = or_text src.log_level dst.log_level;
}

abbrev pub OptionFunc : Type 0
OptionFunc = Options → Options

unfoldable pub with_api_key : Text → OptionFunc
with_api_key key o = record o { api_key = key }

unfoldable pub with_auto_connect : Bool → OptionFunc
with_auto_connect v o = record o { auto_connect = v }

unfoldable pub with_is_secure : Bool → OptionFunc
with_is_secure v o = record o { is_secure = v }

unfoldable pub from_option : Options → OptionFunc
from_option o target = merge_option target o

-- The manager holds one set of options.
unfoldable pub apply_all : List OptionFunc → Options → Options
apply_all [] opts = opts
apply_all (f ∷ fs) opts = apply_all fs (f opts)

unfoldable pub new_manager : List OptionFunc → Options
new_manager funcs = apply_all funcs default_option

unfoldable pub new_manager_from : Options → Options
new_manager_from partial = merge_option default_option partial

-- `Manager.Set`
unfoldable pub set_options : Options → Options → Options
set_options partial opts = merge_option opts partial

-- `Manager.Get`, which copies the settings, and `Manager.Reset`.
unfoldable pub get_options : Options → Options
get_options opts = opts

unfoldable pub reset_options : Options → Options
reset_options opts = default_option
