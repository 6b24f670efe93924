-- ===== src/Options/Laws.antt =====
-- Laws of `mergeOption` (option/option.go).
use qpub_go.Prelude.{
  ℕ, ℤ, pos, negsuc, zero, suc, Bool, false, Option, none, some, List, [], ◌∷◌, ◌≡◌, ◌∙◌, ap, refl,
  arith,
}
use qpub_go.Prelude.Text.{Text}
use qpub_go.Options.{
  Options, default_option, or_text, or_pointer, or_int, or_float, merge_option, set_options,
  OptionFunc, from_option, new_manager, apply_all,
}

or_text_assoc : (a b d : Text) → or_text b (or_text a d) ≡ or_text (or_text b a) d
or_text_assoc a [] d = refl
or_text_assoc a (c ∷ b) d = refl

or_pointer_assoc {ℓ} :
    {A : Type ℓ} (a b d : Option A) → or_pointer b (or_pointer a d) ≡ or_pointer (or_pointer b a) d
or_pointer_assoc a none d = refl
or_pointer_assoc a (some x) d = refl

or_int_assoc : (a b d : ℤ) → or_int b (or_int a d) ≡ or_int (or_int b a) d
or_int_assoc a (pos zero) d = refl
or_int_assoc a (pos (suc n)) d = refl
or_int_assoc a (negsuc n) d = refl

or_float_assoc : (a b d : ℕ) → or_float b (or_float a d) ≡ or_float (or_float b a) d
or_float_assoc a b d = ground arith

-- Two calls of `Set` are one call with the second options merged over the first.
pub merge_assoc :
    (d a b : Options) → merge_option (merge_option d a) b ≡ merge_option d (merge_option a b)
unfolding merge_option
merge_assoc d a b = λ i. record d {
  api_key = or_text_assoc a.api_key b.api_key d.api_key i;
  auth_url = or_text_assoc a.auth_url b.auth_url d.auth_url i;
  auth_options = or_pointer_assoc a.auth_options b.auth_options d.auth_options i;
  token_request = or_pointer_assoc a.token_request b.token_request d.token_request i;
  alias = or_text_assoc a.alias b.alias d.alias i;
  http_host = or_text_assoc a.http_host b.http_host d.http_host i;
  http_port = or_pointer_assoc a.http_port b.http_port d.http_port i;
  ws_host = or_text_assoc a.ws_host b.ws_host d.ws_host i;
  ws_port = or_pointer_assoc a.ws_port b.ws_port d.ws_port i;
  connect_timeout_ms =
      or_int_assoc a.connect_timeout_ms b.connect_timeout_ms d.connect_timeout_ms i;
  max_reconnect_attempts =
      or_int_assoc a.max_reconnect_attempts b.max_reconnect_attempts d.max_reconnect_attempts i;
  initial_reconnect_delay_ms =
      or_int_assoc a.initial_reconnect_delay_ms b.initial_reconnect_delay_ms
        d.initial_reconnect_delay_ms i;
  max_reconnect_delay_ms =
      or_int_assoc a.max_reconnect_delay_ms b.max_reconnect_delay_ms d.max_reconnect_delay_ms i;
  reconnect_backoff_multiplier =
      or_float_assoc a.reconnect_backoff_multiplier b.reconnect_backoff_multiplier
        d.reconnect_backoff_multiplier i;
  resubscribe_interval_ms =
      or_int_assoc a.resubscribe_interval_ms b.resubscribe_interval_ms d.resubscribe_interval_ms i;
  authenticate_retries =
      or_int_assoc a.authenticate_retries b.authenticate_retries d.authenticate_retries i;
  authenticate_retry_interval_ms =
      or_int_assoc a.authenticate_retry_interval_ms b.authenticate_retry_interval_ms
        d.authenticate_retry_interval_ms i;
  ping_timeout_ms = or_int_assoc a.ping_timeout_ms b.ping_timeout_ms d.ping_timeout_ms i;
  log_level = or_text_assoc a.log_level b.log_level d.log_level i;
  debug = b.debug;
}

or_text_idem : (a : Text) → or_text a a ≡ a
or_text_idem [] = refl
or_text_idem (c ∷ a) = refl

or_pointer_idem {ℓ} : {A : Type ℓ} (a : Option A) → or_pointer a a ≡ a
or_pointer_idem none = refl
or_pointer_idem (some x) = refl

or_int_idem : (a : ℤ) → or_int a a ≡ a
or_int_idem a = ground arith

or_float_idem : (a : ℕ) → or_float a a ≡ a
or_float_idem a = ground arith

merge_self : (d : Options) → merge_option d d ≡ d
unfolding merge_option
merge_self d = λ i. record d {
  api_key = or_text_idem d.api_key i;
  auth_url = or_text_idem d.auth_url i;
  auth_options = or_pointer_idem d.auth_options i;
  token_request = or_pointer_idem d.token_request i;
  alias = or_text_idem d.alias i;
  http_host = or_text_idem d.http_host i;
  http_port = or_pointer_idem d.http_port i;
  ws_host = or_text_idem d.ws_host i;
  ws_port = or_pointer_idem d.ws_port i;
  connect_timeout_ms = or_int_idem d.connect_timeout_ms i;
  max_reconnect_attempts = or_int_idem d.max_reconnect_attempts i;
  initial_reconnect_delay_ms = or_int_idem d.initial_reconnect_delay_ms i;
  max_reconnect_delay_ms = or_int_idem d.max_reconnect_delay_ms i;
  reconnect_backoff_multiplier = or_float_idem d.reconnect_backoff_multiplier i;
  resubscribe_interval_ms = or_int_idem d.resubscribe_interval_ms i;
  authenticate_retries = or_int_idem d.authenticate_retries i;
  authenticate_retry_interval_ms = or_int_idem d.authenticate_retry_interval_ms i;
  ping_timeout_ms = or_int_idem d.ping_timeout_ms i;
  log_level = or_text_idem d.log_level i;
}

-- Merging the same options once more changes nothing.
merge_idem : (d a : Options) → merge_option (merge_option d a) a ≡ merge_option d a
merge_idem d a = merge_assoc d a a ∙ ap (merge_option d) (merge_self a)

-- Options with every field at its zero value.
abbrev pub zero_options : Options
zero_options = record default_option {
  api_key = [];
  auth_url = [];
  auth_options = none;
  token_request = none;
  alias = [];
  http_host = [];
  http_port = none;
  ws_host = [];
  ws_port = none;
  connect_timeout_ms = pos 0;
  max_reconnect_attempts = pos 0;
  initial_reconnect_delay_ms = pos 0;
  max_reconnect_delay_ms = pos 0;
  reconnect_backoff_multiplier = 0;
  resubscribe_interval_ms = pos 0;
  authenticate_retries = pos 0;
  authenticate_retry_interval_ms = pos 0;
  ping_timeout_ms = pos 0;
  log_level = [];
  is_secure = false;
  auto_connect = false;
  auto_reconnect = false;
  auto_resubscribe = false;
  auto_authenticate = false;
  debug = false;
}

-- `Set` with options that are all zero changes nothing but `Debug`, which it turns off.
set_zero : (opts : Options) → set_options zero_options opts ≡ record opts { debug = false }
unfolding set_options merge_option
set_zero opts = refl

-- No flag of the options that `FromOption` is given but `Debug` has an effect: with the five others
-- set in any way, a new manager has the same options.
from_option_flags :
    (o : Options) (fs : List OptionFunc) (secure connect reconnect resubscribe authenticate : Bool)
    → let p = record o {
      is_secure = secure;
      auto_connect = connect;
      auto_reconnect = reconnect;
      auto_resubscribe = resubscribe;
      auto_authenticate = authenticate;
    } in
      new_manager (from_option p ∷ fs) ≡ new_manager (from_option o ∷ fs)
unfolding new_manager apply_all from_option merge_option
from_option_flags o fs secure connect reconnect resubscribe authenticate = refl
