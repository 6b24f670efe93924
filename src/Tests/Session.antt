-- ===== src/Tests/Session.antt =====
-- Inputs for the theorems about the auth manager with the connection that listens to it.
use qpub_go.Prelude.{ℕ, suc, pos, true, false, none, some, [], ◌≡◌, inl, inr, refl, sym, ◌∙◌, arith}
use qpub_go.Prelude.Text.{Text, codes}
use qpub_go.Options.{default_option}
use qpub_go.Jwt.Base64
use qpub_go.Jwt.Token.{Decoded, signed_header, decode, split, is_expired}
use qpub_go.Prelude.Duration.{wrap}
use qpub_go.Ws.{Error, failure}
use qpub_go.Auth.Types
use qpub_go.Auth.Types.{Manager}
use qpub_go.Connection.Types.{Env}
use qpub_go.Connection.Ops.{new_conn}
use qpub_go.Session.{runs_on, Client}
use qpub_go.Session.Calls.{connect, call}
use qpub_go.Session.Loops.{call-runs_on}
use qpub_go.Session.Short.{IsShort, call_short-runs_on}
use qpub_go.Session.Replies.{IsLasting}
use qpub_go.Session.Bounded.{Posts, connect-Posts}
use qpub_go.Session.Agrees.{lift, authenticate-lift}
use qpub_go.Session.Authenticate.{authenticate}
use qpub_go.Auth.Authenticate

-- A token that expires at the second 1030.
abbrev decoded : Decoded
decoded = record {
  header = signed_header (codes "key");
  payload = record { alias = []; permission = none; exp = pos 1030 };
}

abbrev token : Text
token = codes "YWJj.YWJj"

-- An auth manager that asks no server, at a time in milliseconds.
abbrev key_only : ℕ → Types.Env ℕ
key_only now = record {
  opts = record default_option { api_key = codes "a:b" };
  codec = record {
    marshal_header = λ h. [];
    marshal_payload = λ p. [];
    unmarshal_header = λ b. some decoded.header;
    unmarshal_payload = λ b. some decoded.payload;
  };
  post = λ p s. (inr (codes "{}"), suc s);
  unmarshal_response = λ b. inr (record { token = token; token_request = none });
  now = λ s. pos now;
  aborted = λ s. false;
}

-- One that asks a server, which always answers with the token.
abbrev with_server : ℕ → Types.Env ℕ
with_server now = record (key_only now) {
  opts = record default_option { auth_url = codes "https://example.org" };
}

abbrev manager : Manager ℕ
manager = record {
  state = 0;
  current_token = token;
  refresh_timer = false;
  resetting = false;
  events = [];
  posts = [];
}

abbrev client : Client ℕ ℕ
client = new_conn manager 0

abbrev conn : Env (Manager ℕ) ℕ
conn = record {
  opts = default_option;
  authenticate = λ a. (none, a);
  get_authenticate_url = λ base a. (inr base, a);
  dial = λ n url. none;
  write = λ n payload. none;
  resubscribe_after_reconnect = λ ch. suc ch;
  pending_subscribe_all_channels = λ ch. suc ch;
  dispatch = λ payload ch. ch;
  decode = λ payload. inl (failure 0);
}

abbrev describe : Types.Error → Error
describe e = failure 7

readable : (now : ℕ) → decode (key_only now).codec token ≡ inr decoded
unfolding decode split Base64.base64_url_decode Base64.padded Base64.raw_url_decode
    Base64.without_breaks Base64.sextets_of Base64.sextet_of Base64.from_sextets
readable now = refl

expired : is_expired (key_only 2000000).codec (pos 2000000) token ≡ true
unfolding is_expired wrap
expired = rw (readable 2000000, is_expired) refl

-- At the second 2000, after the expiry.
call-runs_on_example : call (key_only 2000000) conn describe 5 client ≡ runs_on
unfolding new_conn default_option
call-runs_on_example =
    call-runs_on (key_only 2000000) conn describe 5 client (refl, refl, refl) (refl, refl, expired)

-- At the second 1000, half a minute before it.
short : IsShort (with_server 1000000)
short p s = (
  codes "{}",
  record { token = token; token_request = none },
  decoded,
  refl,
  refl,
  refl,
  readable 1000000,
  refl,
)

call_short-runs_on_example : call (with_server 1000000) conn describe 5 client ≡ runs_on
unfolding new_conn default_option
call_short-runs_on_example =
    call_short-runs_on (with_server 1000000) conn describe 5 3 client
      (refl, refl, refl, refl, λ s. refl) short (refl, refl)

-- At the second 900, more than two minutes before it.
usable : is_expired (with_server 900000).codec (pos 900000) token ≡ false
unfolding is_expired wrap
usable = rw (readable 900000, is_expired) refl

lasting : IsLasting (with_server 900000)
lasting p s b resp d answered read decodes =
    let read_as : record { token = token; token_request = none } ≡ resp = ground arith in
    let same_token : decode (with_server 900000).codec token ≡ inr d =
      rw (sym read_as) at decodes in
    let decoded_as : decoded ≡ d = let both = sym (readable 900000) ∙ same_token in cc in
    rw (sym decoded_as, sym read_as) (refl, usable)

connect-Posts_example :
    Posts
      (with_server 900000)
      (λ c. runs_on)
      5
      (connect (with_server 900000) conn describe (λ c. runs_on) client)
unfolding new_conn default_option
connect-Posts_example =
    connect-Posts (with_server 900000) (λ c. runs_on) conn describe 3 client lasting
      (refl, refl, refl, λ s. refl) refl

authenticate-lift_example :
    authenticate (with_server 900000) (λ c. runs_on) client
    ≡ lift
        (with_server 900000)
        (λ c. runs_on)
        client
        (Authenticate.authenticate (with_server 900000) manager)
unfolding new_conn
authenticate-lift_example = authenticate-lift (with_server 900000) (λ c. runs_on) lasting client
