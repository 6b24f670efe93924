-- ===== src/Rest.antt =====
-- channel/rest.go: channels that publish over HTTP, and their manager, which has no mutex. A
-- `*RestChannel` is the number of its creation. A channel's emitter has no listeners of its own.
pub mod Registry
pub mod Wiring
pub mod Carried
pub mod Sent
pub mod Published
use qpub_go.Prelude.{ℕ, suc, Bool, true, false, Option, none, some, List, [], ◌∷◌, ◌++◌, ◌⊎◌}
use qpub_go.Prelude.Text.{Text, codes}
use qpub_go.Prelude.Dict.{Dict, lookup, insert, delete}
use qpub_go.Protocol.Json.{Json}
use qpub_go.Protocol.Messages.{DataMessagePayload, RestPublishRequest}
use qpub_go.Channel.Types.{PublishOptions}
use qpub_go.Http.{
  Port, Q, pure, ◌>>=◌, lift, auth_headers, base_url, exchange, replying, Reply, post, publish_body,
}

pub record RestManager : Type 0 where
  pub channels : Dict ℕ
  pub created : ℕ

unfoldable pub new_rest_manager : RestManager
new_rest_manager = record { channels = []; created = 0 }

abbrev get_found : Text → Option ℕ → RestManager → ℕ × RestManager
get_found name (some ch) m = (ch, m)
get_found name none m =
    (m.created, record { channels = insert name m.created m.channels; created = suc m.created })

unfoldable pub get : Text → RestManager → ℕ × RestManager
get name m = get_found name (lookup name m.channels) m

abbrev is_found : Option ℕ → Bool
is_found none = false
is_found (some ch) = true

unfoldable pub has : Text → RestManager → Bool
has name m = is_found (lookup name m.channels)

unfoldable pub remove : Text → RestManager → RestManager
remove name m = record m { channels = delete name m.channels }

unfoldable pub reset : RestManager → RestManager
reset m = record m { channels = [] }

module _ {S : Type 0} (port : Port S) where
  -- `Publish` of the channel with this name.
  unfoldable pub publish : Text → Json → PublishOptions → Q S Reply
  publish name payload opts = replying (do
    headers ← auth_headers port
    bytes ← lift (port.marshal payload)
    base ← base_url port
    exchange port (record {
      method = post;
      url = base ++ (codes "/channel/" ++ name ++ codes "/messages");
      body = publish_body (record {
        channels = [];
        messages = record { alias = opts.alias; event = opts.event; payload = bytes } ∷ [];
      });
      headers = headers;
    }))

  unfoldable pub publish_batch : List Text → List DataMessagePayload → Q S Reply
  publish_batch channels messages = replying (do
    headers ← auth_headers port
    base ← base_url port
    exchange port (record {
      method = post;
      url = base ++ codes "/channels/messages";
      body = publish_body (record { channels = channels; messages = messages });
      headers = headers;
    }))
