-- ===== src/Tests/Lost.antt =====
-- Inputs for the theorems about connections that are lost, and the channels that come back.
use qpub_go.Prelude.{ℕ, suc, true, false, none, some, [], ◌∷◌, ◌≡◌, inr, inl, refl}
use qpub_go.Prelude.Text.{codes, same}
use qpub_go.Protocol.Action.{ActionType}
use qpub_go.Protocol.Messages.{WireMessage}
use qpub_go.Options.{default_option}
use qpub_go.Ws.{failure}
use qpub_go.Connection.Types.{Env, Conn}
use qpub_go.Connection.Ops.{new_conn, is_connected}
use qpub_go.Connection.Steps.{Run}
use qpub_go.Connection.Lost.{lost_again, lost_dials}
use qpub_go.Channel.Types.{MessageSender, SocketChannel}
use qpub_go.Channel.Monad.{ok}
use qpub_go.Channel.Wait.{returned, waits, acked, wait_ack}
use qpub_go.Channel.Subscribe.{resubscribe}
use qpub_go.Channel.Incoming.{handle_incoming}
use qpub_go.Channel.Calls.{new_socket_channel, set_pending_subscribe, needs_resubscribe}
use qpub_go.Channel.Invariant.{Inv}
use qpub_go.Channel.Recovery.{recovers}

-- Every dial succeeds.
abbrev env : Env ℕ ℕ
env = record {
  opts = default_option;
  authenticate = λ a. (none, a);
  get_authenticate_url = λ base a. (inr base, a);
  dial = λ n url. none;
  write = λ n payload. none;
  resubscribe_after_reconnect = λ ch. suc ch;
  pending_subscribe_all_channels = λ ch. suc ch;
  dispatch = λ payload ch. ch;
  decode = λ payload. inl (failure 0);
}

-- A reconnection waits in `Connect`, its read loop has begun.
abbrev resubscribing : Conn ℕ ℕ
resubscribing = record (new_conn 0 0) {
  readers = record { loop = 0; cancelled = false; reading = false } ∷ [];
  is_reconnecting = true;
  reconnect_attempts = 1;
  dialing = 1;
}

lost_again_example :
    (d : Conn ℕ ℕ) × Run env 0 resubscribing d
    × (d.intentional_disconnect ≡ false)
    × (d.is_reconnecting ≡ false)
    × (d.reconnect_attempts ≡ 1)
    × ((f : Conn ℕ ℕ) → Run env 0 d f → f.ws.dials ≡ 0)
unfolding new_conn default_option
lost_again_example = lost_again env resubscribing 0 (failure 1) refl refl refl refl refl refl refl

-- A client that reads from its first connection.
abbrev reading : Conn ℕ ℕ
reading = record (new_conn 0 0) {
  ws = record { conn = some 0; dials = 1 };
  readers = record { loop = 0; cancelled = false; reading = true } ∷ [];
}

lost_dials_example :
    (d : Conn ℕ ℕ) × Run env 0 reading d × ((is_connected d ≡ true) × (d.ws.dials ≡ 2))
unfolding new_conn default_option
lost_dials_example =
    lost_dials env reading [] [] 0 false (failure 1) refl (λ a. refl) (λ base a. (base, refl))
      (λ n url. refl) refl refl refl refl refl

abbrev up : MessageSender
up = record { is_connected = true; send = λ f. none }

abbrev room : SocketChannel
room = record (new_socket_channel (codes "room")) {
  subscribed = true;
  catch_all_handler = some (record { code = 1; env = 0 });
}

abbrev answer : WireMessage
answer = record {
  action = ActionType.subscribed;
  error_info = none;
  connection_id = [];
  connection_details = none;
  channel = codes "room";
  subscription_id = codes "s2";
  id = [];
  timestamp = [];
  messages = [];
}

room-Inv : Inv room
unfolding new_socket_channel
room-Inv = record { free = refl; exclusive = refl; drained = inr refl }

recovers_example :
    let r = waits 0 10_000_000_000 (codes "subscribe") in
    (a d e f : SocketChannel) × (set_pending_subscribe true room ≡ ok tt a)
    × (needs_resubscribe a ≡ ok true a)
    × (resubscribe up a ≡ ok r d)
    × (handle_incoming up (some answer) d ≡ ok (returned none) e)
    × (e.subscribed ≡ true)
    × (e.reconnect_pending ≡ false)
    × (e.event_callbacks ≡ [])
    × (e.catch_all_handler ≡ some (record { code = 1; env = 0 }))
    × (wait_ack r acked e ≡ ok (returned none) f)
unfolding new_socket_channel same
recovers_example = recovers up up answer room room-Inv refl refl refl refl refl
