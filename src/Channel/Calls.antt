-- ===== src/Channel/Calls.antt =====
-- The remaining methods of a `SocketChannel`, and all its methods as one step.
use qpub_go.Prelude.{Bool, true, false, ◌&&◌, Option, none, List, [], if◌then◌else◌}
use qpub_go.Prelude.Text.{Text}
use qpub_go.Protocol.Messages.{WireMessage}
use qpub_go.Channel.Types.{
  Handler, SubscribeOptions, UnsubscribeOptions, PublishOptions, MessageSender, SocketChannel,
}
use qpub_go.Channel.Monad.{M, pure, ◌>>=◌, ◌>>◌, lock, unlock, get, modify}
use qpub_go.Channel.Handlers.{has_callback_locked}
use qpub_go.Channel.Delivery.{pause, resume, clear_buffered_messages}
use qpub_go.Channel.Wait.{Reply, returned, Wake, wait_ack}
use qpub_go.Channel.Subscribe.{subscribe, resubscribe, publish}
use qpub_go.Channel.Unsubscribe.{unsubscribe}
use qpub_go.Channel.Incoming.{handle_incoming}

unfoldable pub new_socket_channel : Text → SocketChannel
new_socket_channel name = record {
  name = name;
  mu = false;
  subscribed = false;
  pending_subscribe = false;
  pending_unsubscribe = false;
  paused = false;
  buffer_while_paused = true;
  paused_messages = [];
  catch_all_handler = none;
  event_callbacks = [];
  operation_queue = [];
  sub_done = none;
  unsub_done = none;
  reconnect_pending = false;
  next_done = 0;
  signals = [];
  log = [];
}

unfoldable pub has_callback : M Bool
has_callback = do lock; c ← get; unlock; pure (has_callback_locked c)

unfoldable pub set_pending_subscribe : Bool → M (Unit {0})
set_pending_subscribe v = do
  lock
  modify (λ s. record s { reconnect_pending = v; pending_subscribe = v })
  if v then modify (λ s. record s { subscribed = false }) else pure tt
  unlock

unfoldable pub needs_resubscribe : M Bool
needs_resubscribe = do lock; c ← get; unlock; pure (c.reconnect_pending && has_callback_locked c)

-- The listeners that `RemoveAll` drops are no part of this state.
unfoldable pub reset : M (Unit {0})
reset = do
  lock
  modify (λ s. record s {
    catch_all_handler = none;
    event_callbacks = [];
    subscribed = false;
    pending_subscribe = false;
    pending_unsubscribe = false;
    paused = false;
    paused_messages = [];
    operation_queue = [];
  })
  unlock

pub data Call : Type 0 where
  subscribes : Option Handler → SubscribeOptions → Call
  unsubscribes : List UnsubscribeOptions → Call
  resubscribes : Call
  publishes : Option Text → PublishOptions → Call
  receives : Option WireMessage → Call
  wakes : Reply → Wake → Call
  pauses : Bool → Call
  resumes clears resets : Call
  marks_pending : Bool → Call

abbrev pub no_reply : M (Unit {0}) → M Reply
no_reply m = m >> pure (returned none)

unfoldable pub step : MessageSender → Call → M Reply
step ws (subscribes handler opts) = subscribe ws handler opts
step ws (unsubscribes opts) = unsubscribe ws opts
step ws resubscribes = resubscribe ws
step ws (publishes payload opts) = publish ws payload opts
step ws (receives wire) = handle_incoming ws wire
step ws (wakes reply wake) = wait_ack reply wake
step ws (pauses buffer_messages) = no_reply (pause buffer_messages)
step ws resumes = no_reply resume
step ws clears = no_reply clear_buffered_messages
step ws resets = no_reply reset
step ws (marks_pending v) = no_reply (set_pending_subscribe v)
