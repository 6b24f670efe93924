-- ===== src/Channel/Incoming.antt =====
-- `HandleIncoming` and `processOperationQueue` of channel/socket.go. A frame is given after
-- `json.Unmarshal`: `none` where that fails.
use qpub_go.Prelude.{
  ℕ, suc, true, false, not, ◌&&◌, ◌||◌, Option, none, some, List, [], ◌∷◌, ◌++◌, if◌then◌else◌, ltb,
  length,
}
use qpub_go.Prelude.Text.{Text, codes, is_empty, same}
use qpub_go.Protocol.Action.{ActionType, subscribed, unsubscribed, message, error}
use qpub_go.Protocol.Messages.{ErrorInfo, DataMessagePayload, Message, WireMessage}
use qpub_go.Channel.Types.{QueuedOperation, MessageSender, ChannelEvent, subscription, failure}
use qpub_go.Channel.Monad.{
  M, pure, ◌>>=◌, ◌>>◌, panic, lock, unlock, get, modify, emit, index_out_of_range,
}
use qpub_go.Channel.Itoa.{itoa}
use qpub_go.Channel.Delivery.{deliver_message}
use qpub_go.Channel.Wait.{Reply, returned, signal_done}
use qpub_go.Channel.Subscribe.{subscribe}
use qpub_go.Channel.Unsubscribe.{unsubscribe}

-- The first operation of the queue runs on this goroutine, up to where it waits.
unfoldable pub run_operation : MessageSender → QueuedOperation → M Reply
run_operation ws (QueuedOperation.subscribe handler opts) = subscribe ws handler opts
run_operation ws (QueuedOperation.unsubscribe handler opts) = unsubscribe ws (opts ∷ [])

unfoldable pub take_operation : MessageSender → List QueuedOperation → M Reply
take_operation ws [] = do unlock; pure (returned none)
take_operation ws (op ∷ rest) = do
  modify (λ s. record s { operation_queue = rest })
  unlock
  run_operation ws op

unfoldable pub process_operation_queue : MessageSender → M Reply
process_operation_queue ws = do
  lock
  c ← get
  if c.pending_subscribe || c.pending_unsubscribe
      then (do unlock; pure (returned none))
      else take_operation ws c.operation_queue

unfoldable pub handle_subscribed : MessageSender → WireMessage → M Reply
handle_subscribed ws wire = do
  lock
  c ← get
  modify (λ s. record s {
    subscribed = true;
    pending_subscribe = false;
    reconnect_pending = false;
    sub_done = none;
  })
  unlock
  emit ChannelEvent.subscribed (subscription c.name wire.subscription_id)
  signal_done c.sub_done
  process_operation_queue ws

unfoldable pub handle_unsubscribed : MessageSender → WireMessage → M Reply
handle_unsubscribed ws wire = do
  lock
  c ← get
  modify (λ s. record s {
    subscribed = false;
    pending_unsubscribe = false;
    catch_all_handler = none;
    event_callbacks = [];
    unsub_done = none;
  })
  unlock
  emit ChannelEvent.unsubscribed (subscription c.name wire.subscription_id)
  signal_done c.unsub_done
  process_operation_queue ws

-- The id of the `i`-th message; `none` is the panic of `itoa`.
unfoldable pub message_id : WireMessage → ℕ → Option Text
message_id wire i =
    if ltb 1 (length wire.messages)
    then elim (itoa i) [ none ↦ none | some digits ↦ some (wire.id ++ codes "-" ++ digits) ]
    else some wire.id

abbrev pub to_message : Text → WireMessage → Text → DataMessagePayload → Message
to_message name wire id p = record {
  action = message;
  error_info = none;
  id = id;
  timestamp = wire.timestamp;
  channel = name;
  alias = p.alias;
  event = p.event;
  payload = p.payload;
}

-- One round of the loop over `wire.Messages`.
unfoldable pub deliver_payload : Text → WireMessage → ℕ → DataMessagePayload → M (Unit {0})
deliver_payload name wire i p = elim (message_id wire i) [
  | none ↦ panic index_out_of_range
  | some id ↦ deliver_message (to_message name wire id p)
]

unfoldable pub deliver_payloads : Text → WireMessage → ℕ → List DataMessagePayload → M (Unit {0})
deliver_payloads name wire i [] = pure tt
deliver_payloads name wire i (p ∷ ps) = do
  deliver_payload name wire i p
  deliver_payloads name wire (suc i) ps

unfoldable pub handle_message : WireMessage → M Reply
handle_message wire = do
  lock
  c ← get
  unlock
  if not c.subscribed
      then pure (returned none)
      else (do deliver_payloads c.name wire 0 wire.messages; pure (returned none))

abbrev pub error_message : Option ErrorInfo → Text
error_message none = codes "channel error"
error_message (some e) = e.message

unfoldable pub handle_error : WireMessage → M Reply
handle_error wire = do
  c ← get
  emit ChannelEvent.failed
      (failure c.name (error_message wire.error_info) (codes "channel_operation"))
  pure (returned none)

-- The `switch`.
unfoldable pub handle_action : MessageSender → ActionType → WireMessage → M Reply
handle_action ws subscribed wire = handle_subscribed ws wire
handle_action ws unsubscribed wire = handle_unsubscribed ws wire
handle_action ws message wire = handle_message wire
handle_action ws error wire = handle_error wire
handle_action ws _ wire = pure (returned none)

unfoldable pub handle_incoming : MessageSender → Option WireMessage → M Reply
handle_incoming ws none = pure (returned none)
handle_incoming ws (some wire) = do
  c ← get
  if not (is_empty wire.channel) && not (same wire.channel c.name)
      then pure (returned none)
      else handle_action ws wire.action wire
