-- ===== src/Channel/Subscribe.antt =====
-- `Subscribe`, `subscribeNetwork`, `Resubscribe` and `Publish` of channel/socket.go.
use qpub_go.Prelude.{
  ℕ, suc, pos, Bool, true, false, not, ◌&&◌, ◌||◌, Option, none, some, [], ◌∷◌, ◌++◌, if◌then◌else◌,
  is_nil, is_some,
}
use qpub_go.Prelude.Text.{Text, codes, is_empty}
use qpub_go.Channel.Types.{
  Handler, SubscribeOptions, PublishOptions, QueuedOperation, Error, errors_new, marshal_failed,
  MessageSender, Payload, subscribing, subscribe_frame, publish_frame,
}
use qpub_go.Channel.Monad.{M, pure, ◌>>=◌, ◌>>◌, lock, unlock, get, modify, emit, send}
use qpub_go.Channel.Handlers.{add_event_handler_locked}
use qpub_go.Channel.Wait.{Reply, returned, waits, ack_timeout}

abbrev pub not_connected_subscribe : Error
not_connected_subscribe = errors_new (codes "Cannot subscribe: WebSocket is not connected")

abbrev pub not_connected_publish : Error
not_connected_publish = errors_new (codes "Cannot publish: WebSocket is not connected")

-- `addEventHandler`
unfoldable pub add_event_handler : Text → Option Handler → M (Unit {0})
unfolding add_event_handler_locked
add_event_handler event handler = do
  lock
  modify
      (λ s. record s { event_callbacks = add_event_handler_locked event handler s.event_callbacks })
  unlock

-- `catchAllHandler = handler` and a new map.
abbrev pub set_catch_all : Option Handler → M (Unit {0})
set_catch_all handler = modify (λ s. record s { catch_all_handler = handler; event_callbacks = [] })

-- The end of `subscribeNetwork` and `Resubscribe`: send the frame, and wait for its answer.
unfoldable pub send_subscribe : MessageSender → ℕ → ℕ → M Reply
send_subscribe ws done timeout = do
  emit subscribing Payload.nil
  c ← get
  e ← send ws (subscribe_frame c.name)
  if is_some e
      then (do
        lock
        modify (λ s. record s { pending_subscribe = false })
        unlock
        pure (returned e))
      else pure (waits done timeout (codes "subscribe"))

unfoldable pub subscribe_network :
    MessageSender → Option Handler → SubscribeOptions → Bool → M Reply
unfolding send_subscribe add_event_handler_locked ack_timeout
subscribe_network ws handler opts event_mode = do
  lock
  c ← get
  if event_mode
      then modify (λ s. record s {
        event_callbacks = add_event_handler_locked opts.event handler s.event_callbacks;
      })
      else set_catch_all handler
  modify (λ s. record s {
    pending_subscribe = true;
    sub_done = some s.next_done;
    next_done = suc s.next_done;
  })
  unlock
  send_subscribe ws c.next_done (ack_timeout opts.timeout)

unfoldable pub enqueue : QueuedOperation → M Reply
enqueue op = do
  modify (λ s. record s { operation_queue = s.operation_queue ++ op ∷ [] })
  unlock
  pure (returned none)

unfoldable pub subscribe : MessageSender → Option Handler → SubscribeOptions → M Reply
unfolding subscribe_network add_event_handler enqueue
subscribe ws handler opts =
    if not ws.is_connected then pure (returned (some not_connected_subscribe)) else (do
      lock
      c ← get
      if not (is_empty opts.event)
          then (if c.pending_unsubscribe
              then enqueue (QueuedOperation.subscribe handler opts)
              else if c.subscribed || c.pending_subscribe
              then (do unlock; add_event_handler opts.event handler; pure (returned none))
              else (do unlock; subscribe_network ws handler opts true))
          else (if c.pending_subscribe || c.pending_unsubscribe
              then enqueue (QueuedOperation.subscribe handler opts)
              else if c.subscribed && not c.pending_subscribe
              then (do lock; set_catch_all handler; unlock; pure (returned none))
              else (do unlock; subscribe_network ws handler opts false)))

unfoldable pub resubscribe : MessageSender → M Reply
unfolding send_subscribe ack_timeout
resubscribe ws = do
  lock
  c ← get
  modify
      (λ s. record s { subscribed = false; pending_subscribe = false; pending_unsubscribe = false })
  unlock
  if not (is_some c.catch_all_handler) && is_nil c.event_callbacks
      then pure (returned none)
      else (do
        lock
        d ← get
        modify (λ s. record s {
          catch_all_handler = c.catch_all_handler;
          event_callbacks = c.event_callbacks;
          pending_subscribe = true;
          sub_done = some s.next_done;
          next_done = suc s.next_done;
        })
        unlock
        send_subscribe ws d.next_done (ack_timeout (pos 10_000_000_000)))

-- `data` after `json.Marshal`: `none` where that fails. The second marshal has only texts and the
-- result of the first in it, and does not fail.
unfoldable pub publish : MessageSender → Option Text → PublishOptions → M Reply
publish ws payload opts =
    if not ws.is_connected then pure (returned (some not_connected_publish)) else elim payload [
      | none ↦ pure (returned (some marshal_failed))
      | some bytes ↦ (do
        c ← get
        e ← send ws (
            publish_frame c.name
              (record { alias = opts.alias; event = opts.event; payload = bytes }))
        pure (returned e))
    ]
