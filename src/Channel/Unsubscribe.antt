-- ===== src/Channel/Unsubscribe.antt =====
-- `Unsubscribe` and `unsubscribeNetwork` of channel/socket.go.
use qpub_go.Prelude.{
  pos, suc, true, false, not, ◌&&◌, ◌||◌, none, some, List, [], ◌∷◌, if◌then◌else◌, is_some,
  le_zero,
}
use qpub_go.Prelude.Text.{codes, is_empty}
use qpub_go.Channel.Types.{
  UnsubscribeOptions, QueuedOperation, MessageSender, Payload, unsubscribing, unsubscribe_frame,
}
use qpub_go.Channel.Monad.{M, pure, ◌>>=◌, ◌>>◌, lock, unlock, get, modify, emit, send}
use qpub_go.Channel.Handlers.{remove_event_handler_locked}
use qpub_go.Channel.Wait.{Reply, returned, waits, ack_timeout, default_timeout}
use qpub_go.Channel.Subscribe.{enqueue}

unfoldable pub unsubscribe_network : MessageSender → UnsubscribeOptions → M Reply
unfolding ack_timeout
unsubscribe_network ws opts = do
  lock
  c ← get
  modify (λ s. record s {
    pending_unsubscribe = true;
    unsub_done = some s.next_done;
    next_done = suc s.next_done;
  })
  unlock
  emit unsubscribing Payload.nil
  e ← send ws (unsubscribe_frame c.name)
  if is_some e
      then (do
        lock
        modify (λ s. record s { pending_unsubscribe = false })
        unlock
        pure (returned e))
      else pure (waits c.next_done (ack_timeout opts.timeout) (codes "unsubscribe"))

-- The optional argument, and the default of its timeout.
unfoldable pub unsubscribe_options : List UnsubscribeOptions → UnsubscribeOptions
unsubscribe_options [] = record { event = []; handler = none; timeout = pos default_timeout }
unsubscribe_options (o ∷ os) =
    if le_zero o.timeout then record o { timeout = pos default_timeout } else o

-- The branch of an event: remove the handler, or queue, or go to the network.
unfoldable pub unsubscribe_event : MessageSender → UnsubscribeOptions → M Reply
unfolding unsubscribe_network remove_event_handler_locked enqueue
unsubscribe_event ws o = do
  c ← get
  if c.subscribed && not c.pending_unsubscribe
      then (let (callbacks, needs_network) = remove_event_handler_locked o.event o.handler c in
          do
            modify (λ s. record s { event_callbacks = callbacks })
            unlock
            if needs_network then unsubscribe_network ws o else pure (returned none))
      else if c.pending_subscribe || c.pending_unsubscribe
      then enqueue (QueuedOperation.unsubscribe o.handler o)
      else (do unlock; unsubscribe_network ws o)

-- The branch of the whole channel.
unfoldable pub unsubscribe_all : MessageSender → UnsubscribeOptions → M Reply
unfolding unsubscribe_network enqueue
unsubscribe_all ws o = do
  c ← get
  if not c.subscribed && not c.pending_subscribe
      then (do unlock; pure (returned none))
      else if c.pending_subscribe || c.pending_unsubscribe
      then enqueue (QueuedOperation.unsubscribe none o)
      else (do unlock; unsubscribe_network ws o)

unfoldable pub unsubscribe : MessageSender → List UnsubscribeOptions → M Reply
unfolding unsubscribe_options unsubscribe_event unsubscribe_all
unsubscribe ws opts =
    let o = unsubscribe_options opts in
    do lock; if not (is_empty o.event) then unsubscribe_event ws o else unsubscribe_all ws o
