-- ===== src/Channel/Acks.antt =====
-- The frames SUBSCRIBED and UNSUBSCRIBED, and the queued operation that each of them runs.
use qpub_go.Prelude.{false, true, ◌||◌, none, some, List, [], ◌∷◌, ◌≡◌, refl, arith}
use qpub_go.Prelude.Text.{is_empty, same}
use qpub_go.Protocol.Action.{ActionType}
use qpub_go.Protocol.Messages.{WireMessage}
use qpub_go.Channel.Types.{
  MessageSender, SocketChannel, QueuedOperation, ChannelEvent, emitted, subscription,
}
use qpub_go.Channel.Monad.{Fault, deadlock}
use qpub_go.Channel.Wait.{signalled}
use qpub_go.Channel.Incoming.{
  run_operation, take_operation, process_operation_queue, handle_subscribed, handle_unsubscribed,
  handle_action, handle_incoming,
}
use qpub_go.Channel.Invariant.{
  Inv, Post, Post-weaken, Never, LocksTwice, subscribe-Post, unsubscribe-Post, Inv-unlocked,
}

-- The queue's head is such a subscribe.
abbrev pub HeadLocksTwice : MessageSender → SocketChannel → List QueuedOperation → Type 0
HeadLocksTwice ws c [] = ⊥
HeadLocksTwice ws c (QueuedOperation.subscribe h o ∷ ops) = LocksTwice ws o c
HeadLocksTwice ws c (QueuedOperation.unsubscribe h o ∷ ops) = ⊥

abbrev AtHead : MessageSender → SocketChannel → List QueuedOperation → Fault → Type 0
AtHead ws c ops e = (e ≡ deadlock) × HeadLocksTwice ws c ops

take_operation-Post :
    (ws : MessageSender) (ops : List QueuedOperation) (c : SocketChannel)
    → Inv c
    → Post Inv (AtHead ws c ops) (take_operation ws ops (record c { mu = true }))
unfolding take_operation run_operation
take_operation-Post ws [] c v = Inv-unlocked c v
take_operation-Post ws (QueuedOperation.subscribe h o ∷ ops) c v =
    subscribe-Post ws h o (record c { mu = false; operation_queue = ops })
      (record { free = refl; exclusive = v.exclusive; drained = v.drained })
take_operation-Post ws (QueuedOperation.unsubscribe h o ∷ ops) c v =
    Post-weaken Inv Never (AtHead ws c (QueuedOperation.unsubscribe h o ∷ ops)) _ (λ e. absurd)
      (unsubscribe-Post ws (o ∷ []) (record c { mu = false; operation_queue = ops })
        (record { free = refl; exclusive = v.exclusive; drained = v.drained }))

-- With nothing pending, the head of the queue runs.
pub process_operation_queue_idle :
    (ws : MessageSender) (c : SocketChannel)
    → c.mu ≡ false
    → c.pending_subscribe ≡ false
    → c.pending_unsubscribe ≡ false
    → process_operation_queue ws c ≡ take_operation ws c.operation_queue (record c { mu = true })
unfolding process_operation_queue
process_operation_queue_idle ws c free p q = ground arith

pub process_operation_queue-Post :
    (ws : MessageSender) (c : SocketChannel)
    → Inv c
    → Post Inv (AtHead ws c c.operation_queue) (process_operation_queue ws c)
unfolding process_operation_queue
process_operation_queue-Post ws c v = ground (arith, take_operation-Post ws c.operation_queue c v)

-- A SUBSCRIBED frame never returns if the queue's head is a catch-all subscribe.
abbrev pub SubscribedLocks : MessageSender → SocketChannel → Fault → Type 0
SubscribedLocks ws c e =
    (e ≡ deadlock) × HeadLocksTwice ws (record c { subscribed = true }) c.operation_queue

-- The channel as SUBSCRIBED leaves it to the queue.
abbrev pub acknowledged : WireMessage → SocketChannel → SocketChannel
acknowledged wire c = record c {
  mu = false;
  subscribed = true;
  pending_subscribe = false;
  reconnect_pending = false;
  sub_done = none;
  signals = signalled c.sub_done c.signals;
  log = emitted false ChannelEvent.subscribed (subscription c.name wire.subscription_id) ∷ c.log;
}

pub handle_subscribed_lem :
    (ws : MessageSender) (wire : WireMessage) (c : SocketChannel)
    → c.mu ≡ false
    → handle_subscribed ws wire c ≡ process_operation_queue ws (acknowledged wire c)
unfolding handle_subscribed
handle_subscribed_lem ws wire c free = ground arith

pub handle_subscribed-Post :
    (ws : MessageSender) (wire : WireMessage) (c : SocketChannel)
    → Inv c
    → Post Inv (SubscribedLocks ws c) (handle_subscribed ws wire c)
handle_subscribed-Post ws wire c v = rw (handle_subscribed_lem ws wire c v.free) (
    process_operation_queue-Post ws (acknowledged wire c)
      (record { free = refl; exclusive = refl; drained = v.drained }))

abbrev pub closed : WireMessage → SocketChannel → SocketChannel
closed wire c = record c {
  mu = false;
  subscribed = false;
  pending_unsubscribe = false;
  catch_all_handler = none;
  event_callbacks = [];
  unsub_done = none;
  signals = signalled c.unsub_done c.signals;
  log = emitted false ChannelEvent.unsubscribed (subscription c.name wire.subscription_id) ∷ c.log;
}

pub handle_unsubscribed_lem :
    (ws : MessageSender) (wire : WireMessage) (c : SocketChannel)
    → c.mu ≡ false
    → handle_unsubscribed ws wire c ≡ process_operation_queue ws (closed wire c)
unfolding handle_unsubscribed
handle_unsubscribed_lem ws wire c free = ground arith

not-HeadLocksTwice :
    (ws : MessageSender) (c : SocketChannel) (ops : List QueuedOperation)
    → c.subscribed ≡ false
    → ¬ HeadLocksTwice ws c ops
not-HeadLocksTwice ws c [] e h = h
not-HeadLocksTwice ws c (QueuedOperation.subscribe _ o ∷ ops) e h = ground arith
not-HeadLocksTwice ws c (QueuedOperation.unsubscribe _ o ∷ ops) e h = h

-- After an UNSUBSCRIBED frame the channel is not subscribed, and any operation runs.
pub handle_unsubscribed-Post :
    (ws : MessageSender) (wire : WireMessage) (c : SocketChannel)
    → Inv c
    → Post Inv Never (handle_unsubscribed ws wire c)
handle_unsubscribed-Post ws wire c v = rw (handle_unsubscribed_lem ws wire c v.free) (
    Post-weaken Inv _ Never _
      (λ e h. not-HeadLocksTwice ws (closed wire c) c.operation_queue refl h.1)
      (process_operation_queue-Post ws (closed wire c)
        (record { free = refl; exclusive = refl; drained = v.drained })))

-- The frame is for this channel.
abbrev pub IsFor : WireMessage → SocketChannel → Type 0
IsFor wire c = (is_empty wire.channel || same wire.channel c.name) ≡ true

pub frame_for :
    (ws : MessageSender) (wire : WireMessage) (a : ActionType) (c : SocketChannel)
    → IsFor wire c
    → wire.action ≡ a
    → handle_incoming ws (some wire) c ≡ handle_action ws a wire c
unfolding handle_incoming
frame_for ws wire a c here action = rw (← action) (ground arith)
