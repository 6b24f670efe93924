-- ===== src/Channel/Faults.antt =====
-- The ways in which `Subscribe` of channel/socket.go goes wrong: it waits for its own mutex, there
-- or on the read loop, and it answers with no error while nothing will be sent.
use qpub_go.Prelude.{
  true, false, ◌||◌, Option, none, some, List, [], ◌∷◌, ◌++◌, ◌≡◌, ◌↔◌, ◌∙◌, ap, refl, arith,
}
use qpub_go.Prelude.Text.{is_empty}
use qpub_go.Protocol.Action.{subscribed}
use qpub_go.Protocol.Messages.{WireMessage}
use qpub_go.Channel.Types.{Handler, SubscribeOptions, MessageSender, SocketChannel, QueuedOperation}
use qpub_go.Channel.Monad.{deadlock, ok, fault}
use qpub_go.Channel.Handlers.{has_callback_locked}
use qpub_go.Channel.Wait.{returned}
use qpub_go.Channel.Subscribe.{subscribe}
use qpub_go.Channel.Incoming.{
  run_operation, take_operation, handle_subscribed, handle_action, handle_incoming,
}
use qpub_go.Channel.Calls.{set_pending_subscribe, needs_resubscribe}
use qpub_go.Channel.Invariant.{Inv, LocksTwice}
use qpub_go.Channel.Acks.{
  IsFor, acknowledged, handle_subscribed_lem, process_operation_queue_idle, frame_for,
}

-- Between two calls, `Subscribe` waits for the mutex that it holds exactly when the sender is
-- connected, the options name no event, and the channel is subscribed with no unsubscribe pending.
subscribe_deadlock_iff :
    (ws : MessageSender) (h : Option Handler) (o : SubscribeOptions) (c : SocketChannel)
    → Inv c
    → (subscribe ws h o c ≡ fault deadlock) ↔ LocksTwice ws o c
unfolding subscribe
subscribe_deadlock_iff ws h o c v = ((λ e. ground arith), (λ l. ground arith))

abbrev queued : Option Handler → SubscribeOptions → SocketChannel → SocketChannel
queued h o c = record c {
  mu = false;
  operation_queue = c.operation_queue ++ QueuedOperation.subscribe h o ∷ [];
}

-- The channel as `SetPendingSubscribe(true)` leaves it.
abbrev marked : SocketChannel → SocketChannel
marked c = record c {
  mu = false;
  reconnect_pending = true;
  pending_subscribe = true;
  subscribed = false;
}

subscribe_pending :
    (ws : MessageSender) (h : Option Handler) (o : SubscribeOptions) (c : SocketChannel)
    → Inv c
    → ws.is_connected ≡ true
    → is_empty o.event ≡ true
    → (c.pending_subscribe || c.pending_unsubscribe) ≡ true
    → subscribe ws h o c ≡ ok (returned none) (queued h o c)
unfolding subscribe
subscribe_pending ws h o c v up whole pending = ground arith

queued_deadlock :
    (ws : MessageSender) (wire : WireMessage) (h : Option Handler) (o : SubscribeOptions)
    (ops : List QueuedOperation) (c : SocketChannel)
    → Inv c
    → c.operation_queue ≡ QueuedOperation.subscribe h o ∷ ops
    → LocksTwice ws o (acknowledged wire c)
    → handle_subscribed ws wire c ≡ fault deadlock
unfolding take_operation run_operation
queued_deadlock ws wire h o ops c v queue l =
    handle_subscribed_lem ws wire c v.free
    ∙ process_operation_queue_idle ws (acknowledged wire c) refl refl l.3
    ∙ ap (λ q. take_operation ws q (record (acknowledged wire c) { mu = true })) queue
    ∙ (subscribe_deadlock_iff ws h o (record (acknowledged wire c) { operation_queue = ops })
          (record { free = refl; exclusive = refl; drained = v.drained })).1
        l

-- A catch-all `Subscribe` while another one waits for its acknowledgement, and nothing else is
-- queued or pending, returns no error; the acknowledgement then stops the goroutine that reads it.
pub second_subscribe_deadlocks :
    (ws : MessageSender) (wire : WireMessage) (h : Option Handler) (o : SubscribeOptions)
    (c : SocketChannel)
    → Inv c
    → c.pending_subscribe ≡ true
    → c.pending_unsubscribe ≡ false
    → c.operation_queue ≡ []
    → ws.is_connected ≡ true
    → is_empty o.event ≡ true
    → IsFor wire c
    → wire.action ≡ subscribed
    → (d : SocketChannel) × (subscribe ws h o c ≡ ok (returned none) d)
      × (handle_incoming ws (some wire) d ≡ fault deadlock)
unfolding handle_action
second_subscribe_deadlocks ws wire h o c v pending idle queue up whole here action = (
  queued h o c,
  subscribe_pending ws h o c v up whole (ground arith),
  frame_for ws wire subscribed (queued h o c) here action
      ∙ queued_deadlock ws wire h o [] (queued h o c)
          (record { free = refl; exclusive = v.exclusive; drained = v.drained }) (rw queue)
          (up, whole, refl, idle),
)

-- A channel with no handler that a lost connection has marked: no reconnection subscribes it
-- again, and a catch-all `Subscribe` returns no error but leaves the log as it is, so it sends
-- nothing.
pub subscribe_lost :
    (ws : MessageSender) (h : Option Handler) (o : SubscribeOptions) (c : SocketChannel)
    → Inv c
    → has_callback_locked c ≡ false
    → ws.is_connected ≡ true
    → is_empty o.event ≡ true
    → (d e : SocketChannel) × (set_pending_subscribe true c ≡ ok tt d)
      × (needs_resubscribe d ≡ ok false d)
      × (subscribe ws h o d ≡ ok (returned none) e)
      × (e.log ≡ c.log)
unfolding set_pending_subscribe needs_resubscribe
subscribe_lost ws h o c v bare up whole = (
  marked c,
  queued h o (marked c),
  ground arith,
  ground arith,
  subscribe_pending ws h o (marked c)
      (record { free = refl; exclusive = refl; drained = v.drained }) up whole refl,
  refl,
)
