-- ===== src/Channel/Acknowledge.antt =====
-- A subscribe and an unsubscribe from the call to the answer of the server (channel/socket.go).
use qpub_go.Prelude.{
  ℕ, suc, true, false, Option, none, some, List, [], ◌∷◌, ◌≡◌, ◌∙◌, ap, refl, arith, if◌then◌else◌,
}
use qpub_go.Prelude.Text.{Text, codes, is_empty}
use qpub_go.Protocol.Action.{subscribed, unsubscribed}
use qpub_go.Protocol.Messages.{WireMessage}
use qpub_go.Channel.Types.{
  Handler, SubscribeOptions, MessageSender, SocketChannel, Payload, subscribing, sent, emitted,
  subscribe_frame, unsubscribe_frame, unsubscribing,
}
use qpub_go.Channel.Monad.{ok}
use qpub_go.Channel.Handlers.{Callbacks, add_event_handler_locked, has_callback_locked}
use qpub_go.Channel.Wait.{
  returned, waits, default_timeout, ack_timeout, has_signal, signalled, take_signal, acked,
  wait_ack,
}
use qpub_go.Channel.Subscribe.{subscribe}
use qpub_go.Channel.Unsubscribe.{unsubscribe}
use qpub_go.Channel.Incoming.{
  take_operation, process_operation_queue, handle_action, handle_incoming,
}
use qpub_go.Channel.Invariant.{Inv}
use qpub_go.Channel.Acks.{
  IsFor, acknowledged, closed, handle_subscribed_lem, handle_unsubscribed_lem,
  process_operation_queue_idle, frame_for,
}

-- The handlers that a first subscribe puts in place.
abbrev new_callbacks : Option Handler → SubscribeOptions → SocketChannel → Callbacks
new_callbacks h o c =
    if is_empty o.event then [] else add_event_handler_locked o.event h c.event_callbacks

abbrev new_catch_all : Option Handler → SubscribeOptions → SocketChannel → Option Handler
new_catch_all h o c = if is_empty o.event then h else c.catch_all_handler

-- The channel while such a subscribe waits.
abbrev waiting : Option Handler → SubscribeOptions → SocketChannel → SocketChannel
waiting h o c = record c {
  mu = false;
  pending_subscribe = true;
  event_callbacks = new_callbacks h o c;
  catch_all_handler = new_catch_all h o c;
  sub_done = some c.next_done;
  next_done = suc c.next_done;
  log = sent (subscribe_frame c.name) ∷ emitted false subscribing Payload.nil ∷ c.log;
}

subscribe_waits :
    (ws : MessageSender) (h : Option Handler) (o : SubscribeOptions) (c : SocketChannel)
    → Inv c
    → ws.is_connected ≡ true
    → ws.send (subscribe_frame c.name) ≡ none
    → c.subscribed ≡ false
    → c.pending_subscribe ≡ false
    → c.pending_unsubscribe ≡ false
    → subscribe ws h o c
      ≡ ok (waits c.next_done (ack_timeout o.timeout) (codes "subscribe")) (waiting h o c)
unfolding subscribe
subscribe_waits ws h o c v up sends out p q = ground arith

-- The end of `HandleIncoming` with an empty queue.
pub run_empty_queue :
    (ws : MessageSender) (c : SocketChannel)
    → c.mu ≡ false
    → c.pending_subscribe ≡ false
    → c.pending_unsubscribe ≡ false
    → c.operation_queue ≡ []
    → process_operation_queue ws c ≡ ok (returned none) c
unfolding take_operation process_operation_queue
run_empty_queue ws c free p q empty =
    process_operation_queue_idle ws c free p q
    ∙ ap (λ ops. take_operation ws ops (record c { mu = true })) empty
    ∙ ground arith

pub has_signal-signalled : (d : ℕ) (es : List ℕ) → has_signal d (signalled (some d) es) ≡ true
unfolding has_signal signalled
has_signal-signalled d es = ground arith

pub wait_over :
    (d t : ℕ) (op : Text) (c : SocketChannel)
    → has_signal d c.signals ≡ true
    → wait_ack (waits d t op) acked c
      ≡ ok (returned none) (record c { signals = take_signal d c.signals })
unfolding wait_ack
wait_over d t op c e = ground arith

wait_goes_on :
    (d t : ℕ) (op : Text) (c : SocketChannel)
    → has_signal d c.signals ≡ false
    → wait_ack (waits d t op) acked c ≡ ok (waits d t op) c
unfolding wait_ack
wait_goes_on d t op c e = ground arith

-- The first `Subscribe` of a channel with nothing pending or queued, over a sender that takes its
-- frame: it sends one SUBSCRIBE frame and waits, and a look at its `done` channel, if that is
-- fresh, finds nothing. The answer SUBSCRIBED makes the channel subscribed with the handler in
-- place, and then the call returns no error.
pub subscribe_acked :
    (ws later : MessageSender) (wire : WireMessage) (h : Option Handler) (o : SubscribeOptions)
    (c : SocketChannel)
    → Inv c
    → ws.is_connected ≡ true
    → ws.send (subscribe_frame c.name) ≡ none
    → c.subscribed ≡ false
    → c.pending_subscribe ≡ false
    → c.pending_unsubscribe ≡ false
    → c.operation_queue ≡ []
    → has_signal c.next_done c.signals ≡ false
    → IsFor wire c
    → wire.action ≡ subscribed
    → let r = waits c.next_done (ack_timeout o.timeout) (codes "subscribe") in
      (d e f : SocketChannel) × (subscribe ws h o c ≡ ok r d)
      × (d.log ≡ sent (subscribe_frame c.name) ∷ emitted false subscribing Payload.nil ∷ c.log)
      × (wait_ack r acked d ≡ ok r d)
      × (handle_incoming later (some wire) d ≡ ok (returned none) e)
      × (e.subscribed ≡ true)
      × (e.event_callbacks
          ≡ (if is_empty o.event then [] else add_event_handler_locked o.event h c.event_callbacks))
      × (e.catch_all_handler ≡ (if is_empty o.event then h else c.catch_all_handler))
      × (wait_ack r acked e ≡ ok (returned none) f)
unfolding handle_action
subscribe_acked ws later wire h o c v up sends out p q empty fresh here action = (
  waiting h o c,
  acknowledged wire (waiting h o c),
  record (acknowledged wire (waiting h o c)) {
    signals = take_signal c.next_done (signalled (some c.next_done) c.signals);
  },
  subscribe_waits ws h o c v up sends out p q,
  refl,
  wait_goes_on c.next_done _ _ (waiting h o c) fresh,
  frame_for later wire subscribed (waiting h o c) here action
      ∙ handle_subscribed_lem later wire (waiting h o c) refl
      ∙ run_empty_queue later (acknowledged wire (waiting h o c)) refl refl q empty,
  refl,
  refl,
  refl,
  wait_over c.next_done _ _ (acknowledged wire (waiting h o c))
      (has_signal-signalled c.next_done c.signals),
)

-- The channel while an `Unsubscribe` waits.
abbrev leaving : SocketChannel → SocketChannel
leaving c = record c {
  mu = false;
  pending_unsubscribe = true;
  unsub_done = some c.next_done;
  next_done = suc c.next_done;
  log = sent (unsubscribe_frame c.name) ∷ emitted false unsubscribing Payload.nil ∷ c.log;
}

unsubscribe_waits :
    (ws : MessageSender) (c : SocketChannel)
    → Inv c
    → ws.send (unsubscribe_frame c.name) ≡ none
    → c.subscribed ≡ true
    → c.pending_unsubscribe ≡ false
    → unsubscribe ws [] c ≡ ok (waits c.next_done default_timeout (codes "unsubscribe")) (leaving c)
unfolding unsubscribe
unsubscribe_waits ws c v sends inside q = ground arith

-- `Unsubscribe` with no argument on a subscribed channel with nothing pending or queued, over a
-- sender that takes its frame: it sends one UNSUBSCRIBE frame and waits for ten seconds at most.
-- The answer UNSUBSCRIBED leaves the channel not subscribed and without any handler, and then the
-- call returns no error.
pub unsubscribe_acked :
    (ws later : MessageSender) (wire : WireMessage) (c : SocketChannel)
    → Inv c
    → ws.send (unsubscribe_frame c.name) ≡ none
    → c.subscribed ≡ true
    → c.pending_unsubscribe ≡ false
    → c.operation_queue ≡ []
    → IsFor wire c
    → wire.action ≡ unsubscribed
    → let r = waits c.next_done 10_000_000_000 (codes "unsubscribe") in
      (d e f : SocketChannel) × (unsubscribe ws [] c ≡ ok r d)
      × (d.log ≡ sent (unsubscribe_frame c.name) ∷ emitted false unsubscribing Payload.nil ∷ c.log)
      × (handle_incoming later (some wire) d ≡ ok (returned none) e)
      × (e.subscribed ≡ false)
      × (has_callback_locked e ≡ false)
      × (wait_ack r acked e ≡ ok (returned none) f)
unfolding handle_action
unsubscribe_acked ws later wire c v sends inside q empty here action = (
  leaving c,
  closed wire (leaving c),
  record (closed wire (leaving c)) {
    signals = take_signal c.next_done (signalled (some c.next_done) c.signals);
  },
  unsubscribe_waits ws c v sends inside q,
  refl,
  frame_for later wire unsubscribed (leaving c) here action
      ∙ handle_unsubscribed_lem later wire (leaving c) refl
      ∙ run_empty_queue later (closed wire (leaving c)) refl (ground arith) refl empty,
  refl,
  refl,
  wait_over c.next_done _ _ (closed wire (leaving c)) (has_signal-signalled c.next_done c.signals),
)
