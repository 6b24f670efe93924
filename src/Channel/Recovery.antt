-- ===== src/Channel/Recovery.antt =====
-- A channel from the loss of the connection to the answer of the server on the next one
-- (channel/socket.go).
use qpub_go.Prelude.{suc, true, false, none, some, [], ◌∷◌, ◌≡◌, ◌∙◌, refl, arith}
use qpub_go.Prelude.Text.{codes}
use qpub_go.Protocol.Action.{subscribed}
use qpub_go.Protocol.Messages.{WireMessage}
use qpub_go.Channel.Types.{
  MessageSender, SocketChannel, Payload, subscribing, sent, emitted, subscribe_frame,
}
use qpub_go.Channel.Monad.{ok}
use qpub_go.Channel.Handlers.{has_callback_locked}
use qpub_go.Channel.Wait.{returned, waits, default_timeout, signalled, take_signal, acked, wait_ack}
use qpub_go.Channel.Subscribe.{resubscribe}
use qpub_go.Channel.Incoming.{handle_action, handle_incoming}
use qpub_go.Channel.Calls.{set_pending_subscribe, needs_resubscribe}
use qpub_go.Channel.Invariant.{Inv}
use qpub_go.Channel.Acks.{IsFor, acknowledged, handle_subscribed_lem, frame_for}
use qpub_go.Channel.Acknowledge.{run_empty_queue, has_signal-signalled, wait_over}

-- The channel while the connection is down.
abbrev pub lost : SocketChannel → SocketChannel
lost c = record c {
  mu = false;
  reconnect_pending = true;
  pending_subscribe = true;
  subscribed = false;
}

-- The channel while its resubscription waits.
abbrev pub again : SocketChannel → SocketChannel
again c = record c {
  mu = false;
  reconnect_pending = true;
  pending_subscribe = true;
  subscribed = false;
  pending_unsubscribe = false;
  sub_done = some c.next_done;
  next_done = suc c.next_done;
  log = sent (subscribe_frame c.name) ∷ emitted false subscribing Payload.nil ∷ c.log;
}

pub resubscribe_waits :
    (ws : MessageSender) (c : SocketChannel)
    → has_callback_locked c ≡ true
    → ws.send (subscribe_frame c.name) ≡ none
    → resubscribe ws (lost c) ≡ ok (waits c.next_done default_timeout (codes "subscribe")) (again c)
unfolding resubscribe
resubscribe_waits ws c used sends = ground arith

-- The channel that the server has answered, once the wait is over.
abbrev pub resumed : WireMessage → SocketChannel → SocketChannel
resumed wire c = record (acknowledged wire (again c)) {
  signals = take_signal c.next_done (signalled (some c.next_done) c.signals);
}

pub answer_taken :
    (later : MessageSender) (wire : WireMessage) (c : SocketChannel)
    → c.operation_queue ≡ []
    → IsFor wire c
    → wire.action ≡ subscribed
    → handle_incoming later (some wire) (again c) ≡ ok (returned none) (acknowledged wire (again c))
unfolding handle_action
answer_taken later wire c empty here action =
    frame_for later wire subscribed (again c) here action
    ∙ handle_subscribed_lem later wire (again c) refl
    ∙ run_empty_queue later (acknowledged wire (again c)) refl refl refl empty

pub wait_ended :
    (wire : WireMessage) (c : SocketChannel)
    → wait_ack
        (waits c.next_done default_timeout (codes "subscribe"))
        acked
        (acknowledged wire (again c))
      ≡ ok (returned none) (resumed wire c)
wait_ended wire c =
    wait_over c.next_done default_timeout (codes "subscribe") (acknowledged wire (again c))
      (has_signal-signalled c.next_done c.signals)

-- A channel with a handler and an empty queue comes back: the loss of the connection marks it, the
-- next connection finds the mark and resubscribes, over a sender that takes the frame, and the answer
-- SUBSCRIBED makes the channel subscribed with the handlers that it had, takes the mark away, and
-- ends the wait without an error.
pub recovers :
    (ws later : MessageSender) (wire : WireMessage) (c : SocketChannel)
    → Inv c
    → has_callback_locked c ≡ true
    → c.operation_queue ≡ []
    → ws.send (subscribe_frame c.name) ≡ none
    → IsFor wire c
    → wire.action ≡ subscribed
    → let r = waits c.next_done default_timeout (codes "subscribe") in
      (a d e f : SocketChannel) × (set_pending_subscribe true c ≡ ok tt a)
      × (needs_resubscribe a ≡ ok true a)
      × (resubscribe ws a ≡ ok r d)
      × (handle_incoming later (some wire) d ≡ ok (returned none) e)
      × (e.subscribed ≡ true)
      × (e.reconnect_pending ≡ false)
      × (e.event_callbacks ≡ c.event_callbacks)
      × (e.catch_all_handler ≡ c.catch_all_handler)
      × (wait_ack r acked e ≡ ok (returned none) f)
unfolding set_pending_subscribe needs_resubscribe
recovers ws later wire c v used empty sends here action = (
  lost c,
  again c,
  acknowledged wire (again c),
  resumed wire c,
  ground (arith, v.free),
  ground (arith, used),
  resubscribe_waits ws c used sends,
  answer_taken later wire c empty here action,
  refl,
  refl,
  refl,
  refl,
  wait_ended wire c,
)
