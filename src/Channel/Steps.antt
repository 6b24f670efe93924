-- ===== src/Channel/Steps.antt =====
-- Every method keeps the invariant, and returns except for two faults.
use qpub_go.Prelude.{
  ℕ, suc, ◌+◌, ◌<◌, ◌^◌, true, false, Option, none, some, List, [], ◌∷◌, ◌≡◌, inl, inr, refl, arith,
  length, ltb, Option-cases, Bool-cases,
}
use qpub_go.Prelude.Text.{Text}
use qpub_go.Protocol.Action.{ActionType, subscribed, unsubscribed, message, error}
use qpub_go.Protocol.Messages.{Message, WireMessage, DataMessagePayload}
use qpub_go.Channel.Types.{Handler, MessageSender, SocketChannel, Payload, resumed, emitted}
use qpub_go.Channel.Monad.{Fault, deadlock, index_out_of_range}
use qpub_go.Channel.Itoa.{itoa_total}
use qpub_go.Channel.Delivery.{
  invoke_handler, invoke_all, event_handlers, route, deliver_message, deliver_all, pause, resume,
  clear_buffered_messages,
}
use qpub_go.Channel.Wait.{Reply, returned, waits, Wake, ended, acked, wait_ack}
use qpub_go.Channel.Subscribe.{publish}
use qpub_go.Channel.Incoming.{
  message_id, deliver_payload, deliver_payloads, handle_message, handle_error, handle_action,
  handle_incoming, to_message,
}
use qpub_go.Channel.Calls.{
  Call, subscribes, unsubscribes, resubscribes, publishes, receives, wakes, pauses, resumes, clears,
  resets, marks_pending, step, reset, set_pending_subscribe,
}
use qpub_go.Channel.Invariant.{
  Inv, Post, Post-bind, Post-weaken, Never, LocksTwice, subscribe-Post, unsubscribe-Post,
  resubscribe-Post, Inv-unlocked,
}
use qpub_go.Channel.Acks.{SubscribedLocks, handle_subscribed-Post, handle_unsubscribed-Post}

invoke_all-Post :
    (hs : List (Option Handler)) (m : Message) (c : SocketChannel)
    → Inv c
    → Post Inv Never (invoke_all hs m c)
unfolding invoke_all invoke_handler
invoke_all-Post [] m c v = v
invoke_all-Post (none ∷ hs) m c v = invoke_all-Post hs m c v
invoke_all-Post (some h ∷ hs) m c v = invoke_all-Post hs m _ (ground arith)

route-Post :
    (hs : List (Option Handler)) (h : Option Handler) (m : Message) (c : SocketChannel)
    → Inv c
    → Post Inv Never (route hs h m c)
unfolding route invoke_handler
route-Post [] none m c v = v
route-Post [] (some h) m c v = ground arith
route-Post (x ∷ hs) h m c v = invoke_all-Post (x ∷ hs) m c v

deliver_message-Post :
    (m : Message) (c : SocketChannel) → Inv c → Post Inv Never (deliver_message m c)
unfolding deliver_message
deliver_message-Post m c v = ground (
  arith,
  route-Post (event_handlers m.event c.event_callbacks) c.catch_all_handler m
      (record c { mu = false }) (Inv-unlocked c v),
)

deliver_all-Post :
    (ms : List Message) (c : SocketChannel) → Inv c → Post Inv Never (deliver_all ms c)
unfolding deliver_all
deliver_all-Post [] c v = v
deliver_all-Post (m ∷ ms) c v =
    Post-bind Inv Inv Never (deliver_message m c) _ (deliver_message-Post m c v)
      (λ _ d w. deliver_all-Post ms d w)

-- A batch of more than 10^8 messages is beyond `itoa`.
abbrev pub TooMany : ℕ → Fault → Type 0
TooMany n e = (e ≡ index_out_of_range) × (10 ^ 8 < n)

message_id-none : (wire : WireMessage) (i : ℕ) → message_id wire i ≡ none → 10 ^ 8 < suc i
unfolding message_id
message_id-none wire i h = elim (Bool-cases (ltb i (10 ^ 8))) [
  | inl small ↦ let (s, e, _) = itoa_total i (ground arith) in absurd (ground (arith, e))
  | inr large ↦ ground arith
]

deliver_payload-Post :
    (name : Text) (wire : WireMessage) (i : ℕ) (p : DataMessagePayload) (c : SocketChannel)
    → Inv c
    → Post Inv (TooMany (suc i)) (deliver_payload name wire i p c)
unfolding deliver_payload
deliver_payload-Post name wire i p c v = elim (Option-cases (message_id wire i)) [
  | inl e ↦ rw (e, deliver_payload) (refl, message_id-none wire i e)
  | inr (id, e) ↦
      rw (e, deliver_payload)
        (Post-weaken Inv Never (TooMany (suc i)) _ (λ _. absurd)
          (deliver_message-Post (to_message name wire id p) c v))
]

deliver_payloads-Post :
    (name : Text) (wire : WireMessage) (i : ℕ) (ps : List DataMessagePayload) (c : SocketChannel)
    → Inv c
    → Post Inv (TooMany (i + length ps)) (deliver_payloads name wire i ps c)
unfolding deliver_payloads
deliver_payloads-Post name wire i [] c v = v
deliver_payloads-Post name wire i (p ∷ ps) c v =
    Post-bind Inv Inv (TooMany (i + length (p ∷ ps))) (deliver_payload name wire i p c) _
      (Post-weaken Inv (TooMany (suc i)) (TooMany (i + length (p ∷ ps))) _
        (λ e h. (h.0, omega arith)) (deliver_payload-Post name wire i p c v))
      (λ _ d w.
        Post-weaken Inv (TooMany (suc i + length ps)) (TooMany (i + length (p ∷ ps))) _
          (λ e h. (h.0, omega arith)) (deliver_payloads-Post name wire (suc i) ps d w))

handle_message-Post :
    (wire : WireMessage) (c : SocketChannel)
    → Inv c
    → Post Inv (TooMany (length wire.messages)) (handle_message wire c)
unfolding handle_message
handle_message-Post wire c v = ground (
  arith,
  deliver_payloads-Post c.name wire 0 wire.messages (record c { mu = false }) (Inv-unlocked c v),
)

-- What can go wrong in a frame with the given action.
abbrev pub FrameFaults : MessageSender → ActionType → WireMessage → SocketChannel → Fault → Type 0
FrameFaults ws subscribed wire c e = SubscribedLocks ws c e
FrameFaults ws message wire c e = TooMany (length wire.messages) e
FrameFaults ws _ wire c e = ⊥

handle_action-Post :
    (ws : MessageSender) (a : ActionType) (wire : WireMessage) (c : SocketChannel)
    → Inv c
    → Post Inv (FrameFaults ws a wire c) (handle_action ws a wire c)
unfolding handle_action handle_error
handle_action-Post ws subscribed wire c v = handle_subscribed-Post ws wire c v
handle_action-Post ws unsubscribed wire c v = handle_unsubscribed-Post ws wire c v
handle_action-Post ws message wire c v = handle_message-Post wire c v
handle_action-Post ws error wire c v = ground arith
handle_action-Post ws _ wire c v = v

handle_incoming-Post :
    (ws : MessageSender) (wire : WireMessage) (c : SocketChannel)
    → Inv c
    → Post Inv (FrameFaults ws wire.action wire c) (handle_incoming ws (some wire) c)
unfolding handle_incoming
handle_incoming-Post ws wire c v = ground (arith, handle_action-Post ws wire.action wire c v)

-- The channel as `Resume` leaves it to the deliveries.
abbrev pub resuming : SocketChannel → SocketChannel
resuming c = record c {
  mu = false;
  paused = false;
  paused_messages = [];
  log = emitted false resumed Payload.nil ∷ c.log;
}

pub resume_lem :
    (c : SocketChannel) → c.mu ≡ false → resume c ≡ deliver_all c.paused_messages (resuming c)
unfolding resume
resume_lem c free = ground arith

resume-Post : (c : SocketChannel) → Inv c → Post Inv Never (resume c)
resume-Post c v = rw (resume_lem c v.free) (
    deliver_all-Post c.paused_messages (resuming c)
      (record { free = refl; exclusive = v.exclusive; drained = inr refl }))

wait_ack-Post : (r : Reply) (w : Wake) (c : SocketChannel) → Inv c → Post Inv Never (wait_ack r w c)
unfolding wait_ack
wait_ack-Post (returned e) w c v = v
wait_ack-Post (waits d t op) (ended cause) c v = v
wait_ack-Post (waits d t op) acked c v = ground arith

-- The faults of a call: a catch-all subscribe on a subscribed channel, also one that a frame
-- SUBSCRIBED takes from the queue, and a frame of more than 10^8 messages.
abbrev pub CallFaults : MessageSender → Call → SocketChannel → Fault → Type 0
CallFaults ws (subscribes h o) c e = (e ≡ deadlock) × LocksTwice ws o c
CallFaults ws (receives (some wire)) c e = FrameFaults ws wire.action wire c e
CallFaults ws _ c e = ⊥

-- Every method leaves the mutex free, never has the channel subscribed with a subscribe pending,
-- and keeps no message once the channel is not paused. It returns unless `CallFaults` holds.
pub step-Post :
    (ws : MessageSender) (call : Call) (c : SocketChannel)
    → Inv c
    → Post Inv (CallFaults ws call c) (step ws call c)
unfolding step
step-Post ws (subscribes h o) c v = subscribe-Post ws h o c v
step-Post ws (unsubscribes os) c v = unsubscribe-Post ws os c v
step-Post ws resubscribes c v = resubscribe-Post ws c v
step-Post ws (publishes none o) c v = unfold publish in ground arith
step-Post ws (publishes (some b) o) c v = unfold publish in ground arith
step-Post ws (receives none) c v = unfold handle_incoming in v
step-Post ws (receives (some wire)) c v = handle_incoming-Post ws wire c v
step-Post ws (wakes r w) c v = wait_ack-Post r w c v
step-Post ws (pauses b) c v = unfold pause in ground arith
step-Post ws resumes c v = ground (arith, resume-Post c v)
step-Post ws clears c v = unfold clear_buffered_messages in ground arith
step-Post ws resets c v = unfold reset in ground arith
step-Post ws (marks_pending true) c v = unfold set_pending_subscribe in ground arith
step-Post ws (marks_pending false) c v = unfold set_pending_subscribe in ground arith
