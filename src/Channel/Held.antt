-- ===== src/Channel/Held.antt =====
-- A channel of channel/socket.go whose mutex is held by a call that never returns.
use qpub_go.Prelude.Text.{Text}
use qpub_go.Prelude.{◌&&◌, ◌⊎◌, true, false, none, some, [], ◌∷◌, ◌≡◌, arith, Bool-cases, inl, inr}
use qpub_go.Protocol.Action.{ActionType, subscribed, unsubscribed, message, error}
use qpub_go.Protocol.Messages.{WireMessage}
use qpub_go.Channel.Types.{MessageSender, SocketChannel}
use qpub_go.Channel.Monad.{Fault, deadlock, ok, fault, Outcome}
use qpub_go.Channel.Delivery.{pause, resume, clear_buffered_messages}
use qpub_go.Channel.Wait.{Reply, returned, waits, ended, acked, wait_ack}
use qpub_go.Channel.Subscribe.{subscribe, resubscribe, publish}
use qpub_go.Channel.Unsubscribe.{unsubscribe}
use qpub_go.Channel.Incoming.{
  handle_message, handle_error, handle_subscribed, handle_unsubscribed, handle_action,
  handle_incoming,
}
use qpub_go.Channel.Calls.{
  Call, subscribes, unsubscribes, resubscribes, publishes, receives, wakes, pauses, resumes, clears,
  resets, marks_pending, step, reset, set_pending_subscribe, new_socket_channel,
}
use qpub_go.Channel.Invariant.{Inv, Calm, Post}
use qpub_go.Channel.Steps.{CallFaults, step-Post}

abbrev pub IsHeld : SocketChannel → Type 0
IsHeld c = c.mu ≡ true

abbrev Stuck : {A : Type 0} → Outcome A → Type 0
Stuck = Post IsHeld (λ e. e ≡ deadlock)

handle_action-Stuck :
    (ws : MessageSender) (a : ActionType) (wire : WireMessage) (c : SocketChannel)
    → IsHeld c
    → Stuck (handle_action ws a wire c)
unfolding handle_action handle_error handle_message handle_subscribed handle_unsubscribed
handle_action-Stuck ws subscribed wire c h = ground arith
handle_action-Stuck ws unsubscribed wire c h = ground arith
handle_action-Stuck ws message wire c h = ground arith
handle_action-Stuck ws error wire c h = ground arith
handle_action-Stuck ws _ wire c h = h

-- A call on such a channel waits for ever, too, or does not ask for the mutex: it stays held.
step-Stuck :
    (ws : MessageSender) (call : Call) (c : SocketChannel) → IsHeld c → Stuck (step ws call c)
unfolding step
step-Stuck ws (subscribes h o) c v = unfold subscribe in ground arith
step-Stuck ws (unsubscribes []) c v = unfold unsubscribe in ground arith
step-Stuck ws (unsubscribes (o ∷ os)) c v = unfold unsubscribe in ground arith
step-Stuck ws resubscribes c v = unfold resubscribe in ground arith
step-Stuck ws (publishes none o) c v = unfold publish in ground arith
step-Stuck ws (publishes (some b) o) c v = unfold publish in ground arith
step-Stuck ws (receives none) c v = unfold handle_incoming in v
step-Stuck ws (receives (some wire)) c v =
    unfold handle_incoming in ground (arith, handle_action-Stuck ws wire.action wire c v)
step-Stuck ws (wakes (returned e) w) c v = unfold wait_ack in v
step-Stuck ws (wakes (waits d t op) (ended cause)) c v = unfold wait_ack in v
step-Stuck ws (wakes (waits d t op) acked) c v = unfold wait_ack in ground arith
step-Stuck ws (pauses b) c v = unfold pause in ground arith
step-Stuck ws resumes c v = unfold resume in ground arith
step-Stuck ws clears c v = unfold clear_buffered_messages in ground arith
step-Stuck ws resets c v = unfold reset in ground arith
step-Stuck ws (marks_pending b) c v = unfold set_pending_subscribe in ground arith

Stuck-Calm : {A : Type 0} (o : Outcome A) → Stuck o → Post Calm (λ e. Unit) o
Stuck-Calm (ok a c) h = λ free. absurd (ground arith)
Stuck-Calm (fault e) h = tt

Inv-Calm :
    {A : Type 0} (Q : Fault → Type 0) (o : Outcome A) → Post Inv Q o → Post Calm (λ e. Unit) o
Inv-Calm Q (ok a c) h = λ free. h
Inv-Calm Q (fault e) h = tt

-- A call keeps what holds of a channel that no call holds, and of one that a call holds.
pub step-Calm :
    (ws : MessageSender) (call : Call) (c : SocketChannel)
    → Calm c
    → Post Calm (λ e. Unit) (step ws call c)
step-Calm ws call c calm = elim (Bool-cases c.mu) [
  | inl held ↦ Stuck-Calm (step ws call c) (step-Stuck ws call c held)
  | inr free ↦ Inv-Calm (CallFaults ws call c) (step ws call c) (step-Post ws call c (calm free))
]

-- What has happened to a channel, with the sender as each call met it: calls that returned, and calls
-- that wait for the mutex for ever. Such a call leaves it held, and the rest of the channel in any state.
pub data Reach (c : SocketChannel) : SocketChannel → Type 0 where
  here : Reach c c
  next :
      {d e : SocketChannel}
      → Reach c d
      → (ws : MessageSender) (call : Call) (r : Reply) → step ws call d ≡ ok r e
      → Reach c e
  hangs :
      {d : SocketChannel} (e : SocketChannel)
      → Reach c d
      → (ws : MessageSender) (call : Call) → step ws call d ≡ fault deadlock
      → IsHeld e
      → Reach c e

Reach-Calm : (name : Text) {c : SocketChannel} → Reach (new_socket_channel name) c → Calm c
unfolding new_socket_channel
Reach-Calm name here = λ free. ground arith
Reach-Calm name (next {d} {e} r ws call reply returns) =
    rw returns at (step-Calm ws call d (Reach-Calm name r))
Reach-Calm name (hangs e r ws call waits_on held) = λ free. absurd (ground arith)

-- After any history of a new channel, calls that never return included, either the mutex is held, and no
-- later call lets go of it; or the mutex is free, the channel is not at once subscribed and pending to be
-- subscribed, and unless it is paused it has no message buffered.
pub Reach-Inv :
    (name : Text) {c : SocketChannel}
    → Reach (new_socket_channel name) c
    → (IsHeld c
        × ((ws : MessageSender) (call : Call) (r : Reply) (d : SocketChannel)
            → step ws call c ≡ ok r d
            → IsHeld d))
      ⊎ ((c.mu ≡ false)
          × ((c.subscribed && c.pending_subscribe) ≡ false)
          × (c.paused ≡ false → c.paused_messages ≡ []))
Reach-Inv name {c} r = elim (Bool-cases c.mu) [
  | inl held ↦ inl (held, λ ws call r d e. rw e at (step-Stuck ws call c held))
  | inr free ↦
      let v = Reach-Calm name r free in
      let drained = v.drained in inr (free, v.exclusive, λ going. ground arith)
]
