-- ===== src/Channel/Invariant.antt =====
-- What holds of a socket channel between two calls, and which calls never return.
use qpub_go.Prelude.{true, false, ◌&&◌, Option, List, [], ◌∷◌, ◌≡◌, ◌⊎◌, refl, arith}
use qpub_go.Prelude.Text.{is_empty}
use qpub_go.Channel.Types.{
  Handler, SubscribeOptions, UnsubscribeOptions, MessageSender, SocketChannel,
}
use qpub_go.Channel.Monad.{Fault, deadlock, Outcome, ok, fault, M, bind}
use qpub_go.Channel.Subscribe.{subscribe, resubscribe}
use qpub_go.Channel.Unsubscribe.{unsubscribe}

pub record Inv (c : SocketChannel) : Type 0 where
  pub free : c.mu ≡ false
  pub exclusive : (c.subscribed && c.pending_subscribe) ≡ false
  pub drained : (c.paused ≡ true) ⊎ (c.paused_messages ≡ [])

-- The invariant, unless a call that never returns holds the mutex.
abbrev pub Calm : SocketChannel → Type 0
Calm c = c.mu ≡ false → Inv c

-- A call that returns leaves a channel in `P`; one that does not ends in a fault in `Q`.
abbrev pub Post : {A : Type 0} → (SocketChannel → Type 0) → (Fault → Type 0) → Outcome A → Type 0
Post P Q (ok a c) = P c
Post P Q (fault e) = Q e

pub Post-bind :
    {A B : Type 0} (P R : SocketChannel → Type 0) (Q : Fault → Type 0) (m : Outcome A) (f : A → M B)
    → Post P Q m
    → ((a : A) (d : SocketChannel) → P d → Post R Q (f a d))
    → Post R Q (bind m f)
Post-bind P R Q (ok a c) f h k = k a c h
Post-bind P R Q (fault e) f h k = h

pub Post-weaken :
    {A : Type 0} (P : SocketChannel → Type 0) (Q R : Fault → Type 0) (m : Outcome A)
    → ((e : Fault) → Q e → R e)
    → Post P Q m
    → Post P R m
Post-weaken P Q R (ok a c) k h = h
Post-weaken P Q R (fault e) k h = k e h

abbrev pub Never : Fault → Type 0
Never e = ⊥

-- A catch-all subscribe on a channel that is subscribed, with nothing pending.
abbrev pub LocksTwice : MessageSender → SubscribeOptions → SocketChannel → Type 0
LocksTwice ws o c =
    (ws.is_connected ≡ true)
    × (is_empty o.event ≡ true)
    × (c.subscribed ≡ true)
    × (c.pending_unsubscribe ≡ false)

pub subscribe-Post :
    (ws : MessageSender) (h : Option Handler) (o : SubscribeOptions) (c : SocketChannel)
    → Inv c
    → Post Inv (λ e. (e ≡ deadlock) × LocksTwice ws o c) (subscribe ws h o c)
unfolding subscribe
subscribe-Post ws h o c v = ground arith

pub unsubscribe-Post :
    (ws : MessageSender) (os : List UnsubscribeOptions) (c : SocketChannel)
    → Inv c
    → Post Inv Never (unsubscribe ws os c)
unfolding unsubscribe
unsubscribe-Post ws [] c v = ground arith
unsubscribe-Post ws (o ∷ os) c v = ground arith

pub resubscribe-Post :
    (ws : MessageSender) (c : SocketChannel) → Inv c → Post Inv Never (resubscribe ws c)
unfolding resubscribe
resubscribe-Post ws c v = ground arith

-- The mutex changes nothing else.
pub Inv-unlocked : (c : SocketChannel) → Inv c → Inv (record c { mu = false })
Inv-unlocked c v = record { free = refl; exclusive = v.exclusive; drained = v.drained }
