-- ===== src/Channel/Monad.antt =====
-- The statements that the methods of channel/socket.go are made of: the mutex of Go's `sync`, which
-- is not reentrant, reads and writes of the receiver's fields, events, frames and handler calls.
use qpub_go.Prelude.{true, false, Option, ◌∷◌, if◌then◌else◌}
use qpub_go.Protocol.Messages.{Message}
use qpub_go.Channel.Types.{
  SocketChannel, Handler, Frame, Error, MessageSender, ChannelEvent, Payload, sent, emitted,
  invoked,
}

-- A goroutine that locks a mutex it holds waits for ever; unlocking a free mutex and an index out
-- of range end the program.
pub data Fault : Type 0 where
  deadlock unlock_of_unlocked index_out_of_range : Fault

pub data Outcome (A : Type 0) : Type 0 where
  ok : A → SocketChannel → Outcome A
  fault : Fault → Outcome A

abbrev pub M : Type 0 → Type 0
M A = SocketChannel → Outcome A

abbrev pub pure : {A : Type 0} → A → M A
pure a c = ok a c

abbrev pub bind : {A B : Type 0} → Outcome A → (A → M B) → Outcome B
bind (ok a c) f = f a c
bind (fault e) f = fault e

infixl 5 ◌>>=◌ ◌>>◌
abbrev pub ◌>>=◌ : {A B : Type 0} → M A → (A → M B) → M B
◌>>=◌ m f c = bind (m c) f

abbrev pub ◌>>◌ : {B : Type 0} → M (Unit {0}) → M B → M B
◌>>◌ m k c = bind (m c) (λ _. k)

abbrev pub panic : {A : Type 0} → Fault → M A
panic e c = fault e

-- `c.mu.Lock()`
abbrev pub lock : M (Unit {0})
lock c = if c.mu then fault deadlock else ok tt (record c { mu = true })

-- `c.mu.Unlock()`
abbrev pub unlock : M (Unit {0})
unlock c = if c.mu then ok tt (record c { mu = false }) else fault unlock_of_unlocked

-- Reads of the receiver's fields, and an assignment to some of them.
abbrev pub get : M SocketChannel
get c = ok c c

abbrev pub modify : (SocketChannel → SocketChannel) → M (Unit {0})
modify f c = ok tt (f c)

-- `c.events.Emit(event, payload)`: the listeners run at once, under the mutex if it is held.
abbrev pub emit : ChannelEvent → Payload → M (Unit {0})
emit e p c = ok tt (record c { log = emitted c.mu e p ∷ c.log })

-- `c.ws.Send(b)`
abbrev pub send : MessageSender → Frame → M (Option Error)
send ws f c = ok (ws.send f) (record c { log = sent f ∷ c.log })

-- `h(m)`
abbrev pub call : Handler → Message → M (Unit {0})
call h m c = ok tt (record c { log = invoked h m ∷ c.log })
