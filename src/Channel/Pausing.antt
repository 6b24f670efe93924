-- ===== src/Channel/Pausing.antt =====
-- `Pause` and `Resume` of channel/socket.go.
use mathlib.Core.List.{append_assoc, append-nil}
use qpub_go.Prelude.{true, false, List, [], ◌∷◌, ◌++◌, ◌≡◌, ◌∙◌, refl, sym, arith}
use qpub_go.Protocol.Messages.{Message}
use qpub_go.Channel.Types.{SocketChannel, emitted, Payload, paused}
use qpub_go.Channel.Monad.{ok}
use qpub_go.Channel.Delivery.{deliver_message, deliver_all, pause, resume}
use qpub_go.Channel.Steps.{resuming, resume_lem}
use qpub_go.Channel.Routing.{invocations, delivery_log, deliver_all_log, invocations-delivery_log}

buffers :
    (m : Message) (c : SocketChannel)
    → c.mu ≡ false
    → c.paused ≡ true
    → c.buffer_while_paused ≡ true
    → deliver_message m c
      ≡ ok tt (record c { mu = false; paused_messages = c.paused_messages ++ m ∷ [] })
unfolding deliver_message
buffers m c free held keep = ground arith

deliver_all_buffers :
    (ms : List Message) (c : SocketChannel)
    → c.mu ≡ false
    → c.paused ≡ true
    → c.buffer_while_paused ≡ true
    → deliver_all ms c ≡ ok tt (record c { mu = false; paused_messages = c.paused_messages ++ ms })
unfolding deliver_all
deliver_all_buffers [] c free held keep = rw (append-nil c.paused_messages) (ground arith)
deliver_all_buffers (m ∷ ms) c free held keep = rw (buffers m c free held keep) (
    deliver_all_buffers ms (record c { mu = false; paused_messages = c.paused_messages ++ m ∷ [] })
      refl held keep
    ∙ rw (append_assoc c.paused_messages (m ∷ []) ms))

-- The channel as `Pause(true)` leaves it, and later with messages in its buffer.
abbrev holding : List Message → SocketChannel → SocketChannel
holding ms c = record c {
  mu = false;
  paused = true;
  buffer_while_paused = true;
  paused_messages = ms;
  log = emitted true paused Payload.nil ∷ c.log;
}

pause_lem :
    (c : SocketChannel)
    → c.mu ≡ false
    → c.paused_messages ≡ []
    → pause true c ≡ ok tt (holding [] c)
unfolding pause
pause_lem c free empty = ground arith

abbrev delivered : List Message → SocketChannel → SocketChannel
delivered ms c = record c {
  mu = false;
  log = delivery_log c.event_callbacks c.catch_all_handler ms c.log;
}

-- On a channel with an empty buffer that is not paused: after `Pause(true)`, messages call no
-- handler, and `Resume` makes the calls, in the order, that the messages make without the pause. It
-- leaves the buffer empty and the channel not paused.
pub pause-resume :
    (ms : List Message) (c : SocketChannel)
    → c.mu ≡ false
    → c.paused ≡ false
    → c.paused_messages ≡ []
    → (d e f g : SocketChannel) × (pause true c ≡ ok tt d)
      × (deliver_all ms d ≡ ok tt e)
      × (invocations e.log ≡ invocations c.log)
      × (resume e ≡ ok tt f)
      × (deliver_all ms c ≡ ok tt g)
      × (invocations f.log ≡ invocations g.log)
      × (f.paused_messages ≡ [])
      × (f.paused ≡ false)
pause-resume ms c free going empty = (
  holding [] c,
  holding ms c,
  delivered ms (resuming (holding ms c)),
  delivered ms c,
  pause_lem c free empty,
  deliver_all_buffers ms (holding [] c) refl refl refl,
  refl,
  resume_lem (holding ms c) refl ∙ deliver_all_log ms (resuming (holding ms c)) refl refl,
  deliver_all_log ms c free going,
  invocations-delivery_log c.event_callbacks c.catch_all_handler ms _
      ∙ sym (invocations-delivery_log c.event_callbacks c.catch_all_handler ms c.log),
  refl,
  refl,
)

drops :
    (m : Message) (c : SocketChannel)
    → c.mu ≡ false
    → c.paused ≡ true
    → c.buffer_while_paused ≡ false
    → deliver_message m c ≡ ok tt c
unfolding deliver_message
drops m c free held keep = ground arith

deliver_all_drops :
    (ms : List Message) (c : SocketChannel)
    → c.mu ≡ false
    → c.paused ≡ true
    → c.buffer_while_paused ≡ false
    → deliver_all ms c ≡ ok tt c
unfolding deliver_all
deliver_all_drops [] c free held keep = refl
deliver_all_drops (m ∷ ms) c free held keep =
    rw (drops m c free held keep) (deliver_all_drops ms c free held keep)

abbrev dropping : SocketChannel → SocketChannel
dropping c = record c {
  mu = false;
  paused = true;
  buffer_while_paused = false;
  log = emitted true paused Payload.nil ∷ c.log;
}

-- After `Pause(false)` on a free channel, messages are dropped: they call no handler and reach no
-- buffer.
pause_drops :
    (ms : List Message) (c : SocketChannel)
    → c.mu ≡ false
    → (d : SocketChannel) × (pause false c ≡ ok tt d)
      × (deliver_all ms d ≡ ok tt d)
      × (d.paused_messages ≡ c.paused_messages)
      × (invocations d.log ≡ invocations c.log)
unfolding pause
pause_drops ms c free =
    (dropping c, ground arith, deliver_all_drops ms (dropping c) refl refl refl, refl, refl)
