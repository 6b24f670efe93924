-- ===== src/Channel/Delivery.antt =====
-- Messages on their way to the handlers: `deliverMessage`, `invokeHandler`, `Pause`, `Resume` and
-- `ClearBufferedMessages` of channel/socket.go. A handler's own calls are calls of their own.
use qpub_go.Prelude.{
  Bool, true, false, ◌&&◌, Option, none, some, List, [], ◌∷◌, ◌++◌, if◌then◌else◌, is_nil,
}
use qpub_go.Prelude.Text.{Text, is_empty}
use qpub_go.Prelude.Dict.{lookup}
use qpub_go.Protocol.Messages.{Message}
use qpub_go.Channel.Types.{Handler, Payload, paused, resumed}
use qpub_go.Channel.Monad.{M, pure, ◌>>=◌, ◌>>◌, lock, unlock, get, modify, emit, call}
use qpub_go.Channel.Handlers.{Callbacks, list_or_nil}

unfoldable pub invoke_handler : Option Handler → Message → M (Unit {0})
invoke_handler none m = pure tt
invoke_handler (some h) m = call h m

unfoldable pub invoke_all : List (Option Handler) → Message → M (Unit {0})
invoke_all [] m = pure tt
invoke_all (h ∷ hs) m = do invoke_handler h m; invoke_all hs m

-- The copy of the handlers of the message's event.
unfoldable pub event_handlers : Text → Callbacks → List (Option Handler)
event_handlers event callbacks = if is_empty event then [] else list_or_nil (lookup event callbacks)

unfoldable pub route : List (Option Handler) → Option Handler → Message → M (Unit {0})
route hs catch_all m = if is_nil hs then invoke_handler catch_all m else invoke_all hs m

unfoldable pub deliver_message : Message → M (Unit {0})
deliver_message m = do
  lock
  c ← get
  if c.paused && c.buffer_while_paused
      then (do modify (λ s. record s { paused_messages = s.paused_messages ++ m ∷ [] }); unlock)
      else if c.paused
      then unlock
      else (do unlock; route (event_handlers m.event c.event_callbacks) c.catch_all_handler m)

unfoldable pub deliver_all : List Message → M (Unit {0})
deliver_all [] = pure tt
deliver_all (m ∷ ms) = do deliver_message m; deliver_all ms

-- The unlock is deferred: the listeners of `paused` run under the mutex.
unfoldable pub pause : Bool → M (Unit {0})
pause buffer_messages = do
  lock
  modify (λ s. record s { paused = true; buffer_while_paused = buffer_messages })
  emit paused Payload.nil
  unlock

unfoldable pub resume : M (Unit {0})
resume = do
  lock
  c ← get
  modify (λ s. record s { paused_messages = []; paused = false })
  unlock
  emit resumed Payload.nil
  deliver_all c.paused_messages

unfoldable pub clear_buffered_messages : M (Unit {0})
clear_buffered_messages = do lock; modify (λ s. record s { paused_messages = [] }); unlock

unfoldable pub is_paused : M Bool
is_paused = do lock; c ← get; unlock; pure c.paused
