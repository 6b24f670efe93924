-- ===== src/Channel/Routing.antt =====
-- Which handlers `deliverMessage` of channel/socket.go calls.
use mathlib.Core.List.{append_assoc, append-nil}
use qpub_go.Prelude.{
  ◌&&◌, not, false, Option, none, some, List, [], ◌∷◌, ◌++◌, ◌≡◌, ◌∙◌, refl, arith, is_nil, map,
  if◌then◌else◌,
}
use qpub_go.Prelude.Text.{Text, same, is_empty}
use qpub_go.Prelude.Dict.{lookup}
use qpub_go.Protocol.Messages.{Message}
use qpub_go.Channel.Types.{Handler, SocketChannel, Output, sent, emitted, invoked}
use qpub_go.Channel.Monad.{ok}
use qpub_go.Channel.Handlers.{Callbacks}
use qpub_go.Channel.Delivery.{
  invoke_handler, invoke_all, event_handlers, route, deliver_message, deliver_all,
}

-- The handler calls of a log, the oldest first.
abbrev pub invocations : List Output → List (Handler × Message)
invocations [] = []
invocations (sent f ∷ log) = invocations log
invocations (emitted held e p ∷ log) = invocations log
invocations (invoked h m ∷ log) = invocations log ++ (h, m) ∷ []

abbrev pub present : List (Option Handler) → List Handler
present [] = []
present (none ∷ hs) = present hs
present (some h ∷ hs) = h ∷ present hs

-- The handlers that were added for an event, the oldest first; a message without an event has none.
abbrev pub added_for : Text → Callbacks → List (Option Handler)
added_for event [] = []
added_for event ((other, hs) ∷ callbacks) =
    if same other event && not (is_empty event) then hs else added_for event callbacks

-- The handlers that a message is for: those of its event in the order in which they were added, and
-- the catch-all handler only if there are none.
abbrev pub handlers_for : Callbacks → Option Handler → Message → List Handler
handlers_for callbacks catch_all m =
    let hs = added_for m.event callbacks in
    if is_nil hs then present (catch_all ∷ []) else present hs

event_handlers-added_for :
    (event : Text) (callbacks : Callbacks)
    → event_handlers event callbacks ≡ added_for event callbacks
unfolding event_handlers lookup
event_handlers-added_for [] [] = refl
event_handlers-added_for [] ((other, hs) ∷ callbacks) =
    event_handlers-added_for [] callbacks ∙ ground arith
event_handlers-added_for (b ∷ event) [] = refl
event_handlers-added_for (b ∷ event) ((other, hs) ∷ callbacks) =
    ground (arith, event_handlers-added_for (b ∷ event) callbacks)

abbrev pub calls_for : Callbacks → Option Handler → Message → List (Handler × Message)
calls_for callbacks catch_all m = map (λ h. (h, m)) (handlers_for callbacks catch_all m)

abbrev pub calls_for_all : Callbacks → Option Handler → List Message → List (Handler × Message)
calls_for_all callbacks catch_all [] = []
calls_for_all callbacks catch_all (m ∷ ms) =
    calls_for callbacks catch_all m ++ calls_for_all callbacks catch_all ms

-- The log after calls of the handlers of a list.
abbrev pub call_log : List Handler → Message → List Output → List Output
call_log [] m log = log
call_log (h ∷ hs) m log = call_log hs m (invoked h m ∷ log)

invocations-call_log :
    (hs : List Handler) (m : Message) (log : List Output)
    → invocations (call_log hs m log) ≡ invocations log ++ map (λ h. (h, m)) hs
invocations-call_log [] m log = simp append-nil
invocations-call_log (h ∷ hs) m log =
    rw (invocations-call_log hs m (invoked h m ∷ log)) (append_assoc (invocations log) _ _)

invoke_all_lem :
    (hs : List (Option Handler)) (m : Message) (c : SocketChannel)
    → invoke_all hs m c ≡ ok tt (record c { log = call_log (present hs) m c.log })
unfolding invoke_all invoke_handler
invoke_all_lem [] m c = refl
invoke_all_lem (none ∷ hs) m c = invoke_all_lem hs m c
invoke_all_lem (some h ∷ hs) m c = invoke_all_lem hs m _

route_lem :
    (hs : List (Option Handler)) (h : Option Handler) (m : Message) (c : SocketChannel)
    → route hs h m c
      ≡ ok tt
          (record c { log = call_log (if is_nil hs then present (h ∷ []) else present hs) m c.log })
unfolding route invoke_handler
route_lem [] none m c = refl
route_lem [] (some h) m c = refl
route_lem (x ∷ hs) h m c = invoke_all_lem (x ∷ hs) m c

-- The log after the delivery of messages on a channel that is not paused.
abbrev pub delivery_log : Callbacks → Option Handler → List Message → List Output → List Output
delivery_log callbacks catch_all [] log = log
delivery_log callbacks catch_all (m ∷ ms) log =
    delivery_log callbacks catch_all ms (call_log (handlers_for callbacks catch_all m) m log)

deliver_message_lem :
    (m : Message) (c : SocketChannel)
    → c.mu ≡ false
    → c.paused ≡ false
    → deliver_message m c
      ≡ ok tt (record c {
        mu = false;
        log = call_log (handlers_for c.event_callbacks c.catch_all_handler m) m c.log;
      })
unfolding deliver_message
deliver_message_lem m c free going = ground (
  arith,
  event_handlers-added_for m.event c.event_callbacks,
  route_lem (event_handlers m.event c.event_callbacks) c.catch_all_handler m
      (record c { mu = false }),
)

pub deliver_all_log :
    (ms : List Message) (c : SocketChannel)
    → c.mu ≡ false
    → c.paused ≡ false
    → deliver_all ms c
      ≡ ok tt (record c {
        mu = false;
        log = delivery_log c.event_callbacks c.catch_all_handler ms c.log;
      })
unfolding deliver_all
deliver_all_log [] c free going = ground arith
deliver_all_log (m ∷ ms) c free going =
    rw (deliver_message_lem m c free going) (deliver_all_log ms _ refl going)

pub invocations-delivery_log :
    (callbacks : Callbacks) (catch_all : Option Handler) (ms : List Message) (log : List Output)
    → invocations (delivery_log callbacks catch_all ms log)
      ≡ invocations log ++ calls_for_all callbacks catch_all ms
invocations-delivery_log callbacks catch_all [] log = simp append-nil
invocations-delivery_log callbacks catch_all (m ∷ ms) log =
    invocations-delivery_log callbacks catch_all ms _
    ∙ rw (invocations-call_log (handlers_for callbacks catch_all m) m log)
        (append_assoc (invocations log) _ _)

-- On a channel that is not paused and whose mutex is free, each message of a list calls the handlers that
-- were added for its event, the oldest first, and the catch-all handler only if its event is empty or has
-- no handlers. The calls are made in the order of the messages, a nil handler is passed over, and nothing
-- but the log changes.
pub deliver_all-invocations :
    (ms : List Message) (c : SocketChannel)
    → c.mu ≡ false
    → c.paused ≡ false
    → (log : List Output) × (deliver_all ms c ≡ ok tt (record c { log = log }))
      × (invocations log
          ≡ invocations c.log ++ calls_for_all c.event_callbacks c.catch_all_handler ms)
deliver_all-invocations ms c free going = (
  delivery_log c.event_callbacks c.catch_all_handler ms c.log,
  deliver_all_log ms c free going ∙ ground arith,
  invocations-delivery_log c.event_callbacks c.catch_all_handler ms c.log,
)
