-- ===== src/Tests/Channel.antt =====
-- Inputs for the theorems about channel/socket.go: a channel "room" over a sender that takes every
-- frame, and handlers of two function literals.
use qpub_go.Prelude.{◌⊎◌, ◌&&◌, pos, true, false, none, some, List, [], ◌∷◌, ◌≡◌, refl, inr}
use qpub_go.Prelude.Text.{Text, codes, same}
use qpub_go.Prelude.Dict.{lookup, insert}
use qpub_go.Protocol.Action.{ActionType}
use qpub_go.Protocol.Messages.{Message, WireMessage}
use qpub_go.Channel.Types.{
  Handler, SubscribeOptions, MessageSender, SocketChannel, Payload, Output, subscribe_frame,
  unsubscribe_frame, sent, emitted, paused, subscribing, unsubscribing,
}
use qpub_go.Channel.Monad.{deadlock, ok, fault}
use qpub_go.Channel.Handlers.{
  has_identity, handler_identity, has_callback_locked, add_event_handler_locked,
  remove_event_handler_locked,
}
use qpub_go.Channel.Delivery.{event_handlers, deliver_all, pause, resume}
use qpub_go.Channel.Wait.{Reply, returned, waits, ack_timeout, has_signal, acked, wait_ack}
use qpub_go.Channel.Subscribe.{subscribe}
use qpub_go.Channel.Unsubscribe.{unsubscribe}
use qpub_go.Channel.Incoming.{handle_incoming}
use qpub_go.Channel.Calls.{
  Call, new_socket_channel, set_pending_subscribe, needs_resubscribe, subscribes, pauses, step,
}
use qpub_go.Channel.Invariant.{Inv, Post}
use qpub_go.Channel.Acks.{IsFor}
use qpub_go.Channel.Steps.{CallFaults, step-Post}
use qpub_go.Channel.Held.{IsHeld, here, next, Reach-Inv}
use qpub_go.Channel.Faults.{second_subscribe_deadlocks, subscribe_lost}
use qpub_go.Channel.Pausing.{pause-resume}
use qpub_go.Channel.Routing.{invocations, deliver_all-invocations}
use qpub_go.Channel.Registry.{handlers_of, remove-add, add_same_code}
use qpub_go.Channel.Acknowledge.{subscribe_acked, unsubscribe_acked}

abbrev up : MessageSender
up = record { is_connected = true; send = λ f. none }

abbrev room : Text
room = codes "room"

abbrev printer : Handler
printer = record { code = 1; env = 0 }

abbrev counter : Handler
counter = record { code = 2; env = 0 }

abbrev other_counter : Handler
other_counter = record { code = 2; env = 1 }

abbrev whole : SubscribeOptions
whole = record { event = []; timeout = pos 0 }

abbrev news : SubscribeOptions
news = record { event = codes "news"; timeout = pos 5 }

abbrev fresh : SocketChannel
fresh = new_socket_channel room

abbrev frame : ActionType → WireMessage
frame action = record {
  action = action;
  error_info = none;
  connection_id = [];
  connection_details = none;
  channel = room;
  subscription_id = codes "s1";
  id = codes "m";
  timestamp = [];
  messages = [];
}

abbrev hello : Message
hello = record {
  action = ActionType.message;
  error_info = none;
  id = codes "m";
  timestamp = [];
  channel = room;
  alias = [];
  event = codes "news";
  payload = codes "1";
}

-- A subscribed channel with a handler for news and one for all else.
abbrev open_room : SocketChannel
open_room = record fresh {
  subscribed = true;
  catch_all_handler = some printer;
  event_callbacks = (codes "news", some counter ∷ []) ∷ [];
}

-- One whose first subscribe waits.
abbrev waiting_room : SocketChannel
waiting_room = record fresh { pending_subscribe = true; catch_all_handler = some printer }

fresh-Inv : Inv fresh
unfolding new_socket_channel
fresh-Inv = record { free = refl; exclusive = refl; drained = inr refl }

open_room-Inv : Inv open_room
unfolding new_socket_channel
open_room-Inv = record { free = refl; exclusive = refl; drained = inr refl }

waiting_room-Inv : Inv waiting_room
unfolding new_socket_channel
waiting_room-Inv = record { free = refl; exclusive = refl; drained = inr refl }

frame-IsFor : (c : SocketChannel) (action : ActionType) → c.name ≡ room → IsFor (frame action) c
unfolding same
frame-IsFor c action e = rw e

step-Post_example :
    Post Inv
      (CallFaults up (subscribes (some printer) whole) fresh)
      (step up (subscribes (some printer) whole) fresh)
step-Post_example = step-Post up (subscribes (some printer) whole) fresh fresh-Inv

-- `fresh` after `Pause(true)`.
abbrev paused_room : SocketChannel
paused_room = record fresh { paused = true; log = emitted true paused Payload.nil ∷ [] }

Reach-Inv_example :
    (IsHeld paused_room
      × ((ws : MessageSender) (call : Call) (r : Reply) (d : SocketChannel)
          → step ws call paused_room ≡ ok r d
          → IsHeld d))
    ⊎ ((paused_room.mu ≡ false)
        × ((paused_room.subscribed && paused_room.pending_subscribe) ≡ false)
        × (paused_room.paused ≡ false → paused_room.paused_messages ≡ []))
unfolding step pause new_socket_channel
Reach-Inv_example = Reach-Inv room (next here up (pauses true) (returned none) refl)

second_subscribe_deadlocks_example :
    (d : SocketChannel) × (subscribe up (some counter) whole waiting_room ≡ ok (returned none) d)
    × (handle_incoming up (some (frame ActionType.subscribed)) d ≡ fault deadlock)
unfolding new_socket_channel
second_subscribe_deadlocks_example =
    second_subscribe_deadlocks up (frame ActionType.subscribed) (some counter) whole waiting_room
      waiting_room-Inv refl refl refl refl refl
      (frame-IsFor waiting_room ActionType.subscribed refl) refl

subscribe_lost_example :
    (d e : SocketChannel) × (set_pending_subscribe true fresh ≡ ok tt d)
    × (needs_resubscribe d ≡ ok false d)
    × (subscribe up (some counter) whole d ≡ ok (returned none) e)
    × (e.log ≡ fresh.log)
unfolding new_socket_channel
subscribe_lost_example = subscribe_lost up (some counter) whole fresh fresh-Inv refl refl refl

subscribe_acked_example :
    let r = waits 0 5 (codes "subscribe") in
    (d e f : SocketChannel) × (subscribe up (some counter) news fresh ≡ ok r d)
    × (d.log ≡ sent (subscribe_frame room) ∷ emitted false subscribing Payload.nil ∷ [])
    × (wait_ack r acked d ≡ ok r d)
    × (handle_incoming up (some (frame ActionType.subscribed)) d ≡ ok (returned none) e)
    × (e.subscribed ≡ true)
    × (e.event_callbacks ≡ (codes "news", some counter ∷ []) ∷ [])
    × (e.catch_all_handler ≡ none)
    × (wait_ack r acked e ≡ ok (returned none) f)
unfolding new_socket_channel ack_timeout has_signal add_event_handler_locked has_identity lookup
    insert
subscribe_acked_example =
    subscribe_acked up up (frame ActionType.subscribed) (some counter) news fresh fresh-Inv refl
      refl refl refl refl refl refl (frame-IsFor fresh ActionType.subscribed refl) refl

unsubscribe_acked_example :
    let r = waits 0 10_000_000_000 (codes "unsubscribe") in
    (d e f : SocketChannel) × (unsubscribe up [] open_room ≡ ok r d)
    × (d.log ≡ sent (unsubscribe_frame room) ∷ emitted false unsubscribing Payload.nil ∷ [])
    × (handle_incoming up (some (frame ActionType.unsubscribed)) d ≡ ok (returned none) e)
    × (e.subscribed ≡ false)
    × (has_callback_locked e ≡ false)
    × (wait_ack r acked e ≡ ok (returned none) f)
unfolding new_socket_channel
unsubscribe_acked_example =
    unsubscribe_acked up up (frame ActionType.unsubscribed) open_room open_room-Inv refl refl refl
      refl (frame-IsFor open_room ActionType.unsubscribed refl) refl

pause-resume_example :
    (d e f g : SocketChannel) × (pause true open_room ≡ ok tt d)
    × (deliver_all (hello ∷ []) d ≡ ok tt e)
    × (invocations e.log ≡ [])
    × (resume e ≡ ok tt f)
    × (deliver_all (hello ∷ []) open_room ≡ ok tt g)
    × (invocations f.log ≡ invocations g.log)
    × (f.paused_messages ≡ [])
    × (f.paused ≡ false)
unfolding new_socket_channel
pause-resume_example = pause-resume (hello ∷ []) open_room refl refl refl

deliver_all-invocations_example :
    (log : List Output) × (deliver_all (hello ∷ []) open_room
      ≡ ok tt (record open_room { log = log }))
    × (invocations log ≡ (counter, hello) ∷ [])
unfolding new_socket_channel event_handlers lookup same
deliver_all-invocations_example = deliver_all-invocations (hello ∷ []) open_room refl refl

remove-add_example :
    handlers_of
      (codes "news")
      (remove_event_handler_locked (codes "news") (some printer) (record open_room {
        event_callbacks =
            add_event_handler_locked (codes "news") (some printer) open_room.event_callbacks;
      })).0
    ≡ some counter ∷ []
unfolding new_socket_channel lookup same has_identity handler_identity
remove-add_example = remove-add (codes "news") (codes "news") printer open_room refl

add_same_code_example :
    add_event_handler_locked
      (codes "news")
      (some other_counter)
      (add_event_handler_locked (codes "news") (some counter) [])
    ≡ add_event_handler_locked (codes "news") (some counter) []
add_same_code_example = add_same_code (codes "news") counter other_counter [] refl
