-- ===== src/Tests/Facade.antt =====
-- Inputs for the theorems about the clients as a whole, the channel manager, and the HTTP client.
use qpub_go.Prelude.{
  ◌⊎◌, pos, ℕ, suc, true, false, none, some, [], ◌≡◌, ◌≢◌, inr, false, some, get_elem?, arith, refl,
}
use qpub_go.Prelude.Text.{Text, codes, same}
use qpub_go.Options.{default_option}
use qpub_go.Auth.Types.{Manager}
use qpub_go.Auth.Lifecycle
use qpub_go.Connection.Ops.{new_conn}
use qpub_go.Prelude.Dict.{lookup, insert}
use qpub_go.Protocol.Action.{ActionType}
use qpub_go.Protocol.Messages.{WireMessage}
use qpub_go.Manager.Turns.{Loop, Served, At}
use qpub_go.Manager.Recovered.{loss-Served}
use qpub_go.Channel.Types.{MessageSender, SocketChannel, Handler}
use qpub_go.Channel.Subscribe.{subscribe, subscribe_network, send_subscribe}
use qpub_go.Channel.Wait.{Reply, returned, ack_timeout}
use qpub_go.Manager.Sound.{IsFree}
use qpub_go.Manager.Released.{IsBlocked}
use qpub_go.Channel.Monad.{ok, deadlock}
use qpub_go.Channel.Handlers.{has_callback_locked, add_event_handler_locked, has_identity}
use qpub_go.Channel.Calls.{Call, subscribes, step, needs_resubscribe, new_socket_channel}
use qpub_go.Channel.Recovery.{lost}
use qpub_go.Manager.Marked.{is_member, loss_marks}
use qpub_go.Manager.Ops.{
  SocketManager, Result, on_channel, failed, done, get, has, release, new_socket_manager, all,
  ensure, pending_subscribe_all_channels,
}
use qpub_go.Manager.Counts.{count_of, pointer_of}
use qpub_go.Manager.Runs.{Holders, nobody, held_by_one_more, Run, fresh, gets, calls}
use qpub_go.Manager.Refines.{Run-holders}
use qpub_go.Rest.{new_rest_manager}
use qpub_go.Queue.Worker.{closed}
use qpub_go.Facade.{Socket, RestClient, reset_socket, reset_rest}
use qpub_go.Facade.Resetting.{IsDown, Forgets, IsStopping, reset_socket-Forgets, reset_rest-Forgets}
use qpub_go.Transport.{Library}

-- One channel that is held twice.
abbrev held_twice : SocketManager
held_twice = get (codes "room") (get (codes "room") new_socket_manager)

abbrev holders : Holders
holders = held_by_one_more (codes "room") (held_by_one_more (codes "room") nobody)

abbrev run : Run holders held_twice
run = gets (codes "room") (gets (codes "room") fresh)

Run-holders_example :
    ((k : Text) → count_of k held_twice ≡ holders k)
    × ((k : Text) → holders k ≢ 0 → has k held_twice ≡ true)
    × ((j k : Text) (a : ℕ)
        → pointer_of j held_twice ≡ some a
        → pointer_of k held_twice ≡ some a
        → same j k ≡ true)
    × ((name : Text)
        → ((n : SocketManager) × (release name held_twice ≡ done tt n))
          ⊎ ((release name held_twice ≡ failed deadlock) × IsBlocked name held_twice))
Run-holders_example = Run-holders run

-- A sender that takes every frame.
abbrev sender : MessageSender
sender = record { is_connected = true; send = λ x. none }

abbrev printer : Handler
printer = record { code = 1; env = 0 }

abbrev to_news : Call
to_news = subscribes (some printer) (record { event = codes "news"; timeout = pos 0 })

abbrev manager_of : {A : Type 0} → Result A → SocketManager
manager_of (done r m) = m
manager_of (failed e) = new_socket_manager

abbrev reply_of : Result Reply → Reply
reply_of (done r m) = r
reply_of (failed e) = returned none

-- Its channel has a handler.
abbrev in_use : SocketManager
in_use = manager_of (on_channel 0 (step sender to_news) held_twice)

abbrev in_use_run : Run holders in_use
unfolding get ensure new_socket_manager lookup insert same new_socket_channel on_channel step
    subscribe subscribe_network send_subscribe ack_timeout add_event_handler_locked
in_use_run =
    calls 0 sender to_news (reply_of (on_channel 0 (step sender to_news) held_twice)) run refl

in_use-IsFree : IsFree in_use
unfolding get ensure new_socket_manager lookup insert same new_socket_channel on_channel step
    subscribe subscribe_network send_subscribe ack_timeout add_event_handler_locked
in_use-IsFree = (refl, tt)

in_use_lem :
    (c : SocketChannel) × (get_elem? in_use.heap 0 ≡ some c) × (has_callback_locked c ≡ true)
unfolding get ensure new_socket_manager lookup insert same new_socket_channel on_channel step
    subscribe subscribe_network send_subscribe ack_timeout add_event_handler_locked has_identity
in_use_lem = (_, refl, refl)

loss_marks_example :
    (n : SocketManager) × (pending_subscribe_all_channels in_use ≡ done tt n)
    × ((k : Text) → pointer_of k n ≡ pointer_of k in_use)
    × ((k : Text) (a : ℕ)
        → pointer_of k in_use ≡ some a
        → (c : SocketChannel) × (get_elem? in_use.heap a ≡ some c)
          × (get_elem? n.heap a ≡ some (lost c))
          × (needs_resubscribe (lost c) ≡ ok (has_callback_locked c) (lost c)))
    × ((a : ℕ) (c : SocketChannel)
        → get_elem? in_use.heap a ≡ some c
        → is_member a (all in_use) ≡ false
        → get_elem? n.heap a ≡ some c)
loss_marks_example = loss_marks in_use_run in_use-IsFree

abbrev answer : Text → WireMessage
answer name = record {
  action = ActionType.subscribed;
  error_info = none;
  connection_id = [];
  connection_details = none;
  channel = name;
  subscription_id = codes "s1";
  id = [];
  timestamp = [];
  messages = [];
}

-- Nothing is queued.
quiet :
    (a : ℕ) (c : SocketChannel)
    → is_member a (all in_use) ≡ true
    → get_elem? in_use.heap a ≡ some c
    → c.operation_queue ≡ []
unfolding get ensure new_socket_manager lookup insert same new_socket_channel on_channel step
    subscribe subscribe_network send_subscribe ack_timeout add_event_handler_locked
quiet ℕ.zero c h e = ground arith
quiet (suc a) c h e = ground arith

loss-Served_example :
    (n : SocketManager) × (pending_subscribe_all_channels in_use ≡ done tt n)
    × (q : SocketManager) × Loop sender answer (all n) n q
    × ((k : Text) (a : ℕ) → pointer_of k in_use ≡ some a → At Served q a)
loss-Served_example =
    loss-Served sender answer (λ x. refl) (λ name. refl) (λ name. refl) in_use_run in_use-IsFree
      quiet

-- A client with an API key, a token and a channel.
abbrev auth : Manager ℕ
auth = record (Lifecycle.new_manager 0) { current_token = codes "t" }

abbrev socket : Socket ℕ
socket = record {
  instance_id = codes "socket_1";
  options = record default_option { api_key = codes "a:b" };
  connection = new_conn auth in_use;
  connecting = true;
}

reset_socket-Forgets_example :
    (t : Socket ℕ) × (reset_socket socket ≡ inr t)
    × (t.options ≡ default_option)
    × IsDown t.connection
    × ((k : Text) → has k t.connection.channels ≡ false)
    × Forgets t.connection.auth
unfolding new_conn
reset_socket-Forgets_example = reset_socket-Forgets socket holders in_use_run in_use-IsFree

abbrev rest : RestClient ℕ
rest = record {
  instance_id = codes "rest_1";
  options = record default_option { api_key = codes "a:b" };
  auth = auth;
  channels = new_rest_manager;
  queues = record { running = true; stop_ch = closed };
  worker_id = codes "rest_worker_rest_1";
}

reset_rest-Forgets_example :
    ((reset_rest rest ≡ none → IsStopping rest.queues)
      × (IsStopping rest.queues → reset_rest rest ≡ none))
    × ((t : RestClient ℕ)
        → reset_rest rest ≡ some t
        → (t.options ≡ default_option) × (t.channels.channels ≡ []) × Forgets t.auth)
reset_rest-Forgets_example = reset_rest-Forgets rest

-- A server that has failed.
abbrev library : Library ℕ
library = record {
  refuses = λ method url. none;
  do_request =
      λ r s. (inr (record { status = 503; read = inr (codes "busy"); close = none }), suc s);
}
