-- ===== src/Facade.antt =====
-- socket.go and rest.go: the two clients, made of the components, and their `Reset`. The loggers are
-- left out, and so are the goroutines that the constructors start: `Lifecycle.initial_request` is the
-- one of the auth manager, and `connecting` stands for the one that connects.
pub mod Resetting
use qpub_go.Prelude.{ℕ, Bool, Option, none, some, List, ◌⊎◌, ◌++◌}
use qpub_go.Prelude.Text.{Text, codes}
use qpub_go.Options.{Options, OptionFunc, new_manager, reset_options}
use qpub_go.Logger.{new_socket, new_rest, must}
use qpub_go.Auth.Types.{Manager}
use qpub_go.Auth.Lifecycle
use qpub_go.Connection.Types.{Conn}
use qpub_go.Connection.Ops
use qpub_go.Channel.Monad.{Fault}
use qpub_go.Manager.Ops.{SocketManager, Result, done, failed, new_socket_manager, reset_manager}
use qpub_go.Rest
use qpub_go.Rest.{RestManager, new_rest_manager}
use qpub_go.Queue.Worker
use qpub_go.Queue.Worker.{Worker, Stop, stopped, close_of_closed, new_worker}

-- The connection holds the states of the auth manager and of the channel manager that it calls.
-- `connecting` tells whether the goroutine that connects was started.
pub record Socket (S : Type 0) : Type 0 where
  pub instance_id : Text
  pub options : Options
  pub connection : Conn (Manager S) SocketManager
  pub connecting : Bool

abbrev made_socket : {S : Type 0} → Option Text → Options → S → Option (Socket S)
made_socket none opts s = none
made_socket (some id) opts s = some (record {
  instance_id = id;
  options = opts;
  connection = Ops.new_conn (Lifecycle.new_manager s) new_socket_manager;
  connecting = opts.auto_connect;
})

-- `NewSocket`; `none` is the panic of a UUID that cannot be made.
unfoldable pub make_socket : {S : Type 0} → List OptionFunc → Text ⊎ Text → S → Option (Socket S)
make_socket funcs uuid s = made_socket (must (new_socket uuid)) (new_manager funcs) s

abbrev with_channels :
    {S : Type 0} → Socket S → Conn (Manager S) SocketManager → Result (Unit {0}) → Fault ⊎ Socket S
with_channels s c (failed e) = ◌⊎◌.inl e
with_channels s c (done _ m) = ◌⊎◌.inr (record s {
  options = reset_options s.options;
  connection = record c { channels = m; auth = Lifecycle.reset c.auth };
})

-- `Reset` of the socket: the connection, the channels, the auth manager, the options. A channel whose
-- mutex is held stops it.
unfoldable pub reset_socket : {S : Type 0} → Socket S → Fault ⊎ Socket S
reset_socket s = let c = Ops.reset s.connection in with_channels s c (reset_manager c.channels)

pub record RestClient (S : Type 0) : Type 0 where
  pub instance_id : Text
  pub options : Options
  pub auth : Manager S
  pub channels : RestManager
  pub queues : Worker
  pub worker_id : Text

abbrev made_rest : {S : Type 0} → Option Text → Options → S → Option (RestClient S)
made_rest none opts s = none
made_rest (some id) opts s = some (record {
  instance_id = id;
  options = opts;
  auth = Lifecycle.new_manager s;
  channels = new_rest_manager;
  queues = new_worker;
  worker_id = codes "rest_worker_" ++ id;
})

-- `NewRest`.
unfoldable pub make_rest : {S : Type 0} → List OptionFunc → Text ⊎ Text → S → Option (RestClient S)
make_rest funcs uuid s = made_rest (must (new_rest uuid)) (new_manager funcs) s

abbrev after_queues : {S : Type 0} → RestClient S → Stop → Option (RestClient S)
after_queues r close_of_closed = none
after_queues r (stopped w) =
    some (record r { queues = w; auth = Lifecycle.reset r.auth; options = reset_options r.options })

-- `Reset` of the REST client: the channels, the queues, the auth manager, the options; `none` is the
-- panic of a stop channel that is closed twice.
unfoldable pub reset_rest : {S : Type 0} → RestClient S → Option (RestClient S)
reset_rest r =
    let r' = record r { channels = Rest.reset r.channels } in
    after_queues r' (Worker.reset r'.queues)
