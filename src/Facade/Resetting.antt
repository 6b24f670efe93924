-- ===== src/Facade/Resetting.antt =====
-- What `Reset` of the two clients (socket.go, rest.go) leaves.
use qpub_go.Prelude.{true, false, none, some, [], ◌≡◌, inl, inr, refl, arith}
use qpub_go.Prelude.Text.{Text}
use qpub_go.Prelude.Dict.{lookup}
use qpub_go.Options.{default_option, reset_options}
use qpub_go.Auth.Types.{Env, Manager, no_credentials}
use qpub_go.Auth.Tokens.{get_auth_headers, get_auth_query_params, get_token, clear_token}
use qpub_go.Auth.Lifecycle
use qpub_go.Connection.Ops
use qpub_go.Connection.Ops.{is_connected}
use qpub_go.Connection.Types.{Conn}
use qpub_go.Ws
use qpub_go.Manager.Ops.{has}
use qpub_go.Manager.Sound.{IsFree}
use qpub_go.Manager.Runs.{Holders, Run}
use qpub_go.Manager.Refines.{Run-Sound, reset_manager-returns}
use qpub_go.Rest
use qpub_go.Queue.Worker
use qpub_go.Queue.Worker.{Worker, Stop, stopped, closed, close_of_closed, stop_worker}
use qpub_go.Facade.{Socket, RestClient, reset_socket, reset_rest}

-- An auth manager with the default settings has nothing to send.
abbrev pub Forgets : {S : Type 0} → Manager S → Type 0
Forgets {S} m =
    (env : Env S) (encode : Text → Text)
    → env.opts ≡ default_option
    → ((get_auth_headers env encode m).0 ≡ inl no_credentials)
      × ((get_auth_query_params env m).0 ≡ inl no_credentials)

reset-Forgets : {S : Type 0} (m : Manager S) → Forgets (Lifecycle.reset m)
unfolding Lifecycle.reset Lifecycle.begin_reset Lifecycle.end_reset clear_token get_auth_headers
    get_auth_query_params get_token default_option
reset-Forgets m env encode e = ground arith

-- The connection after its reset.
abbrev pub IsDown : {A C : Type 0} → Conn A C → Type 0
IsDown c =
    (is_connected c ≡ false)
    × (c.reconnect_attempts ≡ 0)
    × (c.is_reconnecting ≡ false)
    × (c.resetting ≡ false)

conn_reset-IsDown :
    {A C : Type 0} (c : Conn A C) (a : A) (ch : C)
    → IsDown (record (Ops.reset c) { auth = a; channels = ch })
unfolding Ops.reset is_connected Ws.is_connected Ws.reset Ws.disconnect
conn_reset-IsDown c a ch = ground arith

conn_reset-channels : {A C : Type 0} (c : Conn A C) → (Ops.reset c).channels ≡ c.channels
unfolding Ops.reset Ops.cancel
conn_reset-channels c = ground arith

-- `Reset` of a socket returns after any calls on its channels and their manager, if no call that never
-- returns holds a channel's mutex, as a catch-all `Subscribe` on a subscribed channel does. The client is
-- not connected then, has the default settings and no channel, and sends no credentials, neither a token
-- nor an API key.
pub reset_socket-Forgets :
    {S : Type 0} (s : Socket S) (f : Holders)
    → Run f s.connection.channels
    → IsFree s.connection.channels
    → (t : Socket S) × (reset_socket s ≡ inr t)
      × (t.options ≡ default_option)
      × IsDown t.connection
      × ((k : Text) → has k t.connection.channels ≡ false)
      × Forgets t.connection.auth
unfolding reset_socket reset_options has lookup
reset_socket-Forgets s f r free =
    let c = Ops.reset s.connection in
    let (n, loops, none_left, _) = reset_manager-returns s.connection.channels (Run-Sound r) free in
    (
      record s {
        options = default_option;
        connection = record c { channels = n; auth = Lifecycle.reset c.auth };
      },
      rw (conn_reset-channels s.connection, loops) refl,
      refl,
      conn_reset-IsDown s.connection (Lifecycle.reset c.auth) n,
      λ k. rw none_left refl,
      reset-Forgets c.auth,
    )

-- The worker of the queue manager runs, and its stop channel has been closed.
abbrev pub IsStopping : Worker → Type 0
IsStopping w = (w.running ≡ true) × (w.stop_ch ≡ closed)

-- `Reset` of a REST client panics exactly while the queue's worker, which `StopWorker` has told to
-- stop, still runs; when it returns the client has the default settings and no channel, and sends no
-- credentials.
pub reset_rest-Forgets :
    {S : Type 0} (r : RestClient S)
    → ((reset_rest r ≡ none → IsStopping r.queues) × (IsStopping r.queues → reset_rest r ≡ none))
      × ((t : RestClient S)
          → reset_rest r ≡ some t
          → (t.options ≡ default_option) × (t.channels.channels ≡ []) × Forgets t.auth)
unfolding reset_rest reset_options Rest.reset Worker.reset stop_worker
reset_rest-Forgets r = (
  (ground arith, ground arith),
  λ t e.
      let cleared : t.auth ≡ Lifecycle.reset r.auth = ground arith in
      (ground arith, ground arith, rw cleared (reset-Forgets r.auth)),
)
