-- ===== src/Connection/Ops.antt =====
-- The methods of `Conn` in connection/connection.go but for the pings. The mutex guards each group
-- of reads and writes of the fields, and no call is made under it.
use qpub_go.Prelude.{
  ℕ, zero, suc, ℤ, pos, negsuc, Bool, true, false, not, ◌&&◌, Option, none, some, [], ◌∷◌, ◌++◌,
  inl, inr, ◌==◌, leb, if◌then◌else◌, map, ◌⊎◌,
}
use qpub_go.Prelude.Text.{Text, codes}
use qpub_go.Prelude.Decimal.{fill}
use qpub_go.Options.{Options}
use qpub_go.Ws
use qpub_go.Ws.{Error, new_client}
use qpub_go.Connection.Types.{
  Env, Conn, Reader, ConnectionEvent, initialized, opened, closing, connecting, closed, failed,
}

abbrev pub or_empty : Option Text → Text
or_empty none = []
or_empty (some s) = s

-- `%d` of an `int`: 20 places hold every one.
abbrev pub decimal : ℤ → Text
decimal (pos zero) = codes "0"
decimal (pos (suc n)) = or_empty (fill 20 (suc n) [])
decimal (negsuc n) = b'-' ∷ or_empty (fill 20 (suc n) [])

abbrev port_suffix : Option ℤ → Text
port_suffix none = []
port_suffix (some port) = b':' ∷ decimal port

-- The address that `Connect` asks the auth manager to complete.
unfoldable pub ws_base : Options → Text
ws_base o =
    (if o.is_secure then codes "wss" else codes "ws")
    ++ codes "://"
    ++ o.ws_host
    ++ port_suffix o.ws_port
    ++ codes "/v1"

abbrev pub at_least : ℕ → ℤ → Bool
at_least n (pos m) = leb m n
at_least n (negsuc m) = true

abbrev pub first_failure : Error → ConnectionEvent
first_failure e = failed (record { error = some e; attempt = 1; context = [] })

abbrev cancel_reader : ℕ → Reader → Reader
cancel_reader n r = if r.loop == n then record r { cancelled = true } else r

module _ {A C : Type 0} where
  -- `c.events.Emit(event, payload)`
  abbrev pub emit : ConnectionEvent → Conn A C → Conn A C
  emit e c = record c { log = e ∷ c.log }

  -- `New`, over the managers' states; the WebSocket client is new as well.
  unfoldable pub new_conn : A → C → Conn A C
  new_conn a ch = record {
    ws = new_client;
    auth = a;
    channels = ch;
    reconnect_attempts = 0;
    is_reconnecting = false;
    intentional_disconnect = false;
    resetting = false;
    ping_counter = 0;
    pending_pings = [];
    answers = [];
    loops = 0;
    read_cancel = none;
    readers = [];
    spawned = 0;
    sleeping = 0;
    dialing = 0;
    log = initialized ∷ [];
  }

  -- The end of a context: its own, or that of the caller of `Connect`.
  unfoldable pub cancel : ℕ → Conn A C → Conn A C
  cancel n c = record c { readers = map (cancel_reader n) c.readers }

  abbrev pub cancel_last : Option ℕ → Conn A C → Conn A C
  cancel_last none c = c
  cancel_last (some n) c = cancel n c

  abbrev start_goroutine : Option ℕ → ℕ → Conn A C → Conn A C
  start_goroutine none n c = c
  start_goroutine (some conn) n c = record c {
    readers = record { loop = n; cancelled = false; reading = false } ∷ c.readers;
  }

  unfoldable pub start_read_loop : Conn A C → Conn A C
  start_read_loop c =
      let c' = cancel_last c.read_cancel c in
      let n = c'.loops in
      start_goroutine c'.ws.conn n (record c' { loops = suc n; read_cancel = some n })

  -- The part of `Connect` after the dial succeeded.
  unfoldable pub connect_opened : Env A C → Conn A C → Conn A C
  connect_opened env c =
      let c' = start_read_loop (emit opened c) in
      if env.opts.auto_resubscribe
      then record c' { channels = env.resubscribe_after_reconnect c'.channels }
      else c'

  abbrev pub connect_dialed :
      Env A C → Option Error × Ws.Client → Conn A C → Option Error × Conn A C
  connect_dialed env (none, client) c = (none, connect_opened env (record c { ws = client }))
  connect_dialed env (some e, client) c =
      (some e, emit (first_failure e) (record c { ws = client }))

  abbrev pub connect_url : Env A C → (Error ⊎ Text) × A → Conn A C → Option Error × Conn A C
  connect_url env (inl e, a) c = (some e, record c { auth = a })
  connect_url env (inr url, a) c =
      connect_dialed env (Ws.connect env.dial url c.ws) (record c { auth = a })

  abbrev pub connect_authenticated : Env A C → Option Error × A → Conn A C → Option Error × Conn A C
  connect_authenticated env (some e, a) c = (some e, emit (first_failure e) (record c { auth = a }))
  connect_authenticated env (none, a) c =
      connect_url env (env.get_authenticate_url (ws_base env.opts) a) (record c { auth = a })

  -- The listener of `AuthTokenExpired` makes this call, too.
  unfoldable pub connect : Env A C → Conn A C → Option Error × Conn A C
  connect env c =
      if c.resetting
      then (none, c)
      else let c' = emit (connecting 1) c in
        if env.opts.auto_authenticate
        then connect_authenticated env (env.authenticate c'.auth) c'
        else connect_url env (env.get_authenticate_url (ws_base env.opts) c'.auth) c'

  unfoldable pub on_close : Env A C → Error → Conn A C → Conn A C
  on_close env e c =
      let c' = emit (closed (some e)) c in
      let c'' = record c' { channels = env.pending_subscribe_all_channels c'.channels } in
      if not c''.intentional_disconnect && env.opts.auto_reconnect
      then record c'' { spawned = suc c''.spawned }
      else c''

  -- `tryReconnect` up to its sleep.
  unfoldable pub try_reconnect : Env A C → Conn A C → Conn A C
  try_reconnect env c =
      if c.is_reconnecting
      then c
      else if at_least c.reconnect_attempts env.opts.max_reconnect_attempts
      then c
      else record c {
        is_reconnecting = true;
        reconnect_attempts = suc c.reconnect_attempts;
        sleeping = suc c.sleeping;
      }

  -- The end of `tryReconnect`, after its call of `Connect`.
  unfoldable pub settle : Conn A C → Conn A C
  settle c = record c { is_reconnecting = false }

  -- `tryReconnect` from the end of its sleep.
  unfoldable pub reconnect : Env A C → Conn A C → Conn A C
  reconnect env c = settle (connect env c).1

  unfoldable pub disconnect : Conn A C → Conn A C
  disconnect c =
      let c' = emit closing (record c { intentional_disconnect = true }) in
      emit (closed none) (record c' { ws = Ws.disconnect c'.ws })

  unfoldable pub is_connected : Conn A C → Bool
  is_connected c = Ws.is_connected c.ws

  unfoldable pub is_resetting : Conn A C → Bool
  is_resetting c = c.resetting

  -- The listeners, which `Reset` drops, are not in the state.
  unfoldable pub reset : Conn A C → Conn A C
  reset c =
      let c' = cancel_last c.read_cancel (record c { resetting = true }) in
      record c' {
        ws = Ws.reset c'.ws;
        reconnect_attempts = 0;
        is_reconnecting = false;
        intentional_disconnect = false;
        resetting = false;
      }

  unfoldable pub handle_auth_fail : Option Error → Conn A C → Conn A C
  handle_auth_fail e c =
      disconnect (emit (failed (record { error = e; attempt = 0; context = [] })) c)
