-- ===== src/Connection/Budget.antt =====
-- How often the client of connection/connection.go dials again.
use qpub_go.Prelude.{
  ℕ, suc, ◌+◌, ◌≤◌, ℤ, pos, negsuc, false, Option, none, some, ◌≡◌, arith, inl, inr, ◌⊎◌,
}
use qpub_go.Ws.{Error}
use qpub_go.Ws
use qpub_go.Prelude.Text.{Text}
use qpub_go.Connection.Types.{Env, Conn, opened, connecting}
use qpub_go.Connection.Ops.{
  at_least, emit, ws_base, connect_dialed, connect_url, connect_authenticated, new_conn, connect,
  connect_opened, disconnect, handle_auth_fail, try_reconnect, settle, cancel, on_close,
  start_read_loop,
}
use qpub_go.Connection.Pings.{ping, end_ping, handle_message, complete_ping}
use qpub_go.Connection.Steps.{
  Step, Run, disconnects, auth_fails, pings, ping_ends, context_ends, begins, wakes, settles, stops,
  reads, receives, fails, stay, connects, takes,
}

-- `MaxReconnectAttempts`, where a negative number allows none.
abbrev pub allowed : ℤ → ℕ
allowed (pos m) = m
allowed (negsuc m) = 0

module _ {A C : Type 0} where
  -- What a call of `Connect` leaves alone.
  abbrev pub Kept : Conn A C → Conn A C → Type 0
  Kept c d =
      (d.reconnect_attempts ≡ c.reconnect_attempts)
      × (d.sleeping ≡ c.sleeping)
      × (d.spawned ≡ c.spawned)
      × (d.intentional_disconnect ≡ c.intentional_disconnect)

  start_read_loop-Kept :
      (c : Conn A C) → Kept c (start_read_loop c) × ((start_read_loop c).ws ≡ c.ws)
  unfolding start_read_loop cancel
  start_read_loop-Kept c = ground arith

  module _ (env : Env A C) where
    pub connect_opened-Kept :
        (c : Conn A C) → Kept c (connect_opened env c) × ((connect_opened env c).ws ≡ c.ws)
    unfolding connect_opened
    connect_opened-Kept c = ground (arith, start_read_loop-Kept (emit opened c))

    -- One dial at most, and the counters of reconnections are as before.
    abbrev pub Connects : Conn A C → Conn A C → Type 0
    Connects c d = Kept c d × (d.ws.dials ≤ suc c.ws.dials)

    connect_dialed-Connects :
        (r : Option Error × Ws.Client) (c : Conn A C)
        → r.1.dials ≤ suc c.ws.dials
        → Connects c (connect_dialed env r c).1
    connect_dialed-Connects (none, client) c h =
        ground (arith, connect_opened-Kept (record c { ws = client }))
    connect_dialed-Connects (some e, client) c h = ground arith

    connect_url-Connects :
        (r : (Error ⊎ Text) × A) (c : Conn A C) → Connects c (connect_url env r c).1
    unfolding Ws.connect
    connect_url-Connects (inl e, a) c = ground arith
    connect_url-Connects (inr url, a) c =
        connect_dialed-Connects (Ws.connect env.dial url c.ws) (record c { auth = a })
          (ground arith)

    connect_authenticated-Connects :
        (r : Option Error × A) (c : Conn A C) → Connects c (connect_authenticated env r c).1
    connect_authenticated-Connects (none, a) c =
        connect_url-Connects (env.get_authenticate_url (ws_base env.opts) a) (record c { auth = a })
    connect_authenticated-Connects (some e, a) c = ground arith

    pub connect-Connects : (c : Conn A C) → Connects c (connect env c).1
    unfolding connect
    connect-Connects c = ground (
      arith,
      connect_authenticated-Connects (env.authenticate c.auth) (emit (connecting 1) c),
      connect_url-Connects (env.get_authenticate_url (ws_base env.opts) c.auth)
          (emit (connecting 1) c),
    )

    -- Each dial is one of `n` calls or pays for one reconnection that has begun.
    abbrev Paid : ℕ → Conn A C → Type 0
    Paid n c =
        (c.ws.dials + c.sleeping ≤ n + c.reconnect_attempts)
        × (c.reconnect_attempts ≤ allowed env.opts.max_reconnect_attempts)

    at_least-allowed : (n : ℕ) (m : ℤ) → at_least n m ≡ false → suc n ≤ allowed m
    at_least-allowed n (pos m) h = ground arith
    at_least-allowed n (negsuc m) h = ground arith

    handle_message-Paid :
        (n now : ℕ) (payload : Text) (c : Conn A C)
        → Paid n c
        → Paid n (handle_message env now payload c)
    unfolding handle_message complete_ping
    handle_message-Paid n now payload c h = ground arith

    Step-Paid : (n : ℕ) {c d : Conn A C} → Paid n c → Step env c d → Paid n d
    unfolding disconnect handle_auth_fail ping end_ping cancel try_reconnect settle on_close
        Ws.disconnect
    Step-Paid n h disconnects = ground arith
    Step-Paid n h (auth_fails e) = ground arith
    Step-Paid n h (pings now) = ground arith
    Step-Paid n h (ping_ends id wake) = ground arith
    Step-Paid n h (context_ends loop) = ground arith
    Step-Paid k {c} h (begins n e) =
        ground (arith, at_least-allowed c.reconnect_attempts env.opts.max_reconnect_attempts)
    Step-Paid k {c} h (wakes n e) =
        ground (arith, connect-Connects (record c { sleeping = n; dialing = suc c.dialing }))
    Step-Paid k h (settles n e) = ground arith
    Step-Paid n h (stops before after loop e) = ground arith
    Step-Paid n h (reads before after loop e) = ground arith
    Step-Paid n {c} h (receives before after loop now cancelled payload e) =
        handle_message-Paid n now payload _ h
    Step-Paid n h (fails before after loop cancelled e eq) = ground arith

    Run-Paid : {n : ℕ} {c d : Conn A C} → Paid 0 c → Run env n c d → Paid n d
    Run-Paid h stay = h
    Run-Paid h (connects {d} r) = ground (arith, Run-Paid h r, connect-Connects d)
    Run-Paid {n} h (takes r s) = Step-Paid n (Run-Paid h r) s

    -- However often the connection is made and lost, a client dials at most once for each of the
    -- `n` calls of `Connect` and `MaxReconnectAttempts` times besides: without a call of `Reset` a
    -- successful reconnection gives no new attempts.
    pub Run-dials :
        (a : A) (ch : C) (n : ℕ) (c : Conn A C)
        → Run env n (new_conn a ch) c
        → c.ws.dials ≤ n + allowed env.opts.max_reconnect_attempts
    unfolding new_conn
    Run-dials a ch n c r = ground (arith, Run-Paid {n = n} {c = new_conn a ch} (omega arith) r)
