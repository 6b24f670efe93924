-- ===== src/Connection/Endings.antt =====
-- When the client of connection/connection.go stops dialing, and when it starts again.
use qpub_go.Prelude.{
  ℕ, suc, ◌+◌, ◌≤◌, Bool, true, Option, none, some, List, [], ◌∷◌, ◌++◌, ◌≡◌, refl, sym, ◌∙◌, arith,
  ◌⊎◌, inl, inr, ◌≢◌, Bool-cases, ◌==◌,
}
use qpub_go.Prelude.Text.{Text}
use qpub_go.Ws.{Error}
use qpub_go.Ws
use qpub_go.Connection.Types.{Env, Conn, Reader, connecting}
use qpub_go.Connection.Ops.{
  emit, ws_base, connect_url, connect_authenticated, cancel_last, connect, disconnect,
  handle_auth_fail, try_reconnect, settle, reconnect, cancel, on_close, reset,
}
use qpub_go.Connection.Pings.{ping, end_ping, handle_message, complete_ping}
use qpub_go.Connection.Steps.{
  Step, Run, disconnects, auth_fails, pings, ping_ends, context_ends, begins, wakes, settles, stops,
  reads, receives, fails, stay, connects, takes,
}
use qpub_go.Connection.Budget.{connect-Connects, allowed}

no_reader : (before after : List Reader) (r : Reader) → [] ≢ before ++ r ∷ after
no_reader [] after r e = cc
no_reader (x ∷ before) after r e = cc

module _ {A C : Type 0} (env : Env A C) where
  -- The caller wants the connection closed, and no goroutine of `tryReconnect` is left but at most
  -- `k`.
  abbrev Final : ℕ → Conn A C → Type 0
  Final k c = (c.intentional_disconnect ≡ true) × (c.spawned + c.sleeping ≤ k)

  handle_message-Final :
      (k now : ℕ) (payload : Text) (c : Conn A C)
      → Final k c
      → Final k (handle_message env now payload c)
  unfolding handle_message complete_ping
  handle_message-Final k now payload c h = ground arith

  Step-Final : (k : ℕ) {c d : Conn A C} → Final k c → Step env c d → Final k d
  unfolding disconnect handle_auth_fail ping end_ping cancel try_reconnect settle on_close
  Step-Final k h disconnects = ground arith
  Step-Final k h (auth_fails e) = ground arith
  Step-Final k h (pings now) = ground arith
  Step-Final k h (ping_ends id wake) = ground arith
  Step-Final k h (context_ends loop) = ground arith
  Step-Final k h (begins n e) = ground arith
  Step-Final k {c} h (wakes n e) =
      ground (arith, connect-Connects env (record c { sleeping = n; dialing = suc c.dialing }))
  Step-Final k h (settles n e) = ground arith
  Step-Final k h (stops before after loop e) = ground arith
  Step-Final k h (reads before after loop e) = ground arith
  Step-Final k h (receives before after loop now cancelled payload e) =
      handle_message-Final k now payload _ h
  Step-Final k h (fails before after loop cancelled e eq) = ground arith

  Run-Final : {k n : ℕ} {c d : Conn A C} → Final k c → Run env n c d → Final k d
  Run-Final h stay = h
  Run-Final h (connects {d} r) = ground (arith, Run-Final h r, connect-Connects env d)
  Run-Final {k} h (takes r s) = Step-Final k (Run-Final h r) s

  -- After `Disconnect` no new reconnection is started, whatever happens but for a call of `Reset`:
  -- those that had been started by then may still dial. Calls of `Connect` do not take it back, so a
  -- connection that such a call makes is not restored when it is lost.
  pub Disconnect-IsFinal :
      (n : ℕ) (c d : Conn A C)
      → Run env n (disconnect c) d
      → (d.intentional_disconnect ≡ true) × (d.spawned + d.sleeping ≤ c.spawned + c.sleeping)
  unfolding disconnect
  Disconnect-IsFinal n c d r = ground (
    arith,
    Run-Final {k = c.spawned + c.sleeping} {n = n} {c = disconnect c} (refl, omega arith) r,
  )

  -- No goroutine is left that could dial.
  abbrev pub Quiet : ℕ → Conn A C → Type 0
  Quiet dials c = (c.readers ≡ []) × (c.spawned ≡ 0) × (c.sleeping ≡ 0) × (c.ws.dials ≡ dials)

  Step-Quiet : (k : ℕ) {c d : Conn A C} → Quiet k c → Step env c d → Quiet k d
  unfolding disconnect handle_auth_fail ping end_ping cancel settle Ws.disconnect
  Step-Quiet k h disconnects = ground arith
  Step-Quiet k h (auth_fails e) = ground arith
  Step-Quiet k h (pings now) = ground arith
  Step-Quiet k h (ping_ends id wake) = ground arith
  Step-Quiet k h (context_ends loop) = rw (h.0) (refl, h.1, h.2, h.3)
  Step-Quiet k h (begins n e) = ground arith
  Step-Quiet k h (wakes n e) = ground arith
  Step-Quiet k h (settles n e) = ground arith
  Step-Quiet k h (stops before after loop e) = absurd (no_reader before after _ (sym h.0 ∙ e))
  Step-Quiet k h (reads before after loop e) = absurd (no_reader before after _ (sym h.0 ∙ e))
  Step-Quiet k h (receives before after loop now cancelled payload e) =
      absurd (no_reader before after _ (sym h.0 ∙ e))
  Step-Quiet k h (fails before after loop cancelled e eq) =
      absurd (no_reader before after _ (sym h.0 ∙ eq))

  pub Run-Quiet : (k n : ℕ) {c d : Conn A C} → n ≡ 0 → Quiet k c → Run env n c d → Quiet k d
  Run-Quiet k n z h stay = h
  Run-Quiet k n z h (connects r) = ground arith
  Run-Quiet k n z h (takes r s) = Step-Quiet k (Run-Quiet k n z h r) s

  abbrev Unread : Option Error × Conn A C → Conn A C → Type 0
  Unread r c = (e : Error) → r.0 ≡ some e → r.1.readers ≡ c.readers

  connect_url-Unread : (r : (Error ⊎ Text) × A) (c : Conn A C) → Unread (connect_url env r c) c
  unfolding Ws.connect
  connect_url-Unread r c e h = ground arith

  connect_authenticated-Unread :
      (r : Option Error × A) (c : Conn A C) → Unread (connect_authenticated env r c) c
  connect_authenticated-Unread (none, a) c e h =
      connect_url-Unread (env.get_authenticate_url (ws_base env.opts) a) (record c { auth = a }) e h
  connect_authenticated-Unread (some x, a) c e h = refl

  connect-Unread : (c : Conn A C) → Unread (connect env c) c
  unfolding connect
  connect-Unread c e h = ground (
    arith,
    connect_authenticated-Unread (env.authenticate c.auth) (emit (connecting 1) c) e,
    connect_url-Unread (env.get_authenticate_url (ws_base env.opts) c.auth) (emit (connecting 1) c)
        e,
  )

  -- A reconnection that fails is the last one, however many attempts are left: when the old read
  -- loop has ended and no other reconnection is under way, nothing but a call of `Connect` or
  -- `Reset` dials again.
  pub failed_reconnect_lem :
      (c d : Conn A C) (e : Error)
      → c.readers ≡ []
      → c.spawned ≡ 0
      → c.sleeping ≡ 0
      → (connect env c).0 ≡ some e
      → Run env 0 (reconnect env c) d
      → d.ws.dials ≡ (reconnect env c).ws.dials
  unfolding reconnect settle
  failed_reconnect_lem c d e none_reads none_spawned none_sleeps h r =
      let quiet : Quiet (connect env c).1.ws.dials (reconnect env c) =
        ground (arith, connect-Unread c e h, connect-Connects env c) in
      (Run-Quiet (connect env c).1.ws.dials 0 refl quiet r).3

  cancel_last-reading :
      (o : Option ℕ) (c : Conn A C) (loop : ℕ) (cancelled : Bool)
      → c.readers ≡ record { loop = loop; cancelled = cancelled; reading = true } ∷ []
      → (b : Bool) × ((cancel_last o c).readers
          ≡ record { loop = loop; cancelled = b; reading = true } ∷ [])
  unfolding cancel
  cancel_last-reading none c loop cancelled h = (cancelled, h)
  cancel_last-reading (some n) c loop cancelled h = elim (Bool-cases (loop == n)) [
    | inl e ↦ (true, rw (h, e) refl)
    | inr e ↦ (cancelled, rw (h, e) refl)
  ]

  -- After `Reset`, which also forgets an earlier `Disconnect`, a read loop that waited for a message
  -- fails, and starts a reconnection where the settings allow one.
  pub reset_reconnects :
      (c : Conn A C) (loop : ℕ) (cancelled : Bool) (e : Error)
      → env.opts.auto_reconnect ≡ true
      → 1 ≤ allowed env.opts.max_reconnect_attempts
      → c.readers ≡ record { loop = loop; cancelled = cancelled; reading = true } ∷ []
      → (d : Conn A C) × Run env 0 (reset c) d × (d.sleeping ≡ suc c.sleeping)
  unfolding reset on_close try_reconnect cancel
  reset_reconnects c loop cancelled e auto some_allowed h =
      let (b, eq) =
        cancel_last-reading c.read_cancel (record c { resetting = true }) loop cancelled h in
      (
        _,
        takes (takes stay (fails [] [] loop b e eq)) (begins c.spawned (ground arith)),
        ground arith,
      )
