-- ===== src/Connection/Lost.antt =====
-- What follows the loss of a connection (connection/connection.go).
use qpub_go.Prelude.{
  ℕ, suc, Bool, true, false, Option, none, some, List, [], ◌∷◌, ◌++◌, ◌≡◌, ◌⊎◌, inl, inr, refl, ap,
  ◌∙◌, arith,
}
use qpub_go.Prelude.Text.{Text}
use qpub_go.Ws
use qpub_go.Ws.{Error}
use qpub_go.Connection.Types.{Env, Conn, Reader, connecting}
use qpub_go.Connection.Ops.{
  at_least, emit, ws_base, connect, connect_dialed, connect_url, connect_authenticated,
  try_reconnect, settle, on_close, is_connected,
}
use qpub_go.Connection.Steps.{Run, begins, wakes, settles, reads, fails, stay, takes}
use qpub_go.Connection.Budget.{connect_opened-Kept}
use qpub_go.Connection.Endings.{Run-Quiet}

module _ {A C : Type 0} (env : Env A C) where
  -- A connection that is lost while the goroutine that made it is still in `Connect`, where it waits
  -- for the resubscriptions, may stay lost: the goroutine that its read loop starts sees the other
  -- one and gives up, the other one ends, and nothing but a call of `Connect` or `Reset` dials again,
  -- though the caller did not disconnect and no attempt was spent.
  pub lost_again :
      (c : Conn A C) (loop : ℕ) (e : Error)
      → env.opts.auto_reconnect ≡ true
      → c.readers ≡ record { loop = loop; cancelled = false; reading = false } ∷ []
      → c.is_reconnecting ≡ true
      → c.dialing ≡ 1
      → c.spawned ≡ 0
      → c.sleeping ≡ 0
      → c.intentional_disconnect ≡ false
      → (d : Conn A C) × Run env 0 c d
        × (d.intentional_disconnect ≡ false)
        × (d.is_reconnecting ≡ false)
        × (d.reconnect_attempts ≡ c.reconnect_attempts)
        × ((f : Conn A C) → Run env 0 d f → f.ws.dials ≡ c.ws.dials)
  unfolding on_close try_reconnect settle
  lost_again c loop e auto reads_one trying one none_spawned none_sleeps wanted = (
    _,
    takes
        (takes (takes (takes stay (reads [] [] loop reads_one)) (fails [] [] loop false e refl))
          (begins 0 (ground arith)))
        (settles 0 (ground arith)),
    ground arith,
    refl,
    ground arith,
    λ f r. (Run-Quiet env c.ws.dials 0 refl (ground arith) r).3,
  )

  -- The client is connected, by one more dial.
  abbrev Connected : Conn A C → Conn A C → Type 0
  Connected c d = (is_connected d ≡ true) × (d.ws.dials ≡ suc c.ws.dials)

  connect_dialed-Connected :
      (r : Option Error × Ws.Client) (c d : Conn A C)
      → r.0 ≡ none
      → Ws.is_connected r.1 ≡ true
      → r.1.dials ≡ suc c.ws.dials
      → Connected c (connect_dialed env r d).1
  unfolding is_connected
  connect_dialed-Connected (none, client) c d h up dials =
      ground (arith, connect_opened-Kept env (record d { ws = client }))
  connect_dialed-Connected (some e, client) c d h up dials = ground arith

  connect_url-Connected :
      (r : (Error ⊎ Text) × A) (c : Conn A C) (url : Text)
      → r.0 ≡ inr url
      → ((n : ℕ) (u : Text) → env.dial n u ≡ none)
      → Connected c (connect_url env r c).1
  unfolding Ws.connect Ws.is_connected
  connect_url-Connected (inl e, a) c url h dials = ground arith
  connect_url-Connected (inr u, a) c url h dials =
      connect_dialed-Connected (Ws.connect env.dial u c.ws) c (record c { auth = a })
        (rw (dials c.ws.dials u) refl) (rw (dials c.ws.dials u) refl) (rw (dials c.ws.dials u) refl)

  connect_authenticated-Connected :
      (r : Option Error × A) (c : Conn A C)
      → r.0 ≡ none
      → ((base : Text) (a : A) → (url : Text) × ((env.get_authenticate_url base a).0 ≡ inr url))
      → ((n : ℕ) (u : Text) → env.dial n u ≡ none)
      → Connected c (connect_authenticated env r c).1
  connect_authenticated-Connected (some e, a) c h urls dials = ground arith
  connect_authenticated-Connected (none, a) c h urls dials =
      let (url, eq) = urls (ws_base env.opts) a in
      connect_url-Connected (env.get_authenticate_url (ws_base env.opts) a) (record c { auth = a })
        url eq dials

  connect-Connected :
      (c : Conn A C)
      → ((a : A) → (env.authenticate a).0 ≡ none)
      → ((base : Text) (a : A) → (url : Text) × ((env.get_authenticate_url base a).0 ≡ inr url))
      → ((n : ℕ) (u : Text) → env.dial n u ≡ none)
      → c.resetting ≡ false
      → Connected c (connect env c).1
  unfolding connect
  connect-Connected c authentic urls dials live =
      let (url, eq) = urls (ws_base env.opts) c.auth in
      ground (
        arith,
        connect_authenticated-Connected (env.authenticate c.auth) (emit (connecting 1) c)
            (authentic c.auth) urls dials,
        connect_url-Connected (env.get_authenticate_url (ws_base env.opts) c.auth)
            (emit (connecting 1) c) url eq dials,
      )

  redials :
      (c d : Conn A C) (n : ℕ)
      → Run env 0 c d
      → d.sleeping ≡ suc n
      → d.ws.dials ≡ c.ws.dials
      → d.resetting ≡ false
      → ((a : A) → (env.authenticate a).0 ≡ none)
      → ((base : Text) (a : A) → (url : Text) × ((env.get_authenticate_url base a).0 ≡ inr url))
      → ((m : ℕ) (u : Text) → env.dial m u ≡ none)
      → (f : Conn A C) × Run env 0 c f × Connected c f
  redials c d n r sleeps same live authentic urls dials =
      let (up, more) =
        connect-Connected (record d { sleeping = n; dialing = suc d.dialing }) authentic urls dials
          live in
      (_, takes r (wakes n sleeps), (up, more ∙ ap suc same))

  -- A connection that is lost is dialed again, with `AutoReconnect`, while attempts are left, no other
  -- reconnection and no `Reset` is under way, and the caller has not disconnected: the goroutines can go
  -- on until the client is connected, where authentication and the dial succeed.
  pub lost_dials :
      (c : Conn A C) (before after : List Reader) (loop : ℕ) (cancelled : Bool) (e : Error)
      → env.opts.auto_reconnect ≡ true
      → ((a : A) → (env.authenticate a).0 ≡ none)
      → ((base : Text) (a : A) → (url : Text) × ((env.get_authenticate_url base a).0 ≡ inr url))
      → ((n : ℕ) (url : Text) → env.dial n url ≡ none)
      → c.readers ≡ before ++ record { loop = loop; cancelled = cancelled; reading = true } ∷ after
      → c.intentional_disconnect ≡ false
      → c.resetting ≡ false
      → c.is_reconnecting ≡ false
      → at_least c.reconnect_attempts env.opts.max_reconnect_attempts ≡ false
      → (d : Conn A C) × Run env 0 c d × ((is_connected d ≡ true) × (d.ws.dials ≡ suc c.ws.dials))
  unfolding on_close try_reconnect
  lost_dials c before after loop cancelled e auto authentic url dials reads_one wanted live idle
        left =
      redials c _ c.sleeping
        (takes (takes stay (fails before after loop cancelled e reads_one))
          (begins c.spawned (ground arith)))
        (ground arith) (ground arith) (ground arith) authentic url dials
