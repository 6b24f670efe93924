-- ===== src/Connection/Steps.antt =====
-- The interleavings of connection/connection.go: a step is what one goroutine does until it next
-- waits; `Connect` waits at its end, for the resubscriptions. A run counts the calls of `Connect` from outside, and has no call of `Reset`.
use qpub_go.Prelude.{ℕ, suc, Bool, true, false, Option, List, ◌∷◌, ◌++◌, ◌≡◌}
use qpub_go.Prelude.Text.{Text}
use qpub_go.Ws.{Error}
use qpub_go.Connection.Types.{Env, Conn, Reader}
use qpub_go.Connection.Ops.{
  connect, disconnect, handle_auth_fail, try_reconnect, settle, cancel, on_close,
}
use qpub_go.Connection.Pings.{PingWake, ping, end_ping, handle_message}

module _ {A C : Type 0} (env : Env A C) where
  pub data Step : Conn A C → Conn A C → Type 0 where
    disconnects : {c : Conn A C} → Step c (disconnect c)
    auth_fails : {c : Conn A C} (e : Option Error) → Step c (handle_auth_fail e c)
    pings : {c : Conn A C} (now : ℕ) → Step c (ping env now c).1
    ping_ends : {c : Conn A C} (id : ℕ) (wake : PingWake) → Step c (end_ping id wake c).1
    context_ends : {c : Conn A C} (loop : ℕ) → Step c (cancel loop c)
    begins :
        {c : Conn A C} (n : ℕ)
        → c.spawned ≡ suc n
        → Step c (try_reconnect env (record c { spawned = n }))
    wakes :
        {c : Conn A C} (n : ℕ)
        → c.sleeping ≡ suc n
        → Step c (connect env (record c { sleeping = n; dialing = suc c.dialing })).1
    settles :
        {c : Conn A C} (n : ℕ) → c.dialing ≡ suc n → Step c (settle (record c { dialing = n }))
    stops :
        {c : Conn A C} (before after : List Reader) (loop : ℕ)
        → c.readers ≡ before ++ record { loop = loop; cancelled = true; reading = false } ∷ after
        → Step c (record c { readers = before ++ after })
    reads :
        {c : Conn A C} (before after : List Reader) (loop : ℕ)
        → c.readers ≡ before ++ record { loop = loop; cancelled = false; reading = false } ∷ after
        → Step c (record c {
          readers = before ++ record { loop = loop; cancelled = false; reading = true } ∷ after;
        })
    receives :
        {c : Conn A C} (before after : List Reader) (loop now : ℕ) (cancelled : Bool)
        (payload : Text)
        → c.readers
          ≡ before ++ record { loop = loop; cancelled = cancelled; reading = true } ∷ after
        → Step c (
            handle_message env now payload (record c {
              readers =
                  before ++ record { loop = loop; cancelled = cancelled; reading = false } ∷ after;
            }))
    fails :
        {c : Conn A C} (before after : List Reader) (loop : ℕ) (cancelled : Bool) (e : Error)
        → c.readers
          ≡ before ++ record { loop = loop; cancelled = cancelled; reading = true } ∷ after
        → Step c (on_close env e (record c { readers = before ++ after }))

  pub data Run : ℕ → Conn A C → Conn A C → Type 0 where
    stay : {c : Conn A C} → Run 0 c c
    connects : {n : ℕ} {c d : Conn A C} → Run n c d → Run (suc n) c (connect env d).1
    takes : {n : ℕ} {c d e : Conn A C} → Run n c d → Step d e → Run n c e
