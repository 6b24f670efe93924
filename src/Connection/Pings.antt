-- ===== src/Connection/Pings.antt =====
-- `Ping` and `completePing` of connection/connection.go, and `handleMessage`. A ping's channel has
-- room for one value; `answers` has what was sent into it.
use qpub_go.Prelude.{
  ℕ, suc, ◌-◌, ℤ, pos, negsuc, Option, none, some, List, [], ◌∷◌, ◌++◌, inl, inr, ◌==◌,
  if◌then◌else◌, ◌⊎◌,
}
use qpub_go.Prelude.Text.{Text, codes}
use qpub_go.Protocol.Action.{ActionType}
use qpub_go.Protocol.Action
use qpub_go.Ws
use qpub_go.Ws.{Error, not_connected, ping_timeout, context_done}
use qpub_go.Connection.Types.{Env, Conn, Incoming, PendingPing, connected, disconnected, failed}
use qpub_go.Connection.Ops.{emit, is_connected, decimal}

unfoldable pub find_ping : ℕ → List PendingPing → Option PendingPing
find_ping n [] = none
find_ping n (p ∷ ps) = if p.id == n then some p else find_ping n ps

unfoldable pub delete_ping : ℕ → List PendingPing → List PendingPing
delete_ping n [] = []
delete_ping n (p ∷ ps) = if p.id == n then delete_ping n ps else p ∷ delete_ping n ps

-- `m[key] = p`
unfoldable pub put_ping : PendingPing → List PendingPing → List PendingPing
put_ping p ps = p ∷ delete_ping p.id ps

-- The frame of a ping.
abbrev ping_frame : ℕ → Text
ping_frame id = codes "{\"action\":12,\"id\":" ++ decimal (pos id) ++ codes "}"

-- What `Ping` does first: it returns an error, or waits for the answer to its number.
pub data PingReply : Type 0 where
  refused : Error → PingReply
  awaits : ℕ → PingReply

-- How the wait ends; the answer is a duration.
pub data PingWake : Type 0 where
  context_ended timed_out : PingWake
  answered : ℕ → PingWake

abbrev answer : ℕ → Option PendingPing → List (ℕ × ℕ) → List (ℕ × ℕ)
answer now none given = given
answer now (some p) given = (p.id, now - p.start) ∷ given

abbrev sent : ℕ → Option Error → PingReply
sent id none = awaits id
sent id (some e) = refused e

module _ {A C : Type 0} where
  unfoldable pub ping : Env A C → ℕ → Conn A C → PingReply × Conn A C
  ping env now c =
      let id = suc c.ping_counter in
      let c' = record c {
        ping_counter = id;
        pending_pings = put_ping (record { id = id; start = now }) c.pending_pings;
      } in
      if is_connected c
      then (sent id (Ws.send env.write (ping_frame id) c'.ws), c')
      else (refused not_connected, c)

  unfoldable pub end_ping : ℕ → PingWake → Conn A C → (Error ⊎ ℕ) × Conn A C
  end_ping id context_ended c = (inl context_done, c)
  end_ping id (answered rtt) c = (inr rtt, c)
  end_ping id timed_out c =
      (inl ping_timeout, record c { pending_pings = delete_ping id c.pending_pings })

  -- No ping has a negative number.
  unfoldable pub complete_ping : ℕ → ℤ → Conn A C → Conn A C
  complete_ping now (negsuc n) c = c
  complete_ping now (pos id) c = record c {
    pending_pings = delete_ping id c.pending_pings;
    answers = answer now (find_ping id c.pending_pings) c.answers;
  }

  abbrev handle_action : Env A C → ℕ → Text → ActionType → Incoming → Conn A C → Conn A C
  handle_action env now payload Action.connected m c =
      emit (connected m.connection_id m.connection_details) c
  handle_action env now payload Action.disconnected m c = emit disconnected c
  handle_action env now payload Action.pong m c = complete_ping now m.ping_id c
  handle_action env now payload a m c = record c { channels = env.dispatch payload c.channels }

  abbrev handle_decoded : Env A C → ℕ → Text → Error ⊎ Incoming → Conn A C → Conn A C
  handle_decoded env now payload (inl e) c =
      emit (failed (record { error = some e; attempt = 0; context = codes "message_processing" })) c
  handle_decoded env now payload (inr m) c = handle_action env now payload m.action m c

  unfoldable pub handle_message : Env A C → ℕ → Text → Conn A C → Conn A C
  handle_message env now payload c = handle_decoded env now payload (env.decode payload) c
