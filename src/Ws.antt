-- ===== src/Ws.antt =====
-- transport/ws/client.go: the client of one WebSocket. A connection of the WebSocket library is the
-- number of the dial that made it; dialing and writing are the library's.
use qpub_go.Prelude.{ℕ, suc, Bool, true, false, Option, none, some}
use qpub_go.Prelude.Text.{Text}

-- A Go `error`, by what is told about it: `websocket.ErrCloseSent` is the client's own.
pub data Error : Type 0 where
  close_sent : Error
  not_connected ping_timeout context_done : Error
  failure : ℕ → Error

pub record Client : Type 0 where
  pub conn : Option ℕ
  pub dials : ℕ

abbrev pub new_client : Client
new_client = record { conn = none; dials = 0 }

abbrev after_dial : Option Error → Client → Option Error × Client
after_dial none c = (none, record c { conn = some c.dials; dials = suc c.dials })
after_dial (some e) c = (some e, record c { conn = none; dials = suc c.dials })

-- A connection that is open is closed before the dial.
unfoldable pub connect : (ℕ → Text → Option Error) → Text → Client → Option Error × Client
connect dial url c = after_dial (dial c.dials url) c

abbrev connected : Option ℕ → Bool
connected none = false
connected (some n) = true

unfoldable pub is_connected : Client → Bool
is_connected c = connected c.conn

unfoldable pub send : (ℕ → Text → Option Error) → Text → Client → Option Error
send write payload c = elim c.conn [ none ↦ some close_sent | some n ↦ write n payload ]

unfoldable pub disconnect : Client → Client
disconnect c = record c { conn = none }

unfoldable pub reset : Client → Client
reset c = disconnect c
