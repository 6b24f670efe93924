-- ===== src/Tests/Connection.antt =====
-- Inputs for the theorems about the connection: its managers have a number each as their state, and
-- dialing succeeds as often as the test says.
use qpub_go.Prelude.{
  ℕ, suc, ◌+◌, ◌-◌, ◌≤◌, pos, true, false, Option, none, some, [], ◌∷◌, ◌≡◌, inl, inr, refl, arith,
  ltb, ◌==◌, if◌then◌else◌,
}
use qpub_go.Prelude.Text.{Text}
use qpub_go.Options.{default_option}
use qpub_go.Ws.{Error, failure}
use qpub_go.Ws
use qpub_go.Connection.Types.{Env, Conn}
use qpub_go.Connection.Ops.{
  new_conn, connect, start_read_loop, disconnect, reset, reconnect, is_connected, connect_opened,
  cancel,
}
use qpub_go.Connection.Pings.{ping, end_ping, find_ping, timed_out, complete_ping}
use qpub_go.Connection.Steps.{Run, stay, connects, takes, disconnects}
use qpub_go.Connection.Budget.{Run-dials}
use qpub_go.Connection.Endings.{Disconnect-IsFinal, failed_reconnect_lem, reset_reconnects}
use qpub_go.Connection.Answers.{complete_ping-ping}

-- The first `n` dials succeed.
abbrev dials_well : ℕ → ℕ → Text → Option Error
dials_well n i url = if ltb i n then none else some (failure i)

abbrev env : ℕ → Env ℕ ℕ
env n = record {
  opts = default_option;
  authenticate = λ a. (none, a);
  get_authenticate_url = λ base a. (inr base, a);
  dial = dials_well n;
  write = λ conn payload. none;
  resubscribe_after_reconnect = λ ch. suc ch;
  pending_subscribe_all_channels = λ ch. suc ch;
  dispatch = λ payload ch. ch;
  decode = λ payload. inl (failure 0);
}

abbrev fresh : Conn ℕ ℕ
fresh = new_conn 0 0

abbrev online : Conn ℕ ℕ
online = (connect (env 1) fresh).1

Run-dials_example : (connect (env 1) fresh).1.ws.dials ≤ 1 + 10
unfolding default_option
Run-dials_example = Run-dials (env 1) 0 0 1 (connect (env 1) fresh).1 (connects stay)

Disconnect-IsFinal_example :
    ((connect (env 1) (disconnect fresh)).1.intentional_disconnect ≡ true)
    × ((connect (env 1) (disconnect fresh)).1.spawned
          + (connect (env 1) (disconnect fresh)).1.sleeping
        ≤ fresh.spawned + fresh.sleeping)
Disconnect-IsFinal_example =
    Disconnect-IsFinal (env 1) 1 fresh (connect (env 1) (disconnect fresh)).1 (connects stay)

offline : (connect (env 0) fresh).0 ≡ some (failure 0)
unfolding connect Ws.connect new_conn default_option
offline = refl

failed_reconnect_lem_example :
    (disconnect (reconnect (env 0) fresh)).ws.dials ≡ (reconnect (env 0) fresh).ws.dials
unfolding new_conn
failed_reconnect_lem_example =
    failed_reconnect_lem (env 0) fresh (disconnect (reconnect (env 0) fresh)) (failure 0) refl refl
      refl offline (takes stay disconnects)

-- A connection whose read loop waits.
abbrev reading : Conn ℕ ℕ
reading = record online { readers = record { loop = 0; cancelled = false; reading = true } ∷ [] }

reset_reconnects_example :
    (d : Conn ℕ ℕ) × Run (env 1) 0 (reset reading) d × (d.sleeping ≡ suc reading.sleeping)
unfolding default_option
reset_reconnects_example =
    reset_reconnects (env 1) reading 0 false (failure 9) refl (omega arith) refl

online_lem : is_connected online ≡ true
unfolding is_connected connect connect_opened Ws.connect Ws.is_connected start_read_loop cancel
    new_conn default_option
online_lem = refl

complete_ping-ping_example :
    let id = suc online.ping_counter in
    let d = (ping (env 1) 100 online).1 in
    ((complete_ping 130 (pos id) d).answers ≡ (id, 130 - 100) ∷ online.answers)
    × (find_ping 5 (complete_ping 130 (pos id) d).pending_pings
        ≡ (if 5 == id then none else find_ping 5 online.pending_pings))
    × (find_ping 5 (end_ping id timed_out d).1.pending_pings
        ≡ (if 5 == id then none else find_ping 5 online.pending_pings))
complete_ping-ping_example = complete_ping-ping (env 1) online 100 130 5 online_lem
