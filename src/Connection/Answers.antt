-- ===== src/Connection/Answers.antt =====
-- The pings of connection/connection.go and their answers.
use qpub_go.Prelude.{ℕ, suc, ◌-◌, pos, true, none, List, [], ◌∷◌, ◌≡◌, arith, ◌==◌, if◌then◌else◌}
use qpub_go.Connection.Types.{Env, Conn, PendingPing}
use qpub_go.Connection.Ops.{is_connected}
use qpub_go.Connection.Pings.{
  find_ping, delete_ping, put_ping, ping, end_ping, timed_out, complete_ping,
}

find_ping-delete_ping :
    (j i : ℕ) (ps : List PendingPing)
    → find_ping j (delete_ping i ps) ≡ (if j == i then none else find_ping j ps)
unfolding find_ping delete_ping
find_ping-delete_ping j i [] = ground arith
find_ping-delete_ping j i (p ∷ ps) = ground (arith, find_ping-delete_ping j i ps)

module _ {A C : Type 0} (env : Env A C) where
  -- The pong with the number of the last ping is answered with the time that has passed since it was
  -- sent, and then that ping is pending no more, nor is it after its timeout; all other pings are
  -- pending as they were.
  pub complete_ping-ping :
      (c : Conn A C) (now later j : ℕ)
      → is_connected c ≡ true
      → let id = suc c.ping_counter in
        let d = (ping env now c).1 in
        ((complete_ping later (pos id) d).answers ≡ (id, later - now) ∷ c.answers)
        × (find_ping j (complete_ping later (pos id) d).pending_pings
            ≡ (if j == id then none else find_ping j c.pending_pings))
        × (find_ping j (end_ping id timed_out d).1.pending_pings
            ≡ (if j == id then none else find_ping j c.pending_pings))
  unfolding ping complete_ping end_ping put_ping find_ping delete_ping
  complete_ping-ping c now later j h = ground (
    arith,
    find_ping-delete_ping j (suc c.ping_counter) c.pending_pings,
    find_ping-delete_ping j (suc c.ping_counter) (delete_ping (suc c.ping_counter) c.pending_pings),
  )
