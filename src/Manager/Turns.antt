-- ===== src/Manager/Turns.antt =====
-- One channel's turn in the loop of resubscriptions (`ResubscribeAfterReconnect` of channel/socket.go).
use qpub_go.Prelude.{
  ℕ, zero, suc, ◌==◌, true, false, some, none, List, [], ◌∷◌, ◌≡◌, ◌∙◌, ◌⊎◌, ap, sym, refl, arith,
  get_elem?, set, All, Bool-cases, inl, inr, get_elem?-set,
}
use qpub_go.Prelude.Text.{Text, codes, same_refl}
use qpub_go.Protocol.Action.{subscribed}
use qpub_go.Protocol.Messages.{WireMessage}
use qpub_go.Channel.Types.{MessageSender, SocketChannel, Frame, subscribe_frame}
use qpub_go.Channel.Monad.{ok}
use qpub_go.Channel.Handlers.{has_callback_locked}
use qpub_go.Channel.Calls.{needs_resubscribe}
use qpub_go.Channel.Wait.{Reply, returned, waits, default_timeout, acked, wait_ack}
use qpub_go.Channel.Incoming.{handle_incoming}
use qpub_go.Channel.Subscribe.{resubscribe}
use qpub_go.Channel.Acks.{IsFor, acknowledged}
use qpub_go.Channel.Invariant.{Inv}
use qpub_go.Channel.Recovery.{lost, again, resubscribe_waits, resumed, answer_taken, wait_ended}
use qpub_go.Manager.Ops.{SocketManager, on_channel, finished, waits_at, done, resubscribe_each}
use qpub_go.Manager.Counts.{on_channel_lem}
use qpub_go.Manager.Marked.{lost_needs}

-- The loop from these addresses on: it ends, or it waits, the server's answer comes, the wait ends
-- without an error, and the loop goes on.
pub data Loop (ws : MessageSender) (answer : Text → WireMessage)
    : List ℕ → SocketManager → SocketManager → Type 0 where
  ends :
      {addresses : List ℕ} {m n : SocketManager}
      → resubscribe_each ws needs_resubscribe addresses m ≡ done finished n
      → Loop ws answer addresses m n
  goes_on :
      {addresses rest : List ℕ} {m n q k l : SocketManager} {a : ℕ} {r : Reply} (name : Text)
      → resubscribe_each ws needs_resubscribe addresses m ≡ done (waits_at a r rest) q
      → on_channel a (handle_incoming ws (some (answer name))) q ≡ done (returned none) k
      → on_channel a (wait_ack r acked) k ≡ done (returned none) l
      → Loop ws answer rest l n
      → Loop ws answer addresses m n

-- A channel that was lost, with nothing queued, or that is back.
abbrev pub Lost : SocketChannel → Type 0
Lost d = (c : SocketChannel) × (d ≡ lost c) × Inv c × (c.operation_queue ≡ [])

abbrev pub Back : SocketChannel → Type 0
Back d = (d.mu ≡ false) × (d.reconnect_pending ≡ false) × (d.subscribed ≡ true)

abbrev pub Served : SocketChannel → Type 0
Served d = (has_callback_locked d ≡ false) ⊎ Back d

abbrev pub At : (SocketChannel → Type 0) → SocketManager → ℕ → Type 0
At P m a = (d : SocketChannel) × (get_elem? m.heap a ≡ some d) × P d

set_same : {A : Type 0} (xs : List A) (i : ℕ) (x : A) → get_elem? xs i ≡ some x → set xs i x ≡ xs
set_same [] i x e = refl
set_same (y ∷ xs) zero x e = let same_one : y ≡ x = ground arith in rw same_one refl
set_same (y ∷ xs) (suc i) x e = ap (λ zs. y ∷ zs) (set_same xs i x e)

pub looked_at :
    (m : SocketManager) (a : ℕ) (c : SocketChannel)
    → get_elem? m.heap a ≡ some (lost c)
    → on_channel a needs_resubscribe m ≡ done (has_callback_locked c) m
looked_at m a c there =
    on_channel_lem a needs_resubscribe m there (lost_needs c)
    ∙ rw (set_same m.heap a (lost c) there) refl

same-Loop :
    (ws : MessageSender) (answer : Text → WireMessage) (a : ℕ) (rest : List ℕ) (m n : SocketManager)
    → on_channel a needs_resubscribe m ≡ done false m
    → Loop ws answer rest m n
    → Loop ws answer (a ∷ rest) m n
unfolding resubscribe_each
same-Loop ws answer a rest m n e (ends done_here) = ends (rw e done_here)
same-Loop ws answer a rest m n e (goes_on name stops answered over more) =
    goes_on name (rw e stops) answered over more

set_twice : {A : Type 0} (xs : List A) (i : ℕ) (x y : A) → set (set xs i x) i y ≡ set xs i y
set_twice [] i x y = refl
set_twice (z ∷ xs) zero x y = refl
set_twice (z ∷ xs) (suc i) x y = ap (λ zs. z ∷ zs) (set_twice xs i x y)

pub get_elem?-set_here :
    {A : Type 0} (xs : List A) (i : ℕ) (x y : A)
    → get_elem? xs i ≡ some x
    → get_elem? (set xs i y) i ≡ some y
get_elem?-set_here xs i x y e = ground (arith, get_elem?-set xs i i y)

-- One channel's turn.
pub turn :
    (ws : MessageSender) (answer : Text → WireMessage) (a : ℕ) (rest : List ℕ) (c : SocketChannel)
    (m : SocketManager)
    → ((f : Frame) → ws.send f ≡ none)
    → ((name : Text) → (answer name).channel ≡ name)
    → ((name : Text) → (answer name).action ≡ subscribed)
    → get_elem? m.heap a ≡ some (lost c)
    → Inv c
    → c.operation_queue ≡ []
    → has_callback_locked c ≡ true
    → (d : SocketChannel) × Back d
      × ((n : SocketManager)
          → Loop ws answer rest (record m { heap = set m.heap a d }) n
          → Loop ws answer (a ∷ rest) m n)
unfolding resubscribe_each
turn ws answer a rest c m sends named acks there v empty used =
    let wire = answer c.name in
    let here : IsFor wire c = rw (named c.name, same_refl) (ground arith) in
    let q = record m { heap = set m.heap a (again c) } in
    let k = record m { heap = set q.heap a (acknowledged wire (again c)) } in
    let at_q : get_elem? q.heap a ≡ some (again c) =
      get_elem?-set_here m.heap a (lost c) (again c) there in
    (
      resumed wire c,
      (refl, refl, refl),
      λ n more.
          goes_on {rest = rest} c.name
            (rw (looked_at m a c there, used)
              (rw
                (on_channel_lem a (resubscribe ws) m there
                  (resubscribe_waits ws c used (sends (subscribe_frame c.name))))
                refl))
            (on_channel_lem a (handle_incoming ws (some wire)) q at_q
              (answer_taken ws wire c empty here (acks c.name)))
            (on_channel_lem a
              (wait_ack (waits c.next_done default_timeout (codes "subscribe")) acked) k
              (get_elem?-set_here q.heap a (again c) (acknowledged wire (again c)) at_q)
              (wait_ended wire c))
            (rw
              (
                set_twice m.heap a (again c) (acknowledged wire (again c)),
                set_twice m.heap a (acknowledged wire (again c)) (resumed wire c),
              )
              more),
    )

pub after_set :
    (P : SocketChannel → Type 0) (m : SocketManager) (a b : ℕ) (old d : SocketChannel)
    → get_elem? m.heap a ≡ some old
    → P d
    → At P m b
    → At P (record m { heap = set m.heap a d }) b
after_set P m a b old d there p (e, at_b, q) = elim (Bool-cases (a == b)) [
  | inl same_one ↦ (d, ground (arith, get_elem?-set m.heap a b d), p)
  | inr other ↦ (e, ground (arith, get_elem?-set m.heap a b d), q)
]

pub All-after_set :
    (P : SocketChannel → Type 0) (m : SocketManager) (a : ℕ) (bs : List ℕ) (old d : SocketChannel)
    → get_elem? m.heap a ≡ some old
    → P d
    → All (At P m) bs
    → All (At P (record m { heap = set m.heap a d })) bs
All-after_set P m a [] old d there p h = tt
All-after_set P m a (b ∷ bs) old d there p h =
    (after_set P m a b old d there p h.0, All-after_set P m a bs old d there p h.1)

pub looked_at-Back :
    (m : SocketManager) (a : ℕ) (d : SocketChannel)
    → get_elem? m.heap a ≡ some d
    → Back d
    → on_channel a needs_resubscribe m ≡ done false m
unfolding needs_resubscribe
looked_at-Back m a d there (free, unmarked, back) =
    let unlocked : needs_resubscribe d ≡ ok false (record d { mu = false }) =
      ground (arith, free, unmarked) in
    let found = unlocked ∙ ap (λ b. ok false (record d { mu = b })) (sym free) in
    on_channel_lem a needs_resubscribe m there found ∙ rw (set_same m.heap a d there) refl

abbrev pub Fine : SocketChannel → Type 0
Fine d = Lost d ⊎ Back d

abbrev pub Ended : (MessageSender → (Text → WireMessage) → List ℕ → SocketManager → Type 0)
Ended ws answer addresses m =
    (n : SocketManager) × Loop ws answer addresses m n
    × All (At Served n) addresses
    × ((i : ℕ) → At Served m i → At Served n i)

pub skipped :
    (ws : MessageSender) (answer : Text → WireMessage) (a : ℕ) (rest : List ℕ) (m : SocketManager)
    → on_channel a needs_resubscribe m ≡ done false m
    → At Served m a
    → Ended ws answer rest m
    → Ended ws answer (a ∷ rest) m
skipped ws answer a rest m e served (n, loop, all_served, keeps) =
    (n, same-Loop ws answer a rest m n e loop, (keeps a served, all_served), keeps)
