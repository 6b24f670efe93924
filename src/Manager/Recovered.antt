-- ===== src/Manager/Recovered.antt =====
-- The whole loop of resubscriptions after a connection was lost (`ResubscribeAfterReconnect` of
-- channel/socket.go), with a server that answers.
use qpub_go.Prelude.{
  ℕ, true, some, none, List, [], ◌∷◌, ◌≡◌, ◌∙◌, ap, refl, get_elem?, set, All, Bool-cases, inl, inr,
}
use qpub_go.Prelude.Text.{Text}
use qpub_go.Protocol.Action.{subscribed}
use qpub_go.Protocol.Messages.{WireMessage}
use qpub_go.Channel.Types.{MessageSender, SocketChannel, Frame}
use qpub_go.Channel.Handlers.{has_callback_locked}
use qpub_go.Channel.Recovery.{lost}
use qpub_go.Manager.Ops.{
  SocketManager, done, resubscribe_each, all, all_in, pending_subscribe_all_channels,
}
use qpub_go.Manager.Sound.{IsFree}
use qpub_go.Manager.Counts.{pointer_of}
use qpub_go.Manager.Marked.{
  is_member, is_member-lookup, loss_lem, lost_member, All-member, All-members,
}
use qpub_go.Manager.Runs.{Holders, Run}
use qpub_go.Manager.Refines.{Run-Sound}
use qpub_go.Manager.Turns.{
  Loop, Back, Served, At, looked_at, get_elem?-set_here, turn, after_set, All-after_set,
  looked_at-Back, Fine, Ended, skipped, ends,
}

module _ (ws : MessageSender) (answer : Text → WireMessage) (sends : (f : Frame) → ws.send f ≡ none)
    (named : (name : Text) → (answer name).channel ≡ name)
    (acks : (name : Text) → (answer name).action ≡ subscribed) where
  served_turn :
      (a : ℕ) (rest : List ℕ) (m : SocketManager) (old d : SocketChannel)
      → get_elem? m.heap a ≡ some old
      → Back d
      → ((n : SocketManager)
          → Loop ws answer rest (record m { heap = set m.heap a d }) n
          → Loop ws answer (a ∷ rest) m n)
      → Ended ws answer rest (record m { heap = set m.heap a d })
      → Ended ws answer (a ∷ rest) m
  served_turn a rest m old d there back extend (n, loop, all_served, keeps) = (
    n,
    extend n loop,
    (keeps a (d, get_elem?-set_here m.heap a old d there, inr back), all_served),
    λ i x. keeps i (after_set Served m a i old d there (inr back) x),
  )

  -- Over channels that were lost with nothing queued, or are back: the loop ends if the server answers
  -- each frame with SUBSCRIBED. No wait has an error, and then every channel with a handler is
  -- subscribed, and no longer marked.
  loop-Ended :
      (addresses : List ℕ) (m : SocketManager)
      → All (At Fine m) addresses
      → Ended ws answer addresses m
  unfolding resubscribe_each
  loop-Ended [] m h = (m, ends refl, tt, λ i x. x)
  loop-Ended (a ∷ rest) m ((d, there, inr back), h) =
      skipped ws answer a rest m (looked_at-Back m a d there back) (d, there, inr back)
        (loop-Ended rest m h)
  loop-Ended (a ∷ rest) m ((d, there, inl (c, e, v, empty)), h) =
      let there_c = there ∙ ap some e in
      elim (Bool-cases (has_callback_locked c)) [
        | inl used ↦
            let (f, back, extend) =
              turn ws answer a rest c m sends named acks there_c v empty used in
            let k = record m { heap = set m.heap a f } in
            served_turn a rest m (lost c) f there_c back extend
              (loop-Ended rest k (All-after_set Fine m a rest (lost c) f there_c (inr back) h))
        | inr unused ↦
            skipped ws answer a rest m (looked_at m a c there_c ∙ rw unused refl)
              (lost c, there_c, inl unused) (loop-Ended rest m h)
      ]

  -- After any calls that leave nothing queued on the channels that have names, if no call that never
  -- returns holds a channel's mutex: `PendingSubscribeAllChannels` returns when the connection is lost, and
  -- after the next one, over a sender that takes every frame and with a server that answers each SUBSCRIBE,
  -- the loop over the channels ends, no wait in it has an error, and then each channel that has a name and
  -- a handler is subscribed, not marked, and its mutex is free.
  pub loss-Served :
      {f : Holders} {m : SocketManager}
      → Run f m
      → IsFree m
      → ((a : ℕ) (c : SocketChannel)
          → is_member a (all m) ≡ true
          → get_elem? m.heap a ≡ some c
          → c.operation_queue ≡ [])
      → (n : SocketManager) × (pending_subscribe_all_channels m ≡ done tt n)
        × (q : SocketManager) × Loop ws answer (all n) n q
        × ((k : Text) (a : ℕ) → pointer_of k m ≡ some a → At Served q a)
  unfolding all
  loss-Served {f} {m} r free empty =
      let s = Run-Sound r in
      let (n, loops, kept, marks) = loss_lem m s free in
      let fine : All (At Fine n) (all_in m.channels) =
        All-members (At Fine n) (all_in m.channels) (λ a h.
          let (c, there, v, e) = lost_member m s free a h in
          (lost c, e, inl (c, refl, v, empty a c h there))) in
      let (q, loop, served, keeps) = loop-Ended (all_in m.channels) n fine in
      (
        n,
        loops,
        q,
        rw kept.0 loop,
        λ k a e.
            All-member (At Served q) (all_in m.channels) a served
              (is_member-lookup k a m.channels e),
      )
