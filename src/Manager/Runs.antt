-- ===== src/Manager/Runs.antt =====
-- The histories of `SocketManager` (channel/socket.go), and what each call of its channels keeps.
use qpub_go.Prelude.{
  set, ℕ, suc, ◌-◌, Bool, true, false, Option, none, some, ◌≡◌, sym, refl, if◌then◌else◌,
}
use qpub_go.Prelude.Text.{Text, same, is_empty}
use qpub_go.Prelude.Dict.{lookup}
use qpub_go.Protocol.Messages.{WireMessage}
use qpub_go.Channel.Types.{MessageSender, SocketChannel}
use qpub_go.Channel.Monad.{deadlock, Outcome, ok, fault, M, bind, pure}
use qpub_go.Channel.Wait.{Reply, returned}
use qpub_go.Channel.Calls.{
  Call, step, reset, set_pending_subscribe, receives, resets, marks_pending, no_reply,
}
use qpub_go.Channel.Invariant.{Calm, Post}
use qpub_go.Channel.Incoming.{handle_incoming}
use qpub_go.Manager.Ops.{
  SocketManager, new_socket_manager, done, on_channel, failed, get, release, remove, dispatch,
  dispatch_to, pending_subscribe_all_channels, reset_manager,
}
use qpub_go.Manager.Sound.{Sound, Kept, on_channel-Kept}
use qpub_go.Channel.Held.{IsHeld, step-Calm}

-- How often each name is held.
abbrev pub Holders : Type 0
Holders = Text → ℕ

abbrev pub nobody : Holders
nobody k = 0

abbrev pub held_by_one_more : Text → Holders → Holders
held_by_one_more name f k = if same name k then suc (f k) else f k

abbrev pub held_by_one_less : Text → Holders → Holders
held_by_one_less name f k = if same name k then f k - 1 else f k

abbrev pub held_by_none : Text → Holders → Holders
held_by_none name f k = if same name k then 0 else f k

-- The manager after any calls of its own methods and of its channels', with the holders after the same
-- calls. A call of a channel returns, or waits for the mutex for ever: then it stays held, with the rest
-- of the channel in any state. The loops over the channels that resubscribe are calls of theirs, and so
-- are the rounds of a loop that does not end.
pub data Run : Holders → SocketManager → Type 0 where
  fresh : Run nobody new_socket_manager
  gets :
      {f : Holders} {m : SocketManager} (name : Text)
      → Run f m
      → Run (held_by_one_more name f) (get name m)
  releases :
      {f : Holders} {m n : SocketManager} (name : Text)
      → Run f m
      → release name m ≡ done tt n
      → Run (held_by_one_less name f) n
  calls :
      {f : Holders} {m n : SocketManager} (address : ℕ) (ws : MessageSender) (call : Call)
      (r : Reply)
      → Run f m
      → on_channel address (step ws call) m ≡ done r n
      → Run f n
  hangs :
      {f : Holders} {m : SocketManager} (address : ℕ) (ws : MessageSender) (call : Call)
      (c : SocketChannel)
      → Run f m
      → on_channel address (step ws call) m ≡ failed deadlock
      → IsHeld c
      → Run f (record m { heap = set m.heap address c })
  removes :
      {f : Holders} {m : SocketManager} (name : Text)
      → Run f m
      → Run (held_by_none name f) (remove name m)
  dispatches :
      {f : Holders} {m n : SocketManager} (ws : MessageSender) (wire : Option WireMessage)
      (r : Reply)
      → Run f m
      → dispatch ws wire m ≡ done r n
      → Run f n
  loses_connection :
      {f : Holders} {m n : SocketManager}
      → Run f m
      → pending_subscribe_all_channels m ≡ done tt n
      → Run f n
  starts_over :
      {f : Holders} {m n : SocketManager} → Run f m → reset_manager m ≡ done tt n → Run nobody n

receives-Calm :
    (ws : MessageSender) (wire : WireMessage) (c : SocketChannel)
    → Calm c
    → Post Calm (λ e. Unit) (handle_incoming ws (some wire) c)
receives-Calm ws wire c v = unfold step in step-Calm ws (receives (some wire)) c v

drop_reply :
    (call : M (Unit {0})) (c : SocketChannel)
    → Post Calm (λ e. Unit) (no_reply call c)
    → Post Calm (λ e. Unit) (call c)
drop_reply call c h = go (call c) h
  where
    go :
        (o : Outcome (Unit {0}))
        → Post Calm (λ e. Unit) (bind o (λ _. pure (returned none)))
        → Post Calm (λ e. Unit) o
    go (ok x d) k = k
    go (fault e) k = k

pub reset-Calm : (c : SocketChannel) → Calm c → Post Calm (λ e. Unit) (reset c)
reset-Calm c v =
    drop_reply reset c
      (unfold step in step-Calm (record { is_connected = true; send = λ f. none }) resets c v)

pub marks-Calm : (c : SocketChannel) → Calm c → Post Calm (λ e. Unit) (set_pending_subscribe true c)
marks-Calm c v = drop_reply (set_pending_subscribe true) c (
    unfold step in
    step-Calm (record { is_connected = true; send = λ f. none }) (marks_pending true) c v)

same_manager : (m n : SocketManager) (r s : Reply) → Sound m → done r m ≡ done s n → Kept m n
same_manager m n r s sound e =
    let same_one : m ≡ n = cc in rw (sym same_one) (refl, refl, refl, sound.invs)

dispatch_to-Kept :
    (ws : MessageSender) (wire : WireMessage) (o : Option ℕ) (m n : SocketManager) (r : Reply)
    → Sound m
    → dispatch_to ws wire o m ≡ done r n
    → Kept m n
unfolding dispatch_to
dispatch_to-Kept ws wire none m n r s e = same_manager m n (returned none) r s e
dispatch_to-Kept ws wire (some a) m n r s e =
    on_channel-Kept a (handle_incoming ws (some wire)) m n r s.invs (receives-Calm ws wire) e

dispatch_if-Kept :
    (b : Bool) (ws : MessageSender) (wire : WireMessage) (m n : SocketManager) (r : Reply)
    → Sound m
    → (if b then done (returned none) m else dispatch_to ws wire (lookup wire.channel m.channels) m)
      ≡ done r n
    → Kept m n
dispatch_if-Kept true ws wire m n r s e = same_manager m n (returned none) r s e
dispatch_if-Kept false ws wire m n r s e =
    dispatch_to-Kept ws wire (lookup wire.channel m.channels) m n r s e

pub dispatch-Kept :
    (ws : MessageSender) (wire : Option WireMessage) (m n : SocketManager) (r : Reply)
    → Sound m
    → dispatch ws wire m ≡ done r n
    → Kept m n
unfolding dispatch
dispatch-Kept ws none m n r s e = same_manager m n (returned none) r s e
dispatch-Kept ws (some wire) m n r s e = dispatch_if-Kept (is_empty wire.channel) ws wire m n r s e
