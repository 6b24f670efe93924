-- ===== src/Manager/Marked.antt =====
-- What a loop of `SocketManager` (channel/socket.go) does to each channel, and so what a lost
-- connection leaves for the next one.
use qpub_go.Prelude.{
  ℕ, ◌<◌, Bool, true, false, ◌||◌, ◌==◌, some, List, [], ◌∷◌, ◌≡◌, ◌∙◌, sym, ap, refl, arith,
  if◌then◌else◌, length, get_elem?, set, All, Bool-cases, inl, inr, get_elem?-set,
}
use qpub_go.Prelude.Text.{Text}
use qpub_go.Prelude.Dict.{Dict, lookup}
use qpub_go.Channel.Types.{SocketChannel}
use qpub_go.Channel.Monad.{M, ok}
use qpub_go.Channel.Handlers.{has_callback_locked}
use qpub_go.Channel.Calls.{set_pending_subscribe, needs_resubscribe}
use qpub_go.Channel.Invariant.{Inv}
use qpub_go.Channel.Recovery.{lost}
use qpub_go.Manager.Ops.{SocketManager, done, all, all_in, each, pending_subscribe_all_channels}
use qpub_go.Manager.Counts.{pointer_of, on_channel_lem}
use qpub_go.Manager.Sound.{
  Sound, IsFree, IsFree-Inv, Kept, Addresses, All-set, length-set, at_index, All-at, each-returns,
}
use qpub_go.Manager.Runs.{Holders, Run}
use qpub_go.Manager.Refines.{Run-Sound}

abbrev pub is_member : ℕ → List ℕ → Bool
is_member i [] = false
is_member i (a ∷ rest) = (a == i) || is_member i rest

pub is_member-lookup :
    (k : Text) (a : ℕ) (d : Dict ℕ) → lookup k d ≡ some a → is_member a (all_in d) ≡ true
unfolding lookup all_in
is_member-lookup k a [] e = ground arith
is_member-lookup k a ((j, b) ∷ d) e = ground (arith, is_member-lookup k a d)

-- A method that always returns, and changes the channel in this way; a second call adds nothing.
record Works (call : M (Unit {0})) (g : SocketChannel → SocketChannel) : Type 0 where
  returns : (c : SocketChannel) → Inv c → call c ≡ ok tt (g c)
  keeps : (c : SocketChannel) → Inv c → Inv (g c)
  once : (c : SocketChannel) → g (g c) ≡ g c

abbrev changed : (SocketChannel → SocketChannel) → List ℕ → ℕ → SocketChannel → SocketChannel
changed g rest i c = if is_member i rest then g c else c

changed-first :
    (g : SocketChannel → SocketChannel) (a i : ℕ) (rest : List ℕ) (c : SocketChannel)
    → g (g c) ≡ g c
    → changed g rest i (if a == i then g c else c) ≡ changed g (a ∷ rest) i c
changed-first g a i rest c e = ground arith

first_done :
    (g : SocketChannel → SocketChannel) (cs : List SocketChannel) (a i : ℕ) (c d : SocketChannel)
    → get_elem? cs a ≡ some d
    → get_elem? cs i ≡ some c
    → get_elem? (set cs a (g d)) i ≡ some (if a == i then g c else c)
first_done g cs a i c d there here = ground (arith, get_elem?-set cs a i (g d))

each-changed :
    (call : M (Unit {0})) (g : SocketChannel → SocketChannel) (rest : List ℕ) (m n : SocketManager)
    → Works call g
    → All Inv m.heap
    → Addresses (length m.heap) rest
    → each call rest m ≡ done tt n
    → (i : ℕ) (c : SocketChannel) → get_elem? m.heap i ≡ some c
    → get_elem? n.heap i ≡ some (changed g rest i c)
unfolding each
each-changed call g [] m n w h valid e i c here =
    let same_one : m ≡ n = cc in rw (sym same_one) here
each-changed call g (a ∷ rest) m n w h valid e i c here =
    let (d, there) = at_index m.heap a valid.0 in
    let v = All-at Inv m.heap a d h there in
    let k = record m { heap = set m.heap a (g d) } in
    let looped : each call rest k ≡ done tt n =
      rw (on_channel_lem a call m there (w.returns d v)) at e in
    each-changed call g rest k n w (All-set Inv m.heap a (g d) h (w.keeps d v))
      (rw (length-set m.heap a (g d)) valid.1) looped i (if a == i then g c else c)
      (first_done g m.heap a i c d there here)
    ∙ ap some (changed-first g a i rest c (w.once c))

set_pending_subscribe-Works : Works (set_pending_subscribe true) lost
unfolding set_pending_subscribe
set_pending_subscribe-Works = record {
  returns = λ c v. ground (arith, v.free);
  keeps = λ c v. record { free = refl; exclusive = refl; drained = v.drained };
  once = λ c. refl;
}

-- The next connection resubscribes exactly the channels that have a handler.
pub lost_needs :
    (c : SocketChannel) → needs_resubscribe (lost c) ≡ ok (has_callback_locked c) (lost c)
unfolding needs_resubscribe
lost_needs c = ground arith

-- The loss of the connection, by addresses.
pub loss_lem :
    (m : SocketManager)
    → Sound m
    → IsFree m
    → (n : SocketManager) × (pending_subscribe_all_channels m ≡ done tt n)
      × Kept m n
      × ((a : ℕ) (c : SocketChannel)
          → get_elem? m.heap a ≡ some c
          → get_elem? n.heap a ≡ some (changed lost (all_in m.channels) a c))
unfolding pending_subscribe_all_channels all
loss_lem m s free =
    let invs = IsFree-Inv m s free in
    let w = set_pending_subscribe-Works in
    let (n, loops, kept) =
      each-returns (set_pending_subscribe true) (all_in m.channels) m invs s.listed
        (λ c v. (lost c, w.returns c v, w.keeps c v)) in
    (
      n,
      loops,
      kept,
      each-changed (set_pending_subscribe true) lost (all_in m.channels) m n w invs s.listed loops,
    )

-- After any calls, if no call that never returns holds a channel's mutex: `PendingSubscribeAllChannels`,
-- which the loss of the connection calls, returns, and the manager has the channels that it had, each of
-- them marked, pending, not subscribed, and otherwise as it was. `NeedsResubscribe` then says yes for
-- exactly those that have a handler. A channel that the manager has dropped is left alone.
pub loss_marks :
    {f : Holders} {m : SocketManager}
    → Run f m
    → IsFree m
    → (n : SocketManager) × (pending_subscribe_all_channels m ≡ done tt n)
      × ((k : Text) → pointer_of k n ≡ pointer_of k m)
      × ((k : Text) (a : ℕ)
          → pointer_of k m ≡ some a
          → (c : SocketChannel) × (get_elem? m.heap a ≡ some c)
            × (get_elem? n.heap a ≡ some (lost c))
            × (needs_resubscribe (lost c) ≡ ok (has_callback_locked c) (lost c)))
      × ((a : ℕ) (c : SocketChannel)
          → get_elem? m.heap a ≡ some c
          → is_member a (all m) ≡ false
          → get_elem? n.heap a ≡ some c)
unfolding all
loss_marks {f} {m} r free =
    let s = Run-Sound r in
    let (n, loops, kept, marks) = loss_lem m s free in
    (
      n,
      loops,
      λ k. ap (lookup k) kept.0,
      λ k a e.
          let (c, there) = at_index m.heap a (s.valid k a e) in
          (c, there, rw (is_member-lookup k a m.channels e) at (marks a c there), lost_needs c),
      λ a c there gone. rw gone at (marks a c there),
    )

pub All-members :
    (P : ℕ → Type 0) (addresses : List ℕ)
    → ((a : ℕ) → is_member a addresses ≡ true → P a)
    → All P addresses
All-members P [] f = tt
All-members P (a ∷ rest) f = (f a (ground arith), All-members P rest (λ b h. f b (ground arith)))

pub All-member :
    (P : ℕ → Type 0) (addresses : List ℕ) (a : ℕ)
    → All P addresses
    → is_member a addresses ≡ true
    → P a
All-member P [] a h e = absurd (ground arith)
All-member P (b ∷ rest) a h e = elim (Bool-cases (b == a)) [
  | inl same_one ↦ let b_is_a : b ≡ a = ground arith in rw b_is_a at h.0
  | inr other ↦ All-member P rest a h.1 (ground arith)
]

-- The channel at an address that the manager has, before and after the loss of the connection.
pub lost_member :
    (m : SocketManager) (s : Sound m) (free : IsFree m) (a : ℕ)
    → is_member a (all_in m.channels) ≡ true
    → (c : SocketChannel) × (get_elem? m.heap a ≡ some c)
      × Inv c
      × (get_elem? (loss_lem m s free).0.heap a ≡ some (lost c))
lost_member m s free a h =
    let (n, loops, kept, marks) = loss_lem m s free in
    let (c, there) =
      at_index m.heap a (All-member (λ b. b < length m.heap) (all_in m.channels) a s.listed h) in
    (c, there, All-at Inv m.heap a c (IsFree-Inv m s free) there, rw h at (marks a c there))
