-- ===== src/Manager/Refines.antt =====
-- `SocketManager` (channel/socket.go) as a multiset of the names that are held.
use qpub_go.Prelude.{
  ◌⊎◌, inl, inr, set, ℕ, ◌-◌, true, some, [], ◌≡◌, ◌≢◌, ◌∙◌, sym, refl, arith, is_some,
}
use qpub_go.Prelude.Text.{Text, same}
use qpub_go.Prelude.Dict.{lookup}
use qpub_go.Channel.Types.{SocketChannel}
use qpub_go.Channel.Monad.{deadlock, ok}
use qpub_go.Channel.Calls.{step, reset, set_pending_subscribe}
use qpub_go.Channel.Invariant.{Inv}
use qpub_go.Manager.Ops.{
  SocketManager, new_socket_manager, done, failed, get, release, remove, all, all_in, each, has,
  pending_subscribe_all_channels, reset_manager,
}
use qpub_go.Manager.Counts.{count_of, pointer_of, emptied, reset_lem}
use qpub_go.Manager.Sound.{
  Sound, Kept, Kept-Sound, on_channel-Kept, and_then_done, each-Kept, each-returns, set-Kept,
  IsFree, IsFree-Inv,
}
use qpub_go.Manager.Gets.{get-Sound, get-count}
use qpub_go.Manager.Released.{IsBlocked, release-Outcome, remove-Sound, remove-count, emptied-Inv}
use qpub_go.Channel.Held.{IsHeld, step-Calm}
use qpub_go.Manager.Runs.{
  Holders, nobody, held_by_one_more, held_by_one_less, held_by_none, Run, fresh, gets, releases,
  calls, hangs, removes, dispatches, loses_connection, starts_over, dispatch-Kept, reset-Calm,
  marks-Calm,
}

-- What the manager says is what the holders are.
abbrev Refines : Holders → SocketManager → Type 0
Refines f m = Sound m × ((k : Text) → count_of k m ≡ f k)

Kept-Refines : (f : Holders) (m n : SocketManager) → Kept m n → Refines f m → Refines f n
Kept-Refines f m n k (s, counts) = (Kept-Sound m n k s, rw k.1 counts)

nobody-Refines :
    (m : SocketManager) → Kept m m → Refines nobody (record m { channels = []; ref_counts = [] })
unfolding lookup all_in
nobody-Refines m k = (
  record {
    invs = k.3;
    valid = λ j a e. ground arith;
    distinct = λ i j a e g. ground arith;
    listed = tt;
    held = λ j n e. ground arith;
  },
  λ j. refl,
)

reset_manager-Refines :
    (m n : SocketManager) → Sound m → reset_manager m ≡ done tt n → Refines nobody n
unfolding reset_manager
reset_manager-Refines m n s e =
    let (x, k, first, rest) = and_then_done (each reset (all m) m) _ tt n e in
    let kept = each-Kept reset (all m) m k s.invs reset-Calm first in
    let same_one : record k { channels = []; ref_counts = [] } ≡ n = cc in
    rw (sym same_one) (nobody-Refines k (refl, refl, refl, kept.3))

get-Refines :
    (name : Text) (f : Holders) (m : SocketManager)
    → Refines f m
    → Refines (held_by_one_more name f) (get name m)
get-Refines name f m (s, counts) =
    (get-Sound name m s, λ k. ground (arith, get-count name k m, counts k))

release-Refines :
    (name : Text) (f : Holders) (m n : SocketManager)
    → Refines f m
    → release name m ≡ done tt n
    → Refines (held_by_one_less name f) n
release-Refines name f m n (s, counts) e = elim (release-Outcome name m s) [
  | inl (p, returns, (sound, fewer)) ↦
      let same_one : p ≡ n = let both = sym returns ∙ e in cc in
      rw (sym same_one) (sound, λ k. ground (arith, fewer k, counts k))
  | inr (never, blocked) ↦ absurd (ground arith)
]

remove-Refines :
    (name : Text) (f : Holders) (m : SocketManager)
    → Refines f m
    → Refines (held_by_none name f) (remove name m)
remove-Refines name f m (s, counts) =
    (remove-Sound name m s, λ k. ground (arith, remove-count name k m, counts k))

hangs-Refines :
    (f : Holders) (m : SocketManager) (a : ℕ) (c : SocketChannel)
    → Refines f m
    → IsHeld c
    → Refines f (record m { heap = set m.heap a c })
hangs-Refines f m a c (s, counts) held =
    Kept-Refines f m (record m { heap = set m.heap a c })
      (set-Kept m a c s.invs (λ free. absurd (ground arith))) (s, counts)

Run-Refines : {f : Holders} {m : SocketManager} → Run f m → Refines f m
unfolding new_socket_manager pending_subscribe_all_channels
Run-Refines fresh = nobody-Refines new_socket_manager (refl, refl, refl, tt)
Run-Refines (gets {f} {m} name r) = get-Refines name f m (Run-Refines r)
Run-Refines (releases {f} {m} {n} name r e) = release-Refines name f m n (Run-Refines r) e
Run-Refines (calls {f} {m} {n} a ws call reply r e) =
    let (s, counts) = Run-Refines r in
    Kept-Refines f m n (on_channel-Kept a (step ws call) m n reply s.invs (step-Calm ws call) e)
      (s, counts)
Run-Refines (hangs {f} {m} a ws call c r e held) = hangs-Refines f m a c (Run-Refines r) held
Run-Refines (removes {f} {m} name r) = remove-Refines name f m (Run-Refines r)
Run-Refines (dispatches {f} {m} {n} ws wire reply r e) =
    let (s, counts) = Run-Refines r in
    Kept-Refines f m n (dispatch-Kept ws wire m n reply s e) (s, counts)
Run-Refines (loses_connection {f} {m} {n} r e) =
    let (s, counts) = Run-Refines r in
    Kept-Refines f m n (each-Kept (set_pending_subscribe true) (all m) m n s.invs marks-Calm e)
      (s, counts)
Run-Refines (starts_over {m} {n} r e) = reset_manager-Refines m n (Run-Refines r).0 e

has-pointer : (k : Text) (m : SocketManager) → is_some (pointer_of k m) ≡ true → has k m ≡ true
unfolding has
has-pointer k m h = ground arith

-- Whatever is called, in any order, calls that never return included: the manager counts for each name
-- its gets less its releases, never below zero, and from zero after `Remove` of the name and after `Reset`;
-- a name that is held has a channel; different names never have the same channel; and a call of `Release`
-- returns, except by the last holder of a channel whose mutex such a call holds, when it waits for ever.
pub Run-holders :
    {f : Holders} {m : SocketManager}
    → Run f m
    → ((k : Text) → count_of k m ≡ f k)
      × ((k : Text) → f k ≢ 0 → has k m ≡ true)
      × ((j k : Text) (a : ℕ) → pointer_of j m ≡ some a → pointer_of k m ≡ some a → same j k ≡ true)
      × ((name : Text)
          → ((n : SocketManager) × (release name m ≡ done tt n))
            ⊎ ((release name m ≡ failed deadlock) × IsBlocked name m))
Run-holders {f} {m} r =
    let (s, counts) = Run-Refines r in
    (
      counts,
      λ k used. has-pointer k m (s.held k (f k - 1) (counts k ∙ omega (arith, used))),
      s.distinct,
      λ name. elim (release-Outcome name m s) [
        | inl (n, e, _) ↦ inl (n, e)
        | inr blocked ↦ inr blocked
      ],
    )

pub Run-Sound : {f : Holders} {m : SocketManager} → Run f m → Sound m
Run-Sound r = (Run-Refines r).0

-- `Reset` returns, unless a call that never returns holds a mutex.
reset-returns : (c : SocketChannel) → Inv c → (d : SocketChannel) × (reset c ≡ ok tt d) × Inv d
reset-returns c v = (emptied c, reset_lem c v.free, emptied-Inv c)

pub reset_manager-returns :
    (m : SocketManager)
    → Sound m
    → IsFree m
    → (n : SocketManager) × (reset_manager m ≡ done tt n) × (n.channels ≡ []) × (n.ref_counts ≡ [])
unfolding reset_manager all
reset_manager-returns m s free =
    let (n, loops, _) =
      each-returns reset (all_in m.channels) m (IsFree-Inv m s free) s.listed reset-returns in
    (record n { channels = []; ref_counts = [] }, rw loops refl, refl, refl)
