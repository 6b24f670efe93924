-- ===== src/Manager/Counts.antt =====
-- `Get` and `Release` of `SocketManager` (channel/socket.go): reference counts and pointers.
use qpub_go.Prelude.{
  ℕ, suc, true, false, Option, none, some, List, [], ◌≡◌, ◌∙◌, ap, inl, inr, refl, arith,
  if◌then◌else◌, length, get_elem?, set, Bool-cases, get_elem?-set,
}
use qpub_go.Prelude.Text.{Text, same, same_iff, same_refl}
use qpub_go.Prelude.Dict.{Dict, lookup, insert, delete, lookup-insert, lookup-delete}
use qpub_go.Channel.Types.{SocketChannel}
use qpub_go.Channel.Monad.{M, ok}
use qpub_go.Channel.Handlers.{has_callback_locked}
use qpub_go.Channel.Calls.{has_callback, reset}
use qpub_go.Manager.Ops.{
  SocketManager, done, on_channel, count_or_zero, ensure, get, remove, release_last, release_count,
  release, has,
}

-- The number of gets of a name that have not been released.
abbrev pub count_of : Text → SocketManager → ℕ
count_of name m = count_or_zero (lookup name m.ref_counts)

abbrev pub pointer_of : Text → SocketManager → Option ℕ
pointer_of name m = lookup name m.channels

lookup_same : (name : Text) (v : ℕ) (d : Dict ℕ) → lookup name (insert name v d) ≡ some v
lookup_same name v d = lookup-insert name name v d ∙ rw (same_refl name)

same-lookup : (j k : Text) (d : Dict ℕ) → same j k ≡ true → lookup j d ≡ lookup k d
same-lookup j k d e = ap (λ (i : Text). lookup i d) ((same_iff j k).0 e)

ensure_present :
    (name : Text) (a : ℕ) (m : SocketManager) → pointer_of name m ≡ some a → ensure name m ≡ m
unfolding ensure
ensure_present name a m e = rw (e, ensure)

-- `Get` keeps the pointer of a name that the manager has, makes a new channel for one that it has
-- not, adds one to the name's count, and leaves all other names alone.
get_lem :
    (name k : Text) (m : SocketManager)
    → (pointer_of name (get name m)
        ≡ (if has name m then pointer_of name m else some (length m.heap)))
      × (count_of name (get name m) ≡ suc (count_of name m))
      × (same name k ≡ false → pointer_of k (get name m) ≡ pointer_of k m)
      × (same name k ≡ false → lookup k (get name m).ref_counts ≡ lookup k m.ref_counts)
unfolding get ensure has
get_lem name k m = ground (
  arith,
  lookup_same name (length m.heap) m.channels,
  lookup-insert name k (length m.heap) m.channels,
  lookup_same name (suc (count_of name m)) m.ref_counts,
  lookup-insert name k (suc (count_of name m)) m.ref_counts,
)

-- While the name has another holder, `Release` undoes `Get`: every name has its pointer and its
-- count as before, and no channel has changed.
release-get :
    (name k : Text) (n address : ℕ) (m : SocketManager)
    → lookup name m.ref_counts ≡ some (suc n)
    → pointer_of name m ≡ some address
    → (m' : SocketManager) × (release name (get name m) ≡ done tt m')
      × (pointer_of k m' ≡ pointer_of k m)
      × (count_of k m' ≡ count_of k m)
      × (m'.heap ≡ m.heap)
unfolding release release_count get ensure
release-get name k n address m e p = (
  record m { ref_counts = insert name (suc n) (insert name (suc (suc n)) m.ref_counts) },
  rw (p, ensure) (rw (e, lookup_same) refl),
  refl,
  ground (
    arith,
    lookup-insert name k (suc n) (insert name (suc (suc n)) m.ref_counts),
    lookup-insert name k (suc (suc n)) m.ref_counts,
    same-lookup name k m.ref_counts,
    e,
  ),
  refl,
)

pub on_channel_lem :
    {A : Type 0} (address : ℕ) (call : M A) (m : SocketManager) {c d : SocketChannel} {a : A}
    → get_elem? m.heap address ≡ some c
    → call c ≡ ok a d
    → on_channel address call m ≡ done a (record m { heap = set m.heap address d })
unfolding on_channel
on_channel_lem address call m at e = rw (at, on_channel) (rw e)

has_callback_lem :
    (c : SocketChannel)
    → c.mu ≡ false
    → has_callback c ≡ ok (has_callback_locked c) (record c { mu = false })
unfolding has_callback
has_callback_lem c free = ground arith

-- The channel as `Reset` leaves it.
abbrev pub emptied : SocketChannel → SocketChannel
emptied c = record c {
  mu = false;
  catch_all_handler = none;
  event_callbacks = [];
  subscribed = false;
  pending_subscribe = false;
  pending_unsubscribe = false;
  paused = false;
  paused_messages = [];
  operation_queue = [];
}

pub reset_lem : (c : SocketChannel) → c.mu ≡ false → reset c ≡ ok tt (emptied c)
unfolding reset
reset_lem c free = ground arith

abbrev pub kept : Text → ℕ → SocketChannel → SocketManager → SocketManager
kept name address c m = record m {
  heap = set m.heap address (record c { mu = false });
  ref_counts = insert name 0 m.ref_counts;
}

abbrev pub dropped : Text → ℕ → SocketChannel → SocketManager → SocketManager
dropped name address c m = record m {
  heap = set (set m.heap address (record c { mu = false })) address (emptied c);
  channels = delete name m.channels;
  ref_counts = delete name m.ref_counts;
}

set_at :
    (cs : List SocketChannel) (i : ℕ) (c d : SocketChannel)
    → get_elem? cs i ≡ some c
    → get_elem? (set cs i d) i ≡ some d
set_at cs i c d e = get_elem?-set cs i i d ∙ ground (arith, e)

pub release_used :
    (name : Text) (address : ℕ) (m : SocketManager) {c : SocketChannel}
    → get_elem? m.heap address ≡ some c
    → c.mu ≡ false
    → has_callback_locked c ≡ true
    → release_last name (some address) m ≡ done tt (kept name address c m)
unfolding release_last
release_used name address m {c} at free used =
    rw (on_channel_lem address has_callback m at (has_callback_lem c free), used)

pub release_unused :
    (name : Text) (address : ℕ) (m : SocketManager) {c : SocketChannel}
    → get_elem? m.heap address ≡ some c
    → c.mu ≡ false
    → has_callback_locked c ≡ false
    → release_last name (some address) m ≡ done tt (dropped name address c m)
unfolding release_last remove
release_unused name address m {c} at free unused =
    rw (on_channel_lem address has_callback m at (has_callback_lem c free), unused)
      (rw (
        on_channel_lem address reset
          (record m { heap = set m.heap address (record c { mu = false }) })
          (set_at m.heap address c (record c { mu = false }) at)
          (reset_lem (record c { mu = false }) refl)))

-- `Release` at count 1: a channel that has a handler stays, as it is, with the count 0; a channel
-- without one leaves the manager, and is reset.
pub release_last_lem :
    (name : Text) (address : ℕ) (c : SocketChannel) (m : SocketManager)
    → lookup name m.ref_counts ≡ some 1
    → pointer_of name m ≡ some address
    → get_elem? m.heap address ≡ some c
    → c.mu ≡ false
    → (m' : SocketManager) × (release name m ≡ done tt m')
      × (pointer_of name m' ≡ (if has_callback_locked c then some address else none))
      × (lookup name m'.ref_counts ≡ (if has_callback_locked c then some 0 else none))
      × (get_elem? m'.heap address
          ≡ some (if has_callback_locked c then record c { mu = false } else emptied c))
unfolding release release_count remove
release_last_lem name address c m e p at free = elim (Bool-cases (has_callback_locked c)) [
  | inl used ↦ (
    kept name address c m,
    rw (e, p) (release_used name address m at free used),
    rw (used, p),
    rw (used, lookup_same),
    rw used (set_at m.heap address c (record c { mu = false }) at),
  )
  | inr unused ↦ (
    dropped name address c m,
    rw (e, p) (release_unused name address m at free unused),
    rw (unused, lookup-delete name name m.channels, same_refl name),
    rw (unused, lookup-delete name name m.ref_counts, same_refl name),
    rw unused (
        set_at (set m.heap address (record c { mu = false })) address (record c { mu = false })
          (emptied c) (set_at m.heap address c (record c { mu = false }) at)),
  )
]
