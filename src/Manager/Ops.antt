-- ===== src/Manager/Ops.antt =====
-- The methods of `SocketManager` (channel/socket.go). A `*SocketChannel` is an address in `heap`,
-- which holds every channel ever made: a caller may keep one that the manager has dropped. Go's
-- `range` over a map takes any order; here it is the order of the list.
use qpub_go.Prelude.{
  ℕ, zero, suc, Bool, true, false, Option, none, some, List, [], ◌∷◌, ◌++◌, if◌then◌else◌, length,
  get_elem?, set,
}
use qpub_go.Prelude.Text.{Text, is_empty}
use qpub_go.Prelude.Dict.{Dict, lookup, insert, delete}
use qpub_go.Protocol.Messages.{WireMessage}
use qpub_go.Channel.Types.{SocketChannel, MessageSender}
use qpub_go.Channel.Monad.{Fault, index_out_of_range, Outcome, ok, fault, M}
use qpub_go.Channel.Wait.{Reply, returned, waits}
use qpub_go.Channel.Subscribe.{resubscribe}
use qpub_go.Channel.Incoming.{handle_incoming}
use qpub_go.Channel.Calls.{
  new_socket_channel, has_callback, needs_resubscribe, set_pending_subscribe, reset,
}

pub record SocketManager : Type 0 where
  pub heap : List SocketChannel
  pub channels : Dict ℕ
  pub ref_counts : Dict ℕ

unfoldable pub new_socket_manager : SocketManager
new_socket_manager = record { heap = []; channels = []; ref_counts = [] }

pub data Result (A : Type 0) : Type 0 where
  done : A → SocketManager → Result A
  failed : Fault → Result A

abbrev pub and_then : {A B : Type 0} → Result A → (A → SocketManager → Result B) → Result B
and_then (done a m) f = f a m
and_then (failed e) f = failed e

abbrev pub write_back : {A : Type 0} → ℕ → SocketManager → Outcome A → Result A
write_back address m (ok a c) = done a (record m { heap = set m.heap address c })
write_back address m (fault e) = failed e

-- A call of a channel's method. No pointer is an address that the heap lacks.
unfoldable pub on_channel : {A : Type 0} → ℕ → M A → SocketManager → Result A
on_channel address call m = elim (get_elem? m.heap address) [
  | none ↦ failed index_out_of_range
  | some c ↦ write_back address m (call c)
]

-- A missing key of a Go map reads as 0.
abbrev pub count_or_zero : Option ℕ → ℕ
count_or_zero none = 0
count_or_zero (some n) = n

unfoldable pub ensure : Text → SocketManager → SocketManager
ensure name m = elim (lookup name m.channels) [
  | some address ↦ m
  | none ↦ record m {
    heap = m.heap ++ new_socket_channel name ∷ [];
    channels = insert name (length m.heap) m.channels;
  }
]

-- The new manager; the pointer that `Get` returns is the entry of `channels`.
unfoldable pub get : Text → SocketManager → SocketManager
get name m =
    let n = ensure name m in
    record n {
      ref_counts = insert name (suc (count_or_zero (lookup name n.ref_counts))) n.ref_counts;
    }

unfoldable pub remove : Text → SocketManager → SocketManager
remove name m = record m {
  channels = delete name m.channels;
  ref_counts = delete name m.ref_counts;
}

-- The branch `count == 1`.
unfoldable pub release_last : Text → Option ℕ → SocketManager → Result (Unit {0})
release_last name none m = done tt (remove name m)
release_last name (some address) m = and_then (on_channel address has_callback m) λ used n.
    if used
    then done tt (record n { ref_counts = insert name 0 n.ref_counts })
    else and_then (on_channel address reset n) λ _ k. done tt (remove name k)

unfoldable pub release_count : Text → Option ℕ → SocketManager → Result (Unit {0})
release_count name none m = done tt m
release_count name (some zero) m = done tt m
release_count name (some (suc zero)) m = release_last name (lookup name m.channels) m
release_count name (some (suc (suc n))) m =
    done tt (record m { ref_counts = insert name (suc n) m.ref_counts })

unfoldable pub release : Text → SocketManager → Result (Unit {0})
release name m = release_count name (lookup name m.ref_counts) m

abbrev pub has_some : Option ℕ → Bool
has_some none = false
has_some (some _) = true

unfoldable pub has : Text → SocketManager → Bool
has name m = has_some (lookup name m.channels)

unfoldable pub all_in : Dict ℕ → List ℕ
all_in [] = []
all_in ((name, address) ∷ rest) = address ∷ all_in rest

unfoldable pub all : SocketManager → List ℕ
all m = all_in m.channels

-- `for _, ch := range m.channels { ch.call() }`
unfoldable pub each : M (Unit {0}) → List ℕ → SocketManager → Result (Unit {0})
each call [] m = done tt m
each call (address ∷ rest) m = and_then (on_channel address call m) λ _ n. each call rest n

unfoldable pub pending_subscribe_all_channels : SocketManager → Result (Unit {0})
pending_subscribe_all_channels m = each (set_pending_subscribe true) (all m) m

-- A loop of resubscriptions ends, or waits for an answer with channels left to do.
pub data Progress : Type 0 where
  finished : Progress
  waits_at : ℕ → Reply → List ℕ → Progress

-- The loop goes on at once after a reply that is no wait.
unfoldable pub resubscribe_each : MessageSender → M Bool → List ℕ → SocketManager → Result Progress
resubscribe_each ws test [] m = done finished m
resubscribe_each ws test (address ∷ rest) m =
    let go_on = resubscribe_each ws test rest in
    and_then (on_channel address test m) λ wanted n.
      if wanted
      then and_then (on_channel address (resubscribe ws) n) (λ r k. elim r [
        | returned e ↦ go_on k
        | waits d t op ↦ done (waits_at address (waits d t op) rest) k
      ])
      else go_on n

unfoldable pub resubscribe_all_channels : MessageSender → SocketManager → Result Progress
resubscribe_all_channels ws m = resubscribe_each ws has_callback (all m) m

unfoldable pub resubscribe_after_reconnect : MessageSender → SocketManager → Result Progress
resubscribe_after_reconnect ws m = resubscribe_each ws needs_resubscribe (all m) m

unfoldable pub dispatch_to : MessageSender → WireMessage → Option ℕ → SocketManager → Result Reply
dispatch_to ws wire none m = done (returned none) m
dispatch_to ws wire (some address) m = on_channel address (handle_incoming ws (some wire)) m

-- A frame after `json.Unmarshal`: `none` where that fails.
unfoldable pub dispatch : MessageSender → Option WireMessage → SocketManager → Result Reply
dispatch ws none m = done (returned none) m
dispatch ws (some wire) m =
    if is_empty wire.channel
    then done (returned none) m
    else dispatch_to ws wire (lookup wire.channel m.channels) m

unfoldable pub reset_manager : SocketManager → Result (Unit {0})
reset_manager m =
    and_then (each reset (all m) m) λ _ n. done tt (record n { channels = []; ref_counts = [] })
