-- ===== src/Manager/Gets.antt =====
-- `Get` of `SocketManager` (channel/socket.go) keeps its invariant.
use qpub_go.Prelude.{
  ℕ, suc, true, none, [], ◌∷◌, ◌++◌, ◌≡◌, refl, arith, if◌then◌else◌, length, is_some,
  length-append, Option-cases, inl, inr,
}
use qpub_go.Prelude.Text.{Text, same, same_iff, same_refl}
use qpub_go.Prelude.Dict.{lookup, insert, delete, lookup-insert, lookup-delete}
use qpub_go.Channel.Calls.{new_socket_channel}
use qpub_go.Channel.Invariant.{Inv}
use qpub_go.Manager.Ops.{SocketManager, all_in, ensure, get, count_or_zero}
use qpub_go.Manager.Counts.{count_of, pointer_of}
use qpub_go.Manager.Sound.{Sound, Addresses-more, Addresses-insert, All-append_one}

new-Inv : (name : Text) → Inv (new_socket_channel name)
unfolding new_socket_channel
new-Inv name = record { free = refl; exclusive = refl; drained = inr refl }

pub count_insert :
    (name k : Text) (v : ℕ) (m : SocketManager)
    → count_or_zero (lookup k (insert name v m.ref_counts))
      ≡ (if same name k then v else count_of k m)
count_insert name k v m = ground (arith, lookup-insert name k v m.ref_counts)

pub count_delete :
    (name k : Text) (m : SocketManager)
    → count_or_zero (lookup k (delete name m.ref_counts))
      ≡ (if same name k then 0 else count_of k m)
count_delete name k m = ground (arith, lookup-delete name k m.ref_counts)

-- A new channel for a name that has none.
abbrev extended : Text → SocketManager → SocketManager
extended name m = record m {
  heap = m.heap ++ new_socket_channel name ∷ [];
  channels = insert name (length m.heap) m.channels;
}

extended-Sound :
    (name : Text) (m : SocketManager) → pointer_of name m ≡ none → Sound m → Sound (extended name m)
extended-Sound name m fresh s = record {
  invs = All-append_one m.heap (new_socket_channel name) s.invs (new-Inv name);
  valid = λ k a e. ground (
    arith,
    lookup-insert name k (length m.heap) m.channels,
    length-append m.heap (new_socket_channel name ∷ []),
    s.valid k a,
  );
  distinct = λ j k a e g. ground (
    arith,
    lookup-insert name j (length m.heap) m.channels,
    lookup-insert name k (length m.heap) m.channels,
    s.valid j a,
    s.valid k a,
    s.distinct j k a,
    same_iff name j,
    same_iff name k,
    same_refl name,
  );
  listed =
      let longer : length (m.heap ++ new_socket_channel name ∷ []) ≡ suc (length m.heap) =
        omega (arith, length-append m.heap (new_socket_channel name ∷ [])) in
      rw longer (
        Addresses-insert (suc (length m.heap)) name (length m.heap) m.channels (omega arith)
          (Addresses-more (length m.heap) (all_in m.channels) s.listed));
  held = λ k n e. ground (arith, lookup-insert name k (length m.heap) m.channels, s.held k n e);
}

ensure-Sound : (name : Text) (m : SocketManager) → Sound m → Sound (ensure name m)
unfolding ensure
ensure-Sound name m s = elim (Option-cases (pointer_of name m)) [
  | inl e ↦ rw (e, ensure) (extended-Sound name m e s)
  | inr (a, e) ↦ rw (e, ensure) s
]

ensure-pointer :
    (name : Text) (m : SocketManager) → is_some (pointer_of name (ensure name m)) ≡ true
unfolding ensure
ensure-pointer name m = elim (Option-cases (pointer_of name m)) [
  | inl e ↦
      rw (e, ensure)
        (ground (arith, lookup-insert name name (length m.heap) m.channels, same_refl name))
  | inr (a, e) ↦ rw (e, ensure) (rw e refl)
]

-- A count may be set where the name has a channel, or to zero.
pub recount-Sound :
    (name : Text) (v : ℕ) (m : SocketManager)
    → is_some (pointer_of name m) ≡ true
    → Sound m
    → Sound (record m { ref_counts = insert name v m.ref_counts })
recount-Sound name v m there s = record {
  invs = s.invs;
  valid = s.valid;
  distinct = s.distinct;
  listed = s.listed;
  held = λ k n e. ground (arith, count_insert name k v m, s.held k n, same_iff name k, there);
}

pub get-Sound : (name : Text) (m : SocketManager) → Sound m → Sound (get name m)
unfolding get
get-Sound name m s =
    recount-Sound name (suc (count_of name (ensure name m))) (ensure name m) (ensure-pointer name m)
      (ensure-Sound name m s)

ensure-counts : (name : Text) (m : SocketManager) → (ensure name m).ref_counts ≡ m.ref_counts
unfolding ensure
ensure-counts name m = ground arith

-- One more holder of the name.
pub get-count :
    (name k : Text) (m : SocketManager)
    → count_of k (get name m) ≡ (if same name k then suc (count_of k m) else count_of k m)
unfolding get
get-count name k m = ground (
  arith,
  ensure-counts name m,
  count_insert name k (suc (count_of name (ensure name m))) (ensure name m),
  same_iff name k,
)
