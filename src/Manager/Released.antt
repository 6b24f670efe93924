-- ===== src/Manager/Released.antt =====
-- `Release` of `SocketManager` (channel/socket.go) keeps its invariant.
use qpub_go.Prelude.{
  ◌⊎◌, get_elem?, ℕ, zero, suc, ◌-◌, false, Option, none, some, ◌≡◌, ◌∙◌, ap, refl, arith,
  if◌then◌else◌, length, set, is_some, All, Option-cases, Bool-cases, inl, inr,
}
use qpub_go.Prelude.Text.{Text, same, same_iff}
use qpub_go.Prelude.Dict.{lookup, insert, lookup-delete}
use qpub_go.Channel.Types.{SocketChannel}
use qpub_go.Channel.Handlers.{has_callback_locked}
use qpub_go.Channel.Invariant.{Inv, Calm}
use qpub_go.Channel.Held.{IsHeld}
use qpub_go.Channel.Monad.{deadlock, fault}
use qpub_go.Channel.Calls.{has_callback}
use qpub_go.Manager.Ops.{
  SocketManager, Result, done, failed, on_channel, remove, release_last, release_count, release,
  count_or_zero,
}
use qpub_go.Manager.Counts.{
  count_of, pointer_of, kept, dropped, emptied, release_used, release_unused,
}
use qpub_go.Manager.Sound.{
  Sound, Addresses-delete, Kept, Kept-Sound, length-set, All-set, at_index, heap-Calm, set-Kept,
}
use qpub_go.Manager.Gets.{count_insert, count_delete, recount-Sound}

pub remove-Sound : (name : Text) (m : SocketManager) → Sound m → Sound (remove name m)
unfolding remove
remove-Sound name m s = record {
  invs = s.invs;
  valid = λ k a e. ground (arith, lookup-delete name k m.channels, s.valid k a);
  distinct = λ j k a e g.
      ground
        (arith, lookup-delete name j m.channels, lookup-delete name k m.channels, s.distinct j k a);
  listed = Addresses-delete (length m.heap) name m.channels s.listed;
  held =
      λ k n e. ground (arith, count_delete name k m, lookup-delete name k m.channels, s.held k n);
}

-- One holder of the name less, if it has any.
abbrev pub Released : Text → SocketManager → SocketManager → Type 0
Released name m n =
    Sound n × ((k : Text) → count_of k n ≡ (if same name k then count_of k m - 1 else count_of k m))

pub emptied-Inv : (c : SocketChannel) → Inv (emptied c)
emptied-Inv c = record { free = refl; exclusive = refl; drained = inr refl }

unlocked-Inv : (c : SocketChannel) → Inv c → Inv (record c { mu = false })
unlocked-Inv c v = record { free = refl; exclusive = v.exclusive; drained = v.drained }

set_twice-Kept :
    (m : SocketManager) (a : ℕ) (c d : SocketChannel)
    → All Calm m.heap
    → Inv c
    → Inv d
    → Kept m (record m { heap = set (set m.heap a c) a d })
set_twice-Kept m a c d h v w = (
  refl,
  refl,
  length-set (set m.heap a c) a d ∙ length-set m.heap a c,
  All-set Calm (set m.heap a c) a d (All-set Calm m.heap a c h (λ _. v)) (λ _. w),
)

kept-Released :
    (name : Text) (a : ℕ) (c : SocketChannel) (m : SocketManager)
    → pointer_of name m ≡ some a
    → count_of name m ≡ 1
    → Inv c
    → Sound m
    → Released name m (kept name a c m)
kept-Released name a c m there one v s =
    let n = record m { heap = set m.heap a (record c { mu = false }) } in
    let sound : Sound n =
      Kept-Sound m n (set-Kept m a (record c { mu = false }) s.invs (λ _. unlocked-Inv c v)) s in
    (
      recount-Sound name 0 n (ap is_some there) sound,
      λ k. ground (arith, count_insert name k 0 m, same_iff name k),
    )

dropped-Released :
    (name : Text) (a : ℕ) (c : SocketChannel) (m : SocketManager)
    → count_of name m ≡ 1
    → Inv c
    → Sound m
    → Released name m (dropped name a c m)
unfolding remove
dropped-Released name a c m one v s =
    let unlocked = record c { mu = false } in
    let n = record m { heap = set (set m.heap a unlocked) a (emptied c) } in
    let sound : Sound n =
      Kept-Sound m n
        (set_twice-Kept m a unlocked (emptied c) s.invs (unlocked-Inv c v) (emptied-Inv c)) s in
    (remove-Sound name n sound, λ k. ground (arith, count_delete name k m, same_iff name k))

-- The last holder lets go of a channel whose mutex is held.
abbrev pub IsBlocked : Text → SocketManager → Type 0
IsBlocked name m =
    (count_of name m ≡ 1)
    × ((a : ℕ) × (c : SocketChannel) × (pointer_of name m ≡ some a)
        × (get_elem? m.heap a ≡ some c)
        × IsHeld c)

has_callback-waits : (c : SocketChannel) → IsHeld c → has_callback c ≡ fault deadlock
unfolding has_callback
has_callback-waits c held = ground arith

blocked_lem :
    (name : Text) (a : ℕ) (c : SocketChannel) (m : SocketManager)
    → get_elem? m.heap a ≡ some c
    → IsHeld c
    → release_last name (some a) m ≡ failed deadlock
unfolding release_last on_channel
blocked_lem name a c m there held = rw (there, on_channel) (rw (has_callback-waits c held) refl)

-- A call of `Release` returns, or waits for ever.
abbrev pub Outcome : Text → SocketManager → Result (Unit {0}) → Type 0
Outcome name m r =
    ((n : SocketManager) × (r ≡ done tt n) × Released name m n)
    ⊎ ((r ≡ failed deadlock) × IsBlocked name m)

same-Outcome :
    (name : Text) (m : SocketManager) (r q : Result (Unit {0}))
    → r ≡ q
    → Outcome name m q
    → Outcome name m r
same-Outcome name m r q e h = rw e h

release_last-Outcome :
    (name : Text) (a : ℕ) (m : SocketManager)
    → pointer_of name m ≡ some a
    → count_of name m ≡ 1
    → Sound m
    → Outcome name m (release_last name (some a) m)
release_last-Outcome name a m there one s =
    let (c, e) = at_index m.heap a (s.valid name a there) in
    elim (Bool-cases c.mu) [
      | inl held ↦ inr (blocked_lem name a c m e held, (one, (a, c, there, e, held)))
      | inr free ↦
          let v = heap-Calm m a c s e free in
          elim (Bool-cases (has_callback_locked c)) [
            | inl used ↦ inl (
              kept name a c m,
              release_used name a m e free used,
              kept-Released name a c m there one v s,
            )
            | inr unused ↦ inl (
              dropped name a c m,
              release_unused name a m e free unused,
              dropped-Released name a c m one v s,
            )
          ]
    ]

release_count-Outcome :
    (name : Text) (o : Option ℕ) (m : SocketManager)
    → lookup name m.ref_counts ≡ o
    → Sound m
    → Outcome name m (release_count name o m)
unfolding release_count
release_count-Outcome name none m e s = inl (m, refl, (s, λ k. ground (arith, same_iff name k)))
release_count-Outcome name (some zero) m e s =
    inl (m, refl, (s, λ k. ground (arith, same_iff name k)))
release_count-Outcome name (some (suc zero)) m e s = elim (Option-cases (pointer_of name m)) [
  | inl gone ↦ absurd (ground (arith, s.held name 0 (ap count_or_zero e)))
  | inr (a, there) ↦
      same-Outcome name m _ _ (ap (λ x. release_last name x m) there)
        (release_last-Outcome name a m there (ap count_or_zero e) s)
]
release_count-Outcome name (some (suc (suc i))) m e s = inl (
  record m { ref_counts = insert name (suc i) m.ref_counts },
  refl,
  (
    recount-Sound name (suc i) m (s.held name (suc i) (ap count_or_zero e)) s,
    λ k. ground (arith, count_insert name k (suc i) m, same_iff name k),
  ),
)

pub release-Outcome : (name : Text) (m : SocketManager) → Sound m → Outcome name m (release name m)
unfolding release
release-Outcome name m s = release_count-Outcome name (lookup name m.ref_counts) m refl s

-- `Remove` takes the name away, whoever holds it.
pub remove-count :
    (name k : Text) (m : SocketManager)
    → count_of k (remove name m) ≡ (if same name k then 0 else count_of k m)
unfolding remove
remove-count name k m = count_delete name k m
