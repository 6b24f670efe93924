-- ===== src/Manager/Sound.antt =====
-- The invariant of `SocketManager` (channel/socket.go) between its methods, and what keeps it.
use qpub_go.Prelude.{
  ℕ, zero, suc, ◌<◌, true, false, some, List, [], ◌∷◌, ◌++◌, ◌≡◌, ◌∙◌, sym, ap, refl, arith, length,
  get_elem?, set, is_some, All, none≢some, Option-cases, Bool-cases, inl, inr,
}
use qpub_go.Prelude.Text.{Text, same}
use qpub_go.Prelude.Dict.{Dict, insert, delete}
use qpub_go.Channel.Types.{SocketChannel}
use qpub_go.Channel.Monad.{Outcome, ok, fault, M}
use qpub_go.Channel.Invariant.{Inv, Calm, Post}
use qpub_go.Manager.Ops.{
  SocketManager, Result, done, failed, and_then, write_back, on_channel, each, all_in,
}
use qpub_go.Manager.Counts.{count_of, pointer_of, on_channel_lem}

-- Addresses of channels in a heap of this length.
abbrev pub Addresses : ℕ → List ℕ → Type 0
Addresses n = All (λ a. a < n)

-- Every channel that no call holds keeps its own invariant, the pointers of different names are different channels, and
-- a name with holders has a channel.
pub record Sound (m : SocketManager) : Type 0 where
  pub invs : All Calm m.heap
  pub valid : (k : Text) (a : ℕ) → pointer_of k m ≡ some a → a < length m.heap
  pub distinct :
      (j k : Text) (a : ℕ) → pointer_of j m ≡ some a → pointer_of k m ≡ some a → same j k ≡ true
  pub listed : Addresses (length m.heap) (all_in m.channels)
  pub held : (k : Text) (n : ℕ) → count_of k m ≡ suc n → is_some (pointer_of k m) ≡ true

-- Only the channels themselves have changed.
abbrev pub Kept : SocketManager → SocketManager → Type 0
Kept m n =
    (n.channels ≡ m.channels)
    × (n.ref_counts ≡ m.ref_counts)
    × (length n.heap ≡ length m.heap)
    × All Calm n.heap

pub length-set : {A : Type 0} (xs : List A) (i : ℕ) (v : A) → length (set xs i v) ≡ length xs
length-set [] i v = refl
length-set (x ∷ xs) zero v = refl
length-set (x ∷ xs) (suc i) v = ap suc (length-set xs i v)

pub All-set :
    (P : SocketChannel → Type 0) (cs : List SocketChannel) (i : ℕ) (c : SocketChannel)
    → All P cs
    → P c
    → All P (set cs i c)
All-set P [] i c h v = tt
All-set P (d ∷ cs) zero c h v = (v, h.1)
All-set P (d ∷ cs) (suc i) c h v = (h.0, All-set P cs i c h.1 v)

pub All-append_one :
    (cs : List SocketChannel) (c : SocketChannel) → All Calm cs → Inv c → All Calm (cs ++ c ∷ [])
All-append_one [] c h v = (λ _. v, tt)
All-append_one (d ∷ cs) c h v = (h.0, All-append_one cs c h.1 v)

pub All-at :
    (P : SocketChannel → Type 0) (cs : List SocketChannel) (i : ℕ) (c : SocketChannel)
    → All P cs
    → get_elem? cs i ≡ some c
    → P c
All-at P [] i c h e = absurd (none≢some e)
All-at P (d ∷ cs) zero c h e = let same_one : d ≡ c = ground arith in rw same_one at h.0
All-at P (d ∷ cs) (suc i) c h e = All-at P cs i c h.1 e

-- No mutex is held by a call that never returns.
abbrev pub IsFree : SocketManager → Type 0
IsFree m = All (λ c. c.mu ≡ false) m.heap

free-Inv : (cs : List SocketChannel) → All Calm cs → All (λ c. c.mu ≡ false) cs → All Inv cs
free-Inv [] h g = tt
free-Inv (c ∷ cs) h g = (h.0 g.0, free-Inv cs h.1 g.1)

pub IsFree-Inv : (m : SocketManager) → Sound m → IsFree m → All Inv m.heap
IsFree-Inv m s h = free-Inv m.heap s.invs h

Inv-Calm : (cs : List SocketChannel) → All Inv cs → All Calm cs
Inv-Calm [] h = tt
Inv-Calm (c ∷ cs) h = (λ _. h.0, Inv-Calm cs h.1)

pub at_index :
    (cs : List SocketChannel) (i : ℕ)
    → i < length cs
    → (c : SocketChannel) × (get_elem? cs i ≡ some c)
at_index [] i h = absurd (omega arith)
at_index (c ∷ cs) zero h = (c, refl)
at_index (c ∷ cs) (suc i) h = at_index cs i (omega arith)

pub heap-Calm :
    (m : SocketManager) (a : ℕ) (c : SocketChannel) → Sound m → get_elem? m.heap a ≡ some c → Calm c
heap-Calm m a c s e = All-at Calm m.heap a c s.invs e

pub set-Kept :
    (m : SocketManager) (a : ℕ) (c : SocketChannel)
    → All Calm m.heap
    → Calm c
    → Kept m (record m { heap = set m.heap a c })
set-Kept m a c h v = (refl, refl, length-set m.heap a c, All-set Calm m.heap a c h v)

pub Kept-Sound : (m n : SocketManager) → Kept m n → Sound m → Sound n
Kept-Sound m n k s = record {
  invs = k.3;
  valid = rw (k.0, k.2) s.valid;
  distinct = rw k.0 s.distinct;
  listed = rw (k.0, k.2) s.listed;
  held = rw (k.0, k.1) s.held;
}

write_back-Kept :
    {A : Type 0} (a : ℕ) (m n : SocketManager) (o : Outcome A) (r : A)
    → All Calm m.heap
    → Post Calm (λ e. Unit) o
    → write_back a m o ≡ done r n
    → Kept m n
write_back-Kept a m n (ok x c) r h post e =
    let same_one : record m { heap = set m.heap a c } ≡ n = cc in
    rw (sym same_one) (set-Kept m a c h post)
write_back-Kept a m n (fault x) r h post e = absurd (ground arith)

-- A call of a method that keeps the invariant of its channel.
pub on_channel-Kept :
    {A : Type 0} (a : ℕ) (call : M A) (m n : SocketManager) (r : A)
    → All Calm m.heap
    → ((c : SocketChannel) → Calm c → Post Calm (λ e. Unit) (call c))
    → on_channel a call m ≡ done r n
    → Kept m n
unfolding on_channel
on_channel-Kept a call m n r h post e = elim (Option-cases (get_elem? m.heap a)) [
  | inl gone ↦ absurd (ground arith)
  | inr (c, there) ↦
      write_back-Kept a m n (call c) r h (post c (All-at Calm m.heap a c h there))
        (rw (there, on_channel) at e)
]

pub and_then_done :
    {A B : Type 0} (r : Result A) (f : A → SocketManager → Result B) (b : B) (n : SocketManager)
    → and_then r f ≡ done b n
    → (a : A) × (k : SocketManager) × (r ≡ done a k) × (f a k ≡ done b n)
and_then_done (done a k) f b n e = (a, k, refl, e)
and_then_done (failed x) f b n e = absurd (ground arith)

Kept-trans : (m n k : SocketManager) → Kept m n → Kept n k → Kept m k
Kept-trans m n k h g = (g.0 ∙ h.0, g.1 ∙ h.1, g.2 ∙ h.2, g.3)

pub each-Kept :
    (call : M (Unit {0})) (rest : List ℕ) (m n : SocketManager)
    → All Calm m.heap
    → ((c : SocketChannel) → Calm c → Post Calm (λ e. Unit) (call c))
    → each call rest m ≡ done tt n
    → Kept m n
unfolding each
each-Kept call [] m n h post e =
    let same_one : m ≡ n = cc in rw (sym same_one) (refl, refl, refl, h)
each-Kept call (a ∷ more) m n h post e =
    let (x, k, first, then_rest) = and_then_done (on_channel a call m) _ tt n e in
    let kept = on_channel-Kept a call m k x h post first in
    Kept-trans m k n kept (each-Kept call more k n kept.3 post then_rest)

pub Addresses-more : (n : ℕ) (rest : List ℕ) → Addresses n rest → Addresses (suc n) rest
Addresses-more n [] h = tt
Addresses-more n (a ∷ rest) h = (omega arith, Addresses-more n rest h.1)

pub Addresses-insert :
    (n : ℕ) (k : Text) (a : ℕ) (d : Dict ℕ)
    → a < n
    → Addresses n (all_in d)
    → Addresses n (all_in (insert k a d))
unfolding all_in insert
Addresses-insert n k a [] h g = (h, tt)
Addresses-insert n k a ((j, b) ∷ d) h g = elim (Bool-cases (same j k)) [
  | inl e ↦ rw (e, insert) (h, g.1)
  | inr e ↦ rw (e, insert) (g.0, Addresses-insert n k a d h g.1)
]

pub Addresses-delete :
    (n : ℕ) (k : Text) (d : Dict ℕ) → Addresses n (all_in d) → Addresses n (all_in (delete k d))
unfolding all_in delete
Addresses-delete n k [] g = tt
Addresses-delete n k ((j, b) ∷ d) g = elim (Bool-cases (same j k)) [
  | inl e ↦ rw (e, delete) (Addresses-delete n k d g.1)
  | inr e ↦ rw (e, delete) (g.0, Addresses-delete n k d g.1)
]

-- A loop over channels of the heap returns, if the method does.
pub each-returns :
    (call : M (Unit {0})) (rest : List ℕ) (m : SocketManager)
    → All Inv m.heap
    → Addresses (length m.heap) rest
    → ((c : SocketChannel) → Inv c → (d : SocketChannel) × (call c ≡ ok tt d) × Inv d)
    → (n : SocketManager) × (each call rest m ≡ done tt n) × Kept m n
unfolding each
each-returns call [] m h g returns = (m, refl, (refl, refl, refl, Inv-Calm m.heap h))
each-returns call (a ∷ rest) m h g returns =
    let (c, there) = at_index m.heap a g.0 in
    let (d, called, v) = returns c (All-at Inv m.heap a c h there) in
    let k = record m { heap = set m.heap a d } in
    let kept : Kept m k = set-Kept m a d (Inv-Calm m.heap h) (λ _. v) in
    let (n, loops, more) =
      each-returns call rest k (All-set Inv m.heap a d h v) (rw kept.2 g.1) returns in
    (n, rw (on_channel_lem a call m there called) loops, Kept-trans m k n kept more)
