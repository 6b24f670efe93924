-- ===== src/Channel/Wait.antt =====
-- `waitAck` and `signalDone` of channel/socket.go: a call that waits for an acknowledgement is a
-- reply `waits`, and its end is a step of its own.
use qpub_go.Prelude.{
  ℕ, zero, suc, ℤ, pos, negsuc, Bool, false, ◌||◌, Option, none, some, List, [], ◌∷◌, ◌++◌, ◌==◌,
  if◌then◌else◌,
}
use qpub_go.Prelude.Text.{Text, codes}
use qpub_go.Channel.Types.{Error, context_done}
use qpub_go.Channel.Monad.{M, pure, ◌>>=◌, ◌>>◌, get, modify}

-- A method returns, or waits on a `done` channel for a time in nanoseconds.
pub data Reply : Type 0 where
  returned : Option Error → Reply
  waits : ℕ → ℕ → Text → Reply

-- 10 * time.Second
abbrev pub default_timeout : ℕ
default_timeout = 10_000_000_000

unfoldable pub ack_timeout : ℤ → ℕ
ack_timeout (pos zero) = default_timeout
ack_timeout (pos (suc n)) = suc n
ack_timeout (negsuc n) = default_timeout

unfoldable pub has_signal : ℕ → List ℕ → Bool
has_signal d [] = false
has_signal d (e ∷ es) = (e == d) || has_signal d es

-- A send that finds the buffer of one full is dropped.
unfoldable pub signalled : Option ℕ → List ℕ → List ℕ
unfolding has_signal
signalled none es = es
signalled (some d) es = if has_signal d es then es else d ∷ es

abbrev pub signal_done : Option ℕ → M (Unit {0})
signal_done done = modify (λ s. record s { signals = signalled done s.signals })

-- The receive takes the value out.
unfoldable pub take_signal : ℕ → List ℕ → List ℕ
take_signal d [] = []
take_signal d (e ∷ es) = if e == d then es else e ∷ take_signal d es

-- Which case of the `select` is ready: the context's, with its error, or the acknowledgement.
pub data Wake : Type 0 where
  ended : Text → Wake
  acked : Wake

-- One look of the waiting goroutine: it goes on waiting if `done` holds nothing.
unfoldable pub wait_ack : Reply → Wake → M Reply
unfolding has_signal take_signal
wait_ack (returned e) w = pure (returned e)
wait_ack (waits d timeout op) (ended cause) =
    pure (returned (some (context_done (op ++ codes ": " ++ cause))))
wait_ack (waits d timeout op) acked = do
  c ← get
  if has_signal d c.signals
      then (do modify (λ s. record s { signals = take_signal d s.signals }); pure (returned none))
      else pure (waits d timeout op)
