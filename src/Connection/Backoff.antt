-- ===== src/Connection/Backoff.antt =====
-- The delay before a reconnection, in `tryReconnect` of connection/connection.go.
use qpub_go.Prelude.{ℕ, zero, suc, ◌*◌, ◌^◌, ◌<◌, ℤ, pos, false, ◌≡◌, if◌then◌else◌}
use qpub_go.Prelude.Duration.{milliseconds, exceeds, exceeds-cap, milliseconds_lem}
use qpub_go.Options.{Options}

-- Go's `float64` with the conversions from and to `int64`, and the reading of a bit pattern.
pub record Floats (F : Type 0) : Type 0 where
  pub one : F
  pub of_int : ℤ → F
  pub of_bits : ℕ → F
  pub mul : F → F → F
  pub to_int : F → ℤ

module _ {F : Type 0} (floats : Floats F) where
  -- `r *= base`, `n` times.
  unfoldable pub pow_from : F → F → ℕ → F
  pow_from r base zero = r
  pow_from r base (suc n) = pow_from (floats.mul r base) base n

  unfoldable pub pow : F → ℕ → F
  pow base exp = pow_from floats.one base exp

  -- The delay of the attempt with the number `suc n`.
  unfoldable pub delay : Options → ℕ → ℤ
  delay o n =
      let d = milliseconds (
        floats.to_int (
          floats.mul (floats.of_int o.initial_reconnect_delay_ms)
            (pow (floats.of_bits o.reconnect_backoff_multiplier) n))) in
      let cap = milliseconds o.max_reconnect_delay_ms in if exceeds d cap then cap else d

  -- No delay exceeds `MaxReconnectDelayMs`, up to 292 years of it, whatever the attempt, the first
  -- delay and the multiplier.
  delay-cap :
      (o : Options) (n ms : ℕ)
      → o.max_reconnect_delay_ms ≡ pos ms
      → ms * 1000000 < 2 ^ 63
      → exceeds (delay o n) (pos (ms * 1000000)) ≡ false
  unfolding delay
  delay-cap o n ms h small = rw (h, milliseconds_lem ms small) (exceeds-cap _ (pos (ms * 1000000)))
