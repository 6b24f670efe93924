-- ===== src/Prelude/Decimal.antt =====
-- Decimal digits written from the right end of a buffer of `room` bytes, as the two `itoa` of the
-- code do, and read back.
use Prim.Native.Nat.{ℕ, zero, suc, ◌+◌, ◌-◌, ◌*◌, ◌/◌, ◌%◌, ◌^◌, ◌≤◌, ◌<◌}
use native.Mathlib.Nat.{pow-suc}
use mathlib.Core.Path.{◌≡◌, ◌∙◌}
use mathlib.Core.Logic.{inl, inr}
use mathlib.Core.List.{[], ◌∷◌}
use mathlib.Core.Option.{Option, none, some}
use native.Mathlib.Omega.{arith}
use qpub_go.Prelude.Tests.{◌==◌, Bool-cases, if◌then◌else◌}
use qpub_go.Prelude.Text.{Text}

-- `for i > 0 { n--; b[n] = byte('0' + i%10); i /= 10 }`, where `room` is `n`: `none` is the panic of
-- an index below 0.
unfoldable pub fill : ℕ → ℕ → Text → Option Text
fill zero i out = if i == 0 then some out else none
fill (suc room) i out =
    let rest = fill room (i / 10) ((48 + i % 10) ∷ out) in if i == 0 then some out else rest

abbrev pub value_from : ℕ → Text → ℕ
value_from acc [] = acc
value_from acc (c ∷ s) = value_from (acc * 10 + (c - 48)) s

-- The number that a text of digits denotes.
abbrev pub value : Text → ℕ
value s = value_from 0 s

pow_pos : (n : ℕ) → 0 < 10 ^ n
pow_pos zero = omega arith
pow_pos (suc n) = omega (arith, pow-suc 10 n, pow_pos n)

-- One digit more in front is one round of the loop.
value_from-digit :
    (i : ℕ) (out : Text) → value_from (i / 10) ((48 + i % 10) ∷ out) ≡ value_from i out
value_from-digit i out = let e : i / 10 * 10 + ((48 + i % 10) - 48) ≡ i = omega arith in rw e

pub fill-value :
    (room i : ℕ) (out : Text) {s : Text} → fill room i out ≡ some s → value s ≡ value_from i out
unfolding fill
fill-value zero i out h = ground arith
fill-value (suc room) i out {s} h = elim (Bool-cases (i == 0)) [
  | inl e ↦ ground arith
  | inr e ↦
      fill-value room (i / 10) ((48 + i % 10) ∷ out) {s = s} (rw e at h) ∙ value_from-digit i out
]

pub fill_total : (room i : ℕ) (out : Text) → i < 10 ^ room → (s : Text) × (fill room i out ≡ some s)
unfolding fill
fill_total zero i out h = (out, ground arith)
fill_total (suc room) i out h = elim (Bool-cases (i == 0)) [
  | inl e ↦ (out, rw e)
  | inr e ↦ rw e (fill_total room (i / 10) ((48 + i % 10) ∷ out) (omega (arith, pow-suc 10 room)))
]

pub fill_overflow : (room i : ℕ) (out : Text) → 10 ^ room ≤ i → fill room i out ≡ none
unfolding fill
fill_overflow zero i out h = ground arith
fill_overflow (suc room) i out h = elim (Bool-cases (i == 0)) [
  | inl e ↦ absurd (ground (arith, pow-suc 10 room, pow_pos room))
  | inr e ↦
      rw e (fill_overflow room (i / 10) ((48 + i % 10) ∷ out) (omega (arith, pow-suc 10 room)))
]
