-- ===== src/Prelude/Duration.antt =====
-- Go's `time.Duration`: nanoseconds in an `int64`, whose products wrap around.
use Prim.Native.Nat.{ℕ, suc, ◌+◌, ◌-◌, ◌*◌, ◌/◌, ◌%◌, ◌^◌, ◌<◌}
use mathlib.Core.Path.{◌≡◌}
use mathlib.Core.Bool.{Bool, true, false}
use native.Mathlib.Omega.{arith}
use qpub_go.Prelude.Tests.{ltb, leb, if◌then◌else◌}
use qpub_go.Prelude.Int.{ℤ, pos, negsuc}

-- The value of an `int64` with these bits.
abbrev signed : ℕ → ℤ
signed r = if ltb r (2 ^ 63) then pos r else negsuc (2 ^ 64 - r - 1)

unfoldable pub wrap : ℤ → ℤ
wrap (pos n) = signed (n % 2 ^ 64)
wrap (negsuc n) = signed (2 ^ 64 - 1 - n % 2 ^ 64)

abbrev from_difference : ℕ → ℕ → ℤ
from_difference m n = if leb n m then pos (m - n) else negsuc (n - m - 1)

abbrev sum : ℤ → ℤ → ℤ
sum (pos m) (pos n) = pos (m + n)
sum (pos m) (negsuc n) = from_difference m (suc n)
sum (negsuc m) (pos n) = from_difference n (suc m)
sum (negsuc m) (negsuc n) = negsuc (suc (m + n))

-- Go's `a + b` on `int64`.
unfoldable pub plus : ℤ → ℤ → ℤ
plus a b = wrap (sum a b)

-- `Unix()` of a time in milliseconds: the second that has begun.
abbrev pub seconds : ℤ → ℤ
seconds (pos n) = pos (n / 1000)
seconds (negsuc n) = negsuc (n / 1000)

-- `time.Duration(ms) * time.Millisecond`
unfoldable pub milliseconds : ℤ → ℤ
milliseconds (pos n) = wrap (pos (n * 1000000))
milliseconds (negsuc n) = wrap (negsuc (suc n * 1000000 - 1))

-- Go's `a > b`.
abbrev pub exceeds : ℤ → ℤ → Bool
exceeds (pos m) (pos n) = ltb n m
exceeds (pos m) (negsuc n) = true
exceeds (negsuc m) (pos n) = false
exceeds (negsuc m) (negsuc n) = ltb m n

pub exceeds-cap : (d cap : ℤ) → exceeds (if exceeds d cap then cap else d) cap ≡ false
exceeds-cap (pos m) (pos n) = ground arith
exceeds-cap (pos m) (negsuc n) = ground arith
exceeds-cap (negsuc m) (pos n) = ground arith
exceeds-cap (negsuc m) (negsuc n) = ground arith

pub milliseconds_lem : (ms : ℕ) → ms * 1000000 < 2 ^ 63 → milliseconds (pos ms) ≡ pos (ms * 1000000)
unfolding milliseconds wrap
milliseconds_lem ms h = ground arith
