-- ===== src/Channel/Itoa.antt =====
-- `itoa` of channel/socket.go: decimal digits in a buffer of eight bytes.
use qpub_go.Prelude.{
  ℕ, ◌<◌, ◌≤◌, ◌^◌, ◌==◌, ◌≡◌, inl, inr, if◌then◌else◌, Option, none, some, [], arith, Bool-cases,
}
use qpub_go.Prelude.Text.{Text, codes}
use qpub_go.Prelude.Decimal.{fill, value, fill-value, fill_total, fill_overflow}

-- `none` is the panic of an index below 0.
unfoldable pub itoa : ℕ → Option Text
itoa i = if i == 0 then some (codes "0") else fill 8 i []

-- Up to eight digits, the result denotes the number.
pub itoa_total : (i : ℕ) → i < 10 ^ 8 → (s : Text) × (itoa i ≡ some s) × (value s ≡ i)
unfolding itoa
itoa_total i h = elim (Bool-cases (i == 0)) [
  | inl e ↦ (codes "0", rw e, ground arith)
  | inr e ↦ let (s, filled) = fill_total 8 i [] h in (s, rw e filled, fill-value 8 i [] filled)
]

-- Beyond, the program ends.
pub itoa_overflow : (i : ℕ) → 10 ^ 8 ≤ i → itoa i ≡ none
unfolding itoa
itoa_overflow i h = ground (arith, fill_overflow 8 i [] h)
