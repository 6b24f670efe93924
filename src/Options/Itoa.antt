-- ===== src/Options/Itoa.antt =====
-- `itoa` and `BuildRestBaseURL` of option/option.go.
use qpub_go.Prelude.{
  ℕ, zero, suc, ℤ, pos, negsuc, ◌<◌, ◌^◌, ◌==◌, ◌≡◌, refl, Option, none, some, [], ◌∷◌, ◌++◌,
  if◌then◌else◌,
}
use qpub_go.Prelude.Text.{Text, codes}
use qpub_go.Prelude.Decimal.{fill, value, fill-value, fill_total}
use qpub_go.Options.{Options}

abbrev minus : Option Text → Option Text
minus none = none
minus (some s) = some (b'-' ∷ s)

-- A buffer of twelve bytes, one of them for the sign: `none` is the panic of an index below 0. The
-- least `int` is its own negation, and has no digit written.
unfoldable pub itoa : ℤ → Option Text
itoa (pos zero) = some (codes "0")
itoa (pos (suc n)) = fill 12 (suc n) []
itoa (negsuc n) = if suc n == 2 ^ 63 then some (codes "-") else minus (fill 11 (suc n) [])

abbrev scheme : Options → Text
scheme opts = if opts.is_secure then codes "https" else codes "http"

unfoldable pub build_rest_base_url : Options → Option Text
build_rest_base_url opts = elim opts.http_port [
  | none ↦ some (scheme opts ++ codes "://" ++ opts.http_host ++ codes "/v1")
  | some port ↦ elim (itoa port) [
    | none ↦ none
    | some digits ↦
        some (scheme opts ++ codes "://" ++ opts.http_host ++ codes ":" ++ digits ++ codes "/v1")
  ]
]

-- Any number of up to twelve digits is printed, and the text denotes it: so is every port.
itoa_port : (n : ℕ) → n < 10 ^ 12 → (s : Text) × (itoa (pos n) ≡ some s) × (value s ≡ n)
unfolding itoa
itoa_port zero h = (codes "0", refl, refl)
itoa_port (suc n) h =
    let (s, filled) = fill_total 12 (suc n) [] h in (s, filled, fill-value 12 (suc n) [] filled)
