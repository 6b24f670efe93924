-- ===== src/ApiKey.antt =====
-- internal/apikey/apikey.go: credentials of the form publicId:secret.
pub mod Laws
use qpub_go.Prelude.{
  ℕ, zero, suc, ◌+◌, ◌-◌, Option, none, some, List, [], ◌∷◌, ◌==◌, if◌then◌else◌, length, take,
  drop,
}
use qpub_go.Prelude.Text.{Text}

pub record Parsed : Type 0 where
  pub public_id : Text
  pub secret : Text

abbrev pub colon : ℕ
colon = b':'

-- The loop, from index `i` on: `none` is `ErrInvalidFormat`, and `sep` is `none` while it is -1.
unfoldable pub find_separator : ℕ → Text → Option ℕ → Option (Option ℕ)
find_separator i [] sep = some sep
find_separator i (c ∷ s) none = find_separator (suc i) s (if c == colon then some i else none)
find_separator i (c ∷ s) (some j) =
    let rest = find_separator (suc i) s (some j) in if c == colon then none else rest

-- After the loop; every error is `ErrInvalidFormat`.
unfoldable pub split_at : Text → Option (Option ℕ) → Option Parsed
split_at credential none = none
split_at credential (some none) = none
split_at credential (some (some zero)) = none
split_at credential (some (some (suc i))) =
    if suc i == length credential - 1
    then none
    else some (record { public_id = take (suc i) credential; secret = drop (i + 2) credential })

unfoldable pub parse : Text → Option Parsed
unfolding find_separator split_at
parse credential = split_at credential (find_separator 0 credential none)
