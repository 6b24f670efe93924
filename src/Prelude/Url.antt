-- ===== src/Prelude/Url.antt =====
-- `url.QueryEscape` of Go's net/url, and the reading of what it writes.
use Prim.Native.Nat.{ℕ, ◌+◌, ◌-◌, ◌*◌, ◌/◌, ◌%◌, ◌<◌}
use mathlib.Core.Path.{◌≡◌, refl}
use mathlib.Core.Bool.{Bool, true, ◌&&◌, ◌||◌}
use mathlib.Core.List.{[], ◌∷◌}
use native.Mathlib.Omega.{arith}
use mathlib.Core.Logic.{inl, inr}
use qpub_go.Prelude.Tests.{Bool-cases, ◌==◌, leb, ltb, if◌then◌else◌}
use qpub_go.Prelude.Lists.{All}
use qpub_go.Prelude.Text.{Text}

abbrev pub is_unreserved : ℕ → Bool
is_unreserved c =
    (leb b'A' c && leb c b'Z')
    || (leb b'a' c && leb c b'z')
    || (leb b'0' c && leb c b'9')
    || (c == b'-')
    || (c == b'_')
    || (c == b'.')
    || (c == b'~')

abbrev hex_digit : ℕ → ℕ
hex_digit v = if ltb v 10 then b'0' + v else b'A' + (v - 10)

abbrev hex_value : ℕ → ℕ
hex_value c = if leb b'A' c then c - b'A' + 10 else c - b'0'

unfoldable pub query_escape : Text → Text
query_escape [] = []
query_escape (c ∷ s) =
    if is_unreserved c
    then c ∷ query_escape s
    else if c == b' '
    then b'+' ∷ query_escape s
    else b'%' ∷ hex_digit (c / 16) ∷ hex_digit (c % 16) ∷ query_escape s

unfoldable pub query_unescape : Text → Text
query_unescape [] = []
query_unescape (c ∷ []) = if c == b'+' then b' ' ∷ [] else c ∷ []
query_unescape (c ∷ d ∷ []) =
    let rest = query_unescape (d ∷ []) in if c == b'+' then b' ' ∷ rest else c ∷ rest
query_unescape (c ∷ d ∷ e ∷ s) =
    let rest = query_unescape (d ∷ e ∷ s) in
    let after = query_unescape s in
    if c == b'%'
    then (hex_value d * 16 + hex_value e) ∷ after
    else if c == b'+'
    then b' ' ∷ rest
    else c ∷ rest

hex_value-digit : (v : ℕ) → v < 16 → hex_value (hex_digit v) ≡ v
hex_value-digit v h = ground arith

query_unescape-plain :
    (c : ℕ) (s : Text) → is_unreserved c ≡ true → query_unescape (c ∷ s) ≡ c ∷ query_unescape s
unfolding query_unescape
query_unescape-plain c [] h = ground arith
query_unescape-plain c (d ∷ []) h = ground arith
query_unescape-plain c (d ∷ e ∷ s) h = ground arith

query_unescape-space : (s : Text) → query_unescape (b'+' ∷ s) ≡ b' ' ∷ query_unescape s
unfolding query_unescape
query_unescape-space [] = refl
query_unescape-space (d ∷ []) = refl
query_unescape-space (d ∷ e ∷ s) = refl

query_unescape-hex :
    (c : ℕ) (s : Text)
    → c < 256
    → query_unescape (b'%' ∷ hex_digit (c / 16) ∷ hex_digit (c % 16) ∷ s) ≡ c ∷ query_unescape s
unfolding query_unescape
query_unescape-hex c s h =
    let e : c / 16 * 16 + c % 16 ≡ c = omega arith in
    rw (hex_value-digit (c / 16) (omega arith), hex_value-digit (c % 16) (omega arith), e) refl

pub query_unescape-escape : (s : Text) → All (λ c. c < 256) s → query_unescape (query_escape s) ≡ s
unfolding query_escape query_unescape
query_unescape-escape [] h = refl
query_unescape-escape (c ∷ s) h =
    let ih = query_unescape-escape s h.1 in
    elim (Bool-cases (is_unreserved c)) [
      | inl e ↦ rw (e, query_unescape-plain c (query_escape s) e, ih) refl
      | inr e ↦ elim (Bool-cases (c == b' ')) [
        | inl space ↦ rw (e, space, query_unescape-space (query_escape s), ih) (ground arith)
        | inr other ↦ rw (e, other, query_unescape-hex c (query_escape s) h.0, ih) refl
      ]
    ]
