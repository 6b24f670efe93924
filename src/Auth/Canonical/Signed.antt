-- ===== src/Auth/Canonical/Signed.antt =====
-- What a canonical string (auth/manager.go) says of the token request that it was built for.
use qpub_go.Prelude.{ℤ, Option, none, some, [], ◌∷◌, ◌++◌, ◌≡◌, false, refl, arith}
use qpub_go.Prelude.Text.{Text, codes, is_empty}
use qpub_go.Options.{Permission}
use qpub_go.Connection.Ops.{decimal}
use qpub_go.Auth.Canonical.{
  join, marshal_permission, sort_keys_recursive, alias_line, permission_line,
  build_canonical_string,
}
use qpub_go.Auth.Canonical.Breaks.{IsLine, break, join-injective, lines-IsLine}

-- The JSON of a permission, where there is one.
abbrev pub written : (Text → Text) → Option Permission → Option Text
written quote none = none
written quote (some p) = some (marshal_permission quote (sort_keys_recursive p))

prefix-injective : (p s t : Text) → p ++ s ≡ p ++ t → s ≡ t
prefix-injective [] s t e = e
prefix-injective (c ∷ p) s t e = prefix-injective p s t (ground arith)

tails-injective :
    (quote : Text → Text) (a b : Text) (o u : Option Permission)
    → alias_line a ++ permission_line quote o ≡ alias_line b ++ permission_line quote u
    → (a ≡ b) × (written quote o ≡ written quote u)
tails-injective quote [] [] none none e = (refl, refl)
tails-injective quote [] [] none (some q) e = ground arith
tails-injective quote [] [] (some p) none e = ground arith
tails-injective quote [] [] (some p) (some q) e = ground arith
tails-injective quote [] (d ∷ b) none none e = ground arith
tails-injective quote [] (d ∷ b) none (some q) e = ground arith
tails-injective quote [] (d ∷ b) (some p) none e = ground arith
tails-injective quote [] (d ∷ b) (some p) (some q) e = ground arith
tails-injective quote (c ∷ a) [] none none e = ground arith
tails-injective quote (c ∷ a) [] none (some q) e = ground arith
tails-injective quote (c ∷ a) [] (some p) none e = ground arith
tails-injective quote (c ∷ a) [] (some p) (some q) e = ground arith
tails-injective quote (c ∷ a) (d ∷ b) none none e = ground arith
tails-injective quote (c ∷ a) (d ∷ b) none (some q) e = ground arith
tails-injective quote (c ∷ a) (d ∷ b) (some p) none e = ground arith
tails-injective quote (c ∷ a) (d ∷ b) (some p) (some q) e = ground arith

-- A canonical string determines the public id, the digits of the time, the alias and the JSON of the
-- permission, where no public id and no alias has a line break. The JSON of a string has none.
pub build_canonical_string-injective :
    (quote : Text → Text) (aki aki' alias alias' : Text) (time time' : ℤ) (o o' : Option Permission)
    → ((s : Text) → IsLine (quote s))
    → IsLine aki
    → IsLine aki'
    → IsLine alias
    → IsLine alias'
    → build_canonical_string quote aki time alias o
      ≡ build_canonical_string quote aki' time' alias' o'
    → (aki ≡ aki')
      × (decimal time ≡ decimal time')
      × (alias ≡ alias')
      × (written quote o ≡ written quote o')
unfolding build_canonical_string
build_canonical_string-injective quote aki aki' alias alias' time time' o o' quotes h h' g g' e =
    let same =
      join-injective _ _ _ _ (lines-IsLine quote quotes aki time alias o h g)
        (lines-IsLine quote quotes aki' time' alias' o' h' g') e in
    let tails = tails-injective quote alias alias' o o' (ground arith) in
    (
      prefix-injective (codes "aki=") aki aki' (ground arith),
      prefix-injective (codes "timestamp=") (decimal time) (decimal time') (ground arith),
      tails.0,
      tails.1,
    )

-- An alias may hold the line of a permission: the request with an alias and a permission, and the one
-- with no permission whose alias goes on with a line break and that line, have one canonical string,
-- and so one signature.
pub build_canonical_string-ambiguous :
    (quote : Text → Text) (aki alias : Text) (time : ℤ) (p : Permission)
    → is_empty alias ≡ false
    → let line = codes "permission=" ++ marshal_permission quote (sort_keys_recursive p) in
      build_canonical_string quote aki time alias (some p)
      ≡ build_canonical_string quote aki time (alias ++ (break ∷ line)) none
unfolding build_canonical_string join
build_canonical_string-ambiguous quote aki [] time p h = ground arith
build_canonical_string-ambiguous quote aki (c ∷ alias) time p h = ground arith
