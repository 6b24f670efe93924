-- ===== src/Auth/Canonical/Maps.antt =====
-- The canonical string (auth/manager.go) as a function of the map.
use qpub_go.Prelude.{some, List, [], ◌∷◌, ◌≡◌, ℤ, refl}
use qpub_go.Prelude.Text.{Text}
use qpub_go.Prelude.Dict.{lookup, insert}
use qpub_go.Prelude.Keys.{keys, sort, IsMap, sorted_keys_unique}
use qpub_go.Options.{Permission}
use qpub_go.Auth.Canonical.{value_at, copy_keys, sort_keys_recursive, build_canonical_string}

copy_keys-cong :
    (p q : Permission) (ks : List Text) (out : Permission)
    → ((k : Text) → lookup k p ≡ lookup k q)
    → copy_keys p ks out ≡ copy_keys q ks out
unfolding copy_keys value_at
copy_keys-cong p q [] out h = refl
copy_keys-cong p q (k ∷ ks) out h = rw (h k) (copy_keys-cong p q ks (insert k (value_at k q) out) h)

sort_keys_recursive-cong :
    (p q : Permission)
    → IsMap p
    → IsMap q
    → ((k : Text) → lookup k p ≡ lookup k q)
    → sort_keys_recursive p ≡ sort_keys_recursive q
unfolding sort_keys_recursive
sort_keys_recursive-cong p q hp hq h =
    rw (sorted_keys_unique p q hp hq h) (copy_keys-cong p q (sort (keys q)) [] h)

-- The canonical string depends on the permission as a map only: in whatever order `range` gives its
-- keys, the string that is signed is the same.
pub build_canonical_string_unique :
    (quote : Text → Text) (aki : Text) (timestamp : ℤ) (alias : Text) (p q : Permission)
    → IsMap p
    → IsMap q
    → ((k : Text) → lookup k p ≡ lookup k q)
    → build_canonical_string quote aki timestamp alias (some p)
      ≡ build_canonical_string quote aki timestamp alias (some q)
unfolding build_canonical_string
build_canonical_string_unique quote aki timestamp alias p q hp hq h =
    rw (sort_keys_recursive-cong p q hp hq h) refl
