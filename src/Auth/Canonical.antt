-- ===== src/Auth/Canonical.antt =====
-- `BuildCanonicalString` and `sortKeysRecursive` of auth/manager.go, over the way in which
-- encoding/json writes a string.
pub mod Maps
pub mod Breaks
pub mod Signed
use qpub_go.Prelude.{ℕ, ℤ, Option, none, some, List, [], ◌∷◌, ◌++◌, map}
use qpub_go.Prelude.Text.{Text, codes, is_empty}
use qpub_go.Prelude.Dict.{Dict, lookup, insert}
use qpub_go.Prelude.Keys.{keys, sort}
use qpub_go.Prelude.{if◌then◌else◌}
use qpub_go.Options.{Permission}
use qpub_go.Connection.Ops.{decimal}

-- `strings.Join(lines, sep)`
unfoldable pub join : Text → List Text → Text
join sep [] = []
join sep (s ∷ []) = s
join sep (s ∷ t ∷ rest) = s ++ (sep ++ join sep (t ∷ rest))

abbrev or_nil : Option (List Text) → List Text
or_nil none = []
or_nil (some l) = l

-- `m[k]`, which is nil for a key that the map does not have.
unfoldable pub value_at : Text → Permission → List Text
value_at k m = or_nil (lookup k m)

-- The loop over the sorted keys, with the map that it fills. `append([]string(nil), v...)` is a list
-- with the same elements, and nil for an empty one.
unfoldable pub copy_keys : Permission → List Text → Permission → Permission
copy_keys m [] out = out
copy_keys m (k ∷ ks) out = copy_keys m ks (insert k (value_at k m) out)

unfoldable pub sort_keys_recursive : Permission → Permission
sort_keys_recursive m = copy_keys m (sort (keys m)) []

abbrev pub alias_line : Text → List Text
alias_line alias = if is_empty alias then [] else (codes "alias=" ++ alias) ∷ []

-- `json.Marshal` of the copy: the keys of a map are sorted, and a nil list is `null`. `quote` writes
-- a string.
module _ (quote : Text → Text) where
  abbrev pub marshal_list : List Text → Text
  marshal_list [] = codes "null"
  marshal_list (s ∷ ss) = codes "[" ++ (join (codes ",") (map quote (s ∷ ss)) ++ codes "]")

  abbrev pub marshal_member : Permission → Text → Text
  marshal_member m k = quote k ++ (codes ":" ++ marshal_list (value_at k m))

  unfoldable pub marshal_permission : Permission → Text
  marshal_permission m =
      codes "{" ++ (join (codes ",") (map (marshal_member m) (sort (keys m))) ++ codes "}")

  abbrev pub permission_line : Option Permission → List Text
  permission_line none = []
  permission_line (some p) =
      (codes "permission=" ++ marshal_permission (sort_keys_recursive p)) ∷ []

  abbrev pub lines : Text → ℤ → Text → Option Permission → List Text
  lines aki timestamp alias permission =
      (codes "aki=" ++ aki)
      ∷ (codes "timestamp=" ++ decimal timestamp)
      ∷ (alias_line alias ++ permission_line permission)

  -- Joined by line breaks.
  unfoldable pub build_canonical_string : Text → ℤ → Text → Option Permission → Text
  build_canonical_string aki timestamp alias permission =
      join (10 ∷ []) (lines aki timestamp alias permission)
