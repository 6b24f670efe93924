-- ===== src/Rest/Registry.antt =====
-- Which channel a name stands for, in the manager of channel/rest.go.
use qpub_go.Prelude.{ℕ, true, some, List, [], ◌∷◌, ◌≡◌, ◌≢◌, refl, arith}
use qpub_go.Prelude.Text.{Text, same_iff, same_refl}
use qpub_go.Prelude.Dict.{lookup, lookup-insert, lookup-delete}
use qpub_go.Rest.{RestManager, get, has, remove}

-- A call that does not drop the channel of `name`.
pub data Call (name : Text) : Type 0 where
  gets : Text → Call name
  removes : (other : Text) → other ≢ name → Call name

unfoldable pub apply : {name : Text} → Call name → RestManager → RestManager
apply (gets n) m = (get n m).1
apply (removes n other) m = remove n m

unfoldable pub apply_all : {name : Text} → List (Call name) → RestManager → RestManager
apply_all [] m = m
apply_all (c ∷ cs) m = apply_all cs (apply c m)

apply-lookup :
    {name : Text} (c : Call name) (m : RestManager) (ch : ℕ)
    → lookup name m.channels ≡ some ch
    → lookup name (apply c m).channels ≡ some ch
unfolding apply get remove
apply-lookup {name} (gets n) m ch h =
    ground (arith, lookup-insert n name m.created m.channels, same_iff n name)
apply-lookup {name} (removes n other) m ch h =
    ground (arith, lookup-delete n name m.channels, same_iff n name)

apply_all-lookup :
    {name : Text} (cs : List (Call name)) (m : RestManager) (ch : ℕ)
    → lookup name m.channels ≡ some ch
    → lookup name (apply_all cs m).channels ≡ some ch
unfolding apply_all
apply_all-lookup [] m ch h = h
apply_all-lookup (c ∷ cs) m ch h = apply_all-lookup cs (apply c m) ch (apply-lookup c m ch h)

lookup-get :
    (name : Text) (m : RestManager) → lookup name (get name m).1.channels ≡ some (get name m).0
unfolding get
lookup-get name m = ground (arith, lookup-insert name name m.created m.channels, same_refl name)

get_known :
    (name : Text) (m : RestManager) (ch : ℕ)
    → lookup name m.channels ≡ some ch
    → (get name m ≡ (ch, m)) × (has name m ≡ true)
unfolding get has
get_known name m ch h = (rw (h) refl, rw (h) refl)

-- Until its channel is removed or the manager is reset, a name stands for the channel that the first
-- `Get` made: the channel is there, and another `Get` returns it and makes none, whatever is done
-- with other names meanwhile.
get-get :
    (name : Text) (m : RestManager) (calls : List (Call name))
    → let n = apply_all calls (get name m).1 in
      (get name n ≡ ((get name m).0, n)) × (has name n ≡ true)
get-get name m calls =
    get_known name _ _ (apply_all-lookup calls (get name m).1 (get name m).0 (lookup-get name m))
