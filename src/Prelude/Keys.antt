-- ===== src/Prelude/Keys.antt =====
-- Go's order of strings and `sort.Strings`, for the keys of a map.
use mathlib.Core.Path.{◌≡◌, ◌∙◌, refl, sym, ap}
use mathlib.Core.Logic.{inl, inr}
use mathlib.Core.Bool.{Bool, true, false, ◌||◌}
use mathlib.Core.List.{List, [], ◌∷◌}
use native.Mathlib.Omega.{arith}
use qpub_go.Prelude.Tests.{ltb, if◌then◌else◌, is_some, Bool-cases}
use qpub_go.Prelude.Lists.{All}
use qpub_go.Prelude.Text.{Text, same, eq_of_same, same_refl}
use qpub_go.Prelude.Dict.{Dict, lookup}

-- Go's `s < t`.
unfoldable pub before : Text → Text → Bool
before [] [] = false
before [] (d ∷ t) = true
before (c ∷ s) [] = false
before (c ∷ s) (d ∷ t) = if ltb c d then true else if ltb d c then false else before s t

unfoldable pub insert_key : Text → List Text → List Text
insert_key k [] = k ∷ []
insert_key k (j ∷ js) = if before j k then j ∷ insert_key k js else k ∷ j ∷ js

-- `sort.Strings`
unfoldable pub sort : List Text → List Text
sort [] = []
sort (k ∷ ks) = insert_key k (sort ks)

-- The keys that a `range` over the map gives, in the order of the representation.
unfoldable pub keys {ℓ} : {V : Type ℓ} → Dict V → List Text
keys [] = []
keys ((k, v) ∷ m) = k ∷ keys m

-- Every key has one entry.
abbrev pub IsMap {ℓ} : {V : Type ℓ} → Dict V → Type 0
IsMap [] = Unit
IsMap ((k, v) ∷ m) = (is_some (lookup k m) ≡ false) × IsMap m

abbrev has : Text → List Text → Bool
has k [] = false
has k (j ∷ js) = same j k || has k js

abbrev Above : Text → List Text → Type 0
Above k = All (λ j. before k j ≡ true)

abbrev IsSorted : List Text → Type 0
IsSorted [] = Unit
IsSorted (k ∷ ks) = Above k ks × IsSorted ks

before_irrefl : (s : Text) → before s s ≡ false
unfolding before
before_irrefl [] = refl
before_irrefl (c ∷ s) = ground (arith, before_irrefl s)

before_trans : (s t u : Text) → before s t ≡ true → before t u ≡ true → before s u ≡ true
unfolding before
before_trans [] [] u h g = ground arith
before_trans [] (d ∷ t) [] h g = ground arith
before_trans [] (d ∷ t) (e ∷ u) h g = refl
before_trans (c ∷ s) [] u h g = ground arith
before_trans (c ∷ s) (d ∷ t) [] h g = ground arith
before_trans (c ∷ s) (d ∷ t) (e ∷ u) h g = ground (arith, before_trans s t u)

before-total : (s t : Text) → before s t ≡ false → same s t ≡ false → before t s ≡ true
unfolding before same
before-total [] [] h g = ground arith
before-total [] (d ∷ t) h g = ground arith
before-total (c ∷ s) [] h g = refl
before-total (c ∷ s) (d ∷ t) h g = ground (arith, before-total s t)

before-ne : (s t : Text) → before s t ≡ true → same s t ≡ false
before-ne s t h = elim (Bool-cases (same s t)) [
  | inl e ↦ absurd (ground (arith, before_irrefl s, ap (before s) (eq_of_same s t e)))
  | inr e ↦ e
]

same_comm : (s t : Text) → same s t ≡ same t s
unfolding same
same_comm [] [] = refl
same_comm [] (d ∷ t) = refl
same_comm (c ∷ s) [] = refl
same_comm (c ∷ s) (d ∷ t) = ground (arith, same_comm s t)

Above-trans : (j k : Text) (ks : List Text) → before j k ≡ true → Above k ks → Above j ks
Above-trans j k [] h a = tt
Above-trans j k (i ∷ ks) h a = (before_trans j k i h a.0, Above-trans j k ks h a.1)

Above-insert_key :
    (j k : Text) (ks : List Text) → before j k ≡ true → Above j ks → Above j (insert_key k ks)
unfolding insert_key
Above-insert_key j k [] h a = (h, tt)
Above-insert_key j k (i ∷ ks) h a = ground (arith, Above-insert_key j k ks h)

insert_key-IsSorted :
    (k : Text) (ks : List Text) → has k ks ≡ false → IsSorted ks → IsSorted (insert_key k ks)
unfolding insert_key
insert_key-IsSorted k [] h a = (tt, tt)
insert_key-IsSorted k (j ∷ ks) h (above, sorted) = elim (Bool-cases (before j k)) [
  | inl e ↦ rw e (Above-insert_key j k ks e above, insert_key-IsSorted k ks (ground arith) sorted)
  | inr e ↦
      let lower : before k j ≡ true = before-total j k e (ground arith) in
      rw e ((lower, Above-trans k j ks lower above), (above, sorted))
]

has-insert_key : (i k : Text) (ks : List Text) → has i (insert_key k ks) ≡ (same k i || has i ks)
unfolding insert_key
has-insert_key i k [] = refl
has-insert_key i k (j ∷ ks) = ground (arith, has-insert_key i k ks)

has-sort : (i : Text) (ks : List Text) → has i (sort ks) ≡ has i ks
unfolding sort
has-sort i [] = refl
has-sort i (k ∷ ks) = has-insert_key i k (sort ks) ∙ ap (λ b. same k i || b) (has-sort i ks)

has-keys {ℓ} : {V : Type ℓ} (i : Text) (m : Dict V) → has i (keys m) ≡ is_some (lookup i m)
unfolding keys lookup
has-keys i [] = refl
has-keys i ((k, v) ∷ m) = ground (arith, has-keys i m)

sort-IsSorted {ℓ} : {V : Type ℓ} (m : Dict V) → IsMap m → IsSorted (sort (keys m))
unfolding sort keys
sort-IsSorted [] h = tt
sort-IsSorted ((k, v) ∷ m) h =
    insert_key-IsSorted k (sort (keys m)) (has-sort k (keys m) ∙ (has-keys k m ∙ h.0))
      (sort-IsSorted m h.1)

Above-has : (k i : Text) (ks : List Text) → Above k ks → has i ks ≡ true → before k i ≡ true
Above-has k i [] a h = ground arith
Above-has k i (j ∷ ks) a h = elim (Bool-cases (same j i)) [
  | inl e ↦ rw (eq_of_same j i e) at a.0
  | inr e ↦ Above-has k i ks a.1 (ground arith)
]

-- The first keys of two sorted lists with the same keys.
heads_same :
    (x y : Text) (xs ys : List Text)
    → Above x xs
    → Above y ys
    → ((k : Text) → has k (x ∷ xs) ≡ has k (y ∷ ys))
    → x ≡ y
heads_same x y xs ys a b h = elim (Bool-cases (same x y)) [
  | inl e ↦ eq_of_same x y e
  | inr e ↦
      let below : before y x ≡ true =
        Above-has y x ys b (ground (arith, h x, same_refl x, same_comm x y)) in
      let over : before x y ≡ true =
        Above-has x y xs a (ground (arith, h y, same_refl y, same_comm x y)) in
      absurd (ground (arith, before_irrefl x, before_trans x y x over below))
]

not-Above : (x k : Text) (xs : List Text) → Above x xs → same x k ≡ true → has k xs ≡ false
not-Above x k xs a e = elim (Bool-cases (has k xs)) [
  | inl g ↦ absurd (ground (arith, before-ne x k (Above-has x k xs a g)))
  | inr g ↦ g
]

tails_same :
    (x : Text) (xs ys : List Text)
    → Above x xs
    → Above x ys
    → ((k : Text) → has k (x ∷ xs) ≡ has k (x ∷ ys))
    → (k : Text) → has k xs ≡ has k ys
tails_same x xs ys a b h k = elim (Bool-cases (same x k)) [
  | inl e ↦ not-Above x k xs a e ∙ sym (not-Above x k ys b e)
  | inr e ↦ ground (arith, h k)
]

sorted_unique :
    (xs ys : List Text) → IsSorted xs → IsSorted ys → ((k : Text) → has k xs ≡ has k ys) → xs ≡ ys
sorted_unique [] [] a b h = refl
sorted_unique [] (y ∷ ys) a b h = absurd (ground (arith, h y, same_refl y))
sorted_unique (x ∷ xs) [] a b h = absurd (ground (arith, h x, same_refl x))
sorted_unique (x ∷ xs) (y ∷ ys) a b h =
    let e : x ≡ y = heads_same x y xs ys a.0 b.0 h in
    let b' : Above x ys = rw (sym e) at b.0 in
    let h' : ((k : Text) → has k (x ∷ xs) ≡ has k (x ∷ ys)) = rw (sym e) at h in
    rw (sym e) (ap (λ l. x ∷ l) (sorted_unique xs ys a.1 b.1 (tails_same x xs ys a.0 b' h')))

-- The sorted keys depend on the map alone, and not on the order of its representation.
pub sorted_keys_unique {ℓ} :
    {V : Type ℓ} (p q : Dict V)
    → IsMap p
    → IsMap q
    → ((k : Text) → lookup k p ≡ lookup k q)
    → sort (keys p) ≡ sort (keys q)
sorted_keys_unique p q hp hq h =
    sorted_unique (sort (keys p)) (sort (keys q)) (sort-IsSorted p hp) (sort-IsSorted q hq) (λ k.
      has-sort k (keys p)
      ∙ (has-keys k p ∙ (ap is_some (h k) ∙ sym (has-sort k (keys q) ∙ has-keys k q))))
