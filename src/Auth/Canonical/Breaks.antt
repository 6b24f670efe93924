-- ===== src/Auth/Canonical/Breaks.antt =====
-- The line breaks of the canonical string (auth/manager.go).
use qpub_go.Prelude.{
  ℕ, zero, suc, ◌+◌, ◌/◌, ◌%◌, ℤ, pos, negsuc, Option, none, some, List, [], ◌∷◌, ◌++◌, ◌≡◌, ◌≢◌,
  sym, ap, arith, map, All,
}
use qpub_go.Prelude.Text.{Text, codes}
use qpub_go.Prelude.Decimal.{fill}
use qpub_go.Prelude.Keys.{keys, sort}
use qpub_go.Options.{Permission}
use qpub_go.Connection.Ops.{decimal, or_empty}
use qpub_go.Auth.Canonical.{
  join, value_at, marshal_list, marshal_member, marshal_permission, sort_keys_recursive, alias_line,
  permission_line, lines,
}

-- No byte is a line break.
abbrev pub IsLine : Text → Type 0
IsLine = All (λ c. c ≢ 10)

abbrev pub break : ℕ
break = 10

pub IsLine-append : (s t : Text) → IsLine s → IsLine t → IsLine (s ++ t)
IsLine-append [] t h g = g
IsLine-append (c ∷ s) t h g = (h.0, IsLine-append s t h.1 g)

-- The first line ends at the first break.
cut :
    (a b r s : Text) → IsLine a → IsLine b → a ++ (break ∷ r) ≡ b ++ (break ∷ s) → (a ≡ b) × (r ≡ s)
cut [] [] r s h g e = ground arith
cut [] (d ∷ b) r s h g e = ground arith
cut (c ∷ a) [] r s h g e = ground arith
cut (c ∷ a) (d ∷ b) r s h g e = ground (arith, cut a b r s h.1 g.1 (ground arith))

uncut : (a b s : Text) → IsLine a → a ≡ b ++ (break ∷ s) → ⊥
uncut [] [] s h e = ground arith
uncut [] (d ∷ b) s h e = ground arith
uncut (c ∷ a) [] s h e = ground arith
uncut (c ∷ a) (d ∷ b) s h e = uncut a b s h.1 (ground arith)

pub join-injective :
    (x y : Text) (xs ys : List Text)
    → All IsLine (x ∷ xs)
    → All IsLine (y ∷ ys)
    → join (break ∷ []) (x ∷ xs) ≡ join (break ∷ []) (y ∷ ys)
    → x ∷ xs ≡ y ∷ ys
unfolding join
join-injective x y [] [] h g e = ap (λ s. s ∷ []) e
join-injective x y [] (y' ∷ ys) h g e = absurd (uncut x y _ h.0 e)
join-injective x y (x' ∷ xs) [] h g e = absurd (uncut y x _ g.0 (sym e))
join-injective x y (x' ∷ xs) (y' ∷ ys) h g e =
    let (first, rest) = cut x y _ _ h.0 g.0 e in
    let tails = join-injective x' y' xs ys h.1 g.1 rest in cc

fill-IsLine : (room i : ℕ) (out : Text) → IsLine out → IsLine (or_empty (fill room i out))
unfolding fill
fill-IsLine zero i out h = ground arith
fill-IsLine (suc room) i out h =
    ground (arith, fill-IsLine room (i / 10) ((48 + i % 10) ∷ out) (omega arith, h))

decimal-IsLine : (n : ℤ) → IsLine (decimal n)
decimal-IsLine (pos zero) = (omega arith, tt)
decimal-IsLine (pos (suc n)) = fill-IsLine 20 (suc n) [] tt
decimal-IsLine (negsuc n) = (omega arith, fill-IsLine 20 (suc n) [] tt)

join-IsLine : (sep : Text) (ss : List Text) → IsLine sep → All IsLine ss → IsLine (join sep ss)
unfolding join
join-IsLine sep [] h g = tt
join-IsLine sep (s ∷ []) h g = g.0
join-IsLine sep (s ∷ t ∷ rest) h g =
    IsLine-append s _ g.0 (IsLine-append sep _ h (join-IsLine sep (t ∷ rest) h g.1))

map-IsLine :
    (f : Text → Text) (ss : List Text) → ((s : Text) → IsLine (f s)) → All IsLine (map f ss)
map-IsLine f [] h = tt
map-IsLine f (s ∷ ss) h = (h s, map-IsLine f ss h)

module _ (quote : Text → Text) (quotes : (s : Text) → IsLine (quote s)) where
  marshal_list-IsLine : (l : List Text) → IsLine (marshal_list quote l)
  marshal_list-IsLine [] = ground arith
  marshal_list-IsLine (s ∷ ss) =
      IsLine-append (codes "[") _ (omega arith, tt)
        (IsLine-append (join (codes ",") (map quote (s ∷ ss))) (codes "]")
          (join-IsLine (codes ",") (map quote (s ∷ ss)) (omega arith, tt)
            (map-IsLine quote (s ∷ ss) quotes))
          (omega arith, tt))

  marshal_member-IsLine : (m : Permission) (k : Text) → IsLine (marshal_member quote m k)
  marshal_member-IsLine m k =
      IsLine-append (quote k) _ (quotes k)
        (IsLine-append (codes ":") _ (omega arith, tt) (marshal_list-IsLine (value_at k m)))

  pub marshal_permission-IsLine : (m : Permission) → IsLine (marshal_permission quote m)
  unfolding marshal_permission
  marshal_permission-IsLine m =
      IsLine-append (codes "{") _ (omega arith, tt)
        (IsLine-append (join (codes ",") (map (marshal_member quote m) (sort (keys m)))) (codes "}")
          (join-IsLine (codes ",") (map (marshal_member quote m) (sort (keys m))) (omega arith, tt)
            (map-IsLine (marshal_member quote m) (sort (keys m)) (marshal_member-IsLine m)))
          (omega arith, tt))

  permission_line-IsLine : (o : Option Permission) → All IsLine (permission_line quote o)
  permission_line-IsLine none = tt
  permission_line-IsLine (some p) = (
    IsLine-append (codes "permission=") _ (ground arith)
        (marshal_permission-IsLine (sort_keys_recursive p)),
    tt,
  )

  tail-IsLine :
      (alias : Text) (o : Option Permission)
      → IsLine alias
      → All IsLine (alias_line alias ++ permission_line quote o)
  tail-IsLine [] o h = permission_line-IsLine o
  tail-IsLine (c ∷ alias) o h =
      (IsLine-append (codes "alias=") (c ∷ alias) (ground arith) h, permission_line-IsLine o)

  pub lines-IsLine :
      (aki : Text) (timestamp : ℤ) (alias : Text) (o : Option Permission)
      → IsLine aki
      → IsLine alias
      → All IsLine (lines quote aki timestamp alias o)
  lines-IsLine aki timestamp alias o h g = (
    IsLine-append (codes "aki=") aki (ground arith) h,
    (
      IsLine-append (codes "timestamp=") (decimal timestamp) (ground arith)
          (decimal-IsLine timestamp),
      tail-IsLine alias o g,
    ),
  )
