-- ===== src/ApiKey/Laws.antt =====
-- `Parse` accepts exactly the texts of two non-empty parts without a colon, with a colon between.
use qpub_go.Prelude.{
  ℕ, zero, suc, ◌+◌, Option, none, some, [], ◌∷◌, ◌++◌, ◌≡◌, ◌≢◌, ◌∙◌, ◌↔◌, ap, sym, refl, arith,
  ◌==◌, if◌then◌else◌, length, drop, take-append, drop-append, length-append, is_nil, ◌||◌, All,
  Bool-cases, inl, inr,
}
use qpub_go.Prelude.Text.{Text}
use qpub_go.ApiKey.{Parsed, colon, find_separator, split_at, parse}

abbrev pub Lacks : ℕ → Text → Type 0
Lacks c = All (λ d. d ≢ c)

-- With a separator at hand, the loop accepts no further colon.
find_separator_found :
    (i j : ℕ) (s : Text) → Lacks colon s → find_separator i s (some j) ≡ some (some j)
unfolding find_separator
find_separator_found i j [] h = refl
find_separator_found i j (c ∷ s) h = ground (arith, find_separator_found (suc i) j s h.1)

find_separator_lem :
    (i : ℕ) (p s : Text)
    → Lacks colon p
    → Lacks colon s
    → find_separator i (p ++ colon ∷ s) none ≡ some (some (i + length p))
unfolding find_separator
find_separator_lem i [] s hp hs = find_separator_found (suc i) i s hs ∙ ground arith
find_separator_lem i (c ∷ p) s hp hs = ground (arith, find_separator_lem (suc i) p s hp.1 hs)

found-Lacks :
    (i j k : ℕ) (s : Text) → find_separator i s (some j) ≡ some (some k) → Lacks colon s × (k ≡ j)
unfolding find_separator
found-Lacks i j k [] e = (tt, ground arith)
found-Lacks i j k (c ∷ s) e = elim (Bool-cases (c == colon)) [
  | inl hit ↦ absurd (ground arith)
  | inr miss ↦
      let (lacks, same) = found-Lacks (suc i) j k s (rw miss at e) in ((ground arith, lacks), same)
]

-- Where a text is split.
abbrev IsSplit : Text → ℕ → Type 0
IsSplit s n = (p q : Text) × (s ≡ p ++ colon ∷ q) × (n ≡ length p) × Lacks colon p × Lacks colon q

find_separator_sound :
    (i k : ℕ) (s : Text)
    → find_separator i s none ≡ some (some k)
    → (n : ℕ) × (k ≡ i + n) × IsSplit s n
unfolding find_separator
find_separator_sound i k [] e = absurd (ground arith)
find_separator_sound i k (c ∷ s) e = elim (Bool-cases (c == colon)) [
  | inl hit ↦
      let (lacks, same) = found-Lacks (suc i) i k s (rw hit at e) in
      (0, omega arith, ([], s, ground arith, refl, tt, lacks))
  | inr miss ↦
      let (n, at, shape) = find_separator_sound (suc i) k s (rw miss at e) in
      let (p, q, split, len, lp, lq) = shape in
      (suc n, omega arith, (c ∷ p, q, ap (λ l. c ∷ l) split, ap suc len, (ground arith, lp), lq))
]

drop_two : (n : ℕ) (s : Text) (c : ℕ) → drop (n + 2) (c ∷ s) ≡ drop (suc n) s
drop_two n s c = let e : n + 2 ≡ suc (suc n) = omega arith in rw e

split_at_lem :
    (p q : Text)
    → split_at (p ++ colon ∷ q) (some (some (length p)))
      ≡ (if is_nil p || is_nil q then none else some (record { public_id = p; secret = q }))
unfolding split_at
split_at_lem [] q = refl
split_at_lem (c ∷ p) [] = ground (arith, length-append p (colon ∷ []))
split_at_lem (c ∷ p) (d ∷ q) = ground (
  arith,
  length-append p (colon ∷ d ∷ q),
  take-append p (colon ∷ d ∷ q),
  drop-append p (d ∷ q) colon,
  drop_two (length p) (p ++ colon ∷ d ∷ q) c,
)

parse_lem :
    (p q : Text)
    → Lacks colon p
    → Lacks colon q
    → parse (p ++ colon ∷ q)
      ≡ (if is_nil p || is_nil q then none else some (record { public_id = p; secret = q }))
unfolding parse
parse_lem p q hp hq =
    ap (split_at (p ++ colon ∷ q)) {y = some (some (length p))}
      (find_separator_lem 0 p q hp hq ∙ ground arith)
    ∙ split_at_lem p q

parse_split :
    (credential : Text) (o : Option (Option ℕ)) {r : Parsed}
    → find_separator 0 credential none ≡ o
    → split_at credential o ≡ some r
    → (p q : Text) × (credential ≡ p ++ colon ∷ q) × Lacks colon p × Lacks colon q
unfolding split_at
parse_split credential none f e = absurd (ground arith)
parse_split credential (some none) f e = absurd (ground arith)
parse_split credential (some (some zero)) f e = absurd (ground arith)
parse_split credential (some (some (suc i))) f e =
    let (n, at, shape) = find_separator_sound 0 (suc i) credential f in
    let (p, q, split, len, lp, lq) = shape in (p, q, split, lp, lq)

shape :
    (p q : Text) (r : Parsed)
    → (if is_nil p || is_nil q then none else some (record { public_id = p; secret = q })) ≡ some r
    → (r ≡ record { public_id = p; secret = q }) × (p ≢ []) × (q ≢ [])
shape p q r e = (ground arith, ground arith, ground arith)

not_nil :
    (r : Parsed)
    → r.public_id ≢ []
    → r.secret ≢ []
    → (if is_nil r.public_id || is_nil r.secret then none else some r) ≡ some r
not_nil r np nq = ground arith

-- `Parse` returns a public id and a secret exactly when the credential is the two with a colon
-- between, neither is empty, and neither has a colon in it.
pub parse_iff :
    (credential : Text) (r : Parsed)
    → (parse credential ≡ some r) ↔ (
        (credential ≡ r.public_id ++ colon ∷ r.secret)
        × (r.public_id ≢ [])
        × (r.secret ≢ [])
        × Lacks colon r.public_id
        × Lacks colon r.secret)
unfolding parse
parse_iff credential r = (
  λ e.
      let (p, q, split, lp, lq) = parse_split credential _ refl e in
      let (same, np, nq) = shape p q r (sym (parse_lem p q lp lq) ∙ sym (ap parse split) ∙ e) in
      rw same (split, np, nq, lp, lq),
  λ h. ap parse h.0 ∙ parse_lem r.public_id r.secret h.3 h.4 ∙ not_nil r h.1 h.2,
)
