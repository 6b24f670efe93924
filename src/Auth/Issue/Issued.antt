-- ===== src/Auth/Issue/Issued.antt =====
-- The tokens of `IssueToken` (auth/manager.go).
use qpub_go.Prelude.{
  Option, none, some, ◌≡◌, ◌⊎◌, inl, inr, refl, arith, length, ◌≤◌, suc, false, Bool-cases,
}
use qpub_go.Prelude.Text.{Text, is_empty}
use qpub_go.ApiKey.{Parsed, parse}
use qpub_go.Options.{TokenOptions}
use qpub_go.Options.Itoa.{build_rest_base_url}
use qpub_go.Jwt.Token.{DecodeError, Decoded, decode}
use qpub_go.Auth.Types.{Env, Manager, Error}
use qpub_go.Auth.Issue.{checked, read_token, issued, issue_at, issue_for, issue_token}

module _ {S : Type 0} (env : Env S) (unmarshal_token : Text → Text ⊎ Text) where
  -- A token that is given decodes.
  abbrev pub IsGood : Option (Error ⊎ Text) → Type 0
  IsGood none = Unit
  IsGood (some (inl e)) = Unit
  IsGood (some (inr token)) =
      (is_empty token ≡ false) × (d : Decoded) × (decode env.codec token ≡ inr d)

  checked-IsGood :
      (token : Text) (r : DecodeError ⊎ Decoded)
      → is_empty token ≡ false
      → decode env.codec token ≡ r
      → IsGood (some (checked env unmarshal_token token r))
  checked-IsGood token (inl e) h g = tt
  checked-IsGood token (inr d) h g = (h, d, g)

  read_token-IsGood : (r : Text ⊎ Text) → IsGood (some (read_token env unmarshal_token r))
  read_token-IsGood (inl e) = tt
  read_token-IsGood (inr token) = elim (Bool-cases (is_empty token)) [
    | inl e ↦ rw e tt
    | inr e ↦ rw e (checked-IsGood token (decode env.codec token) e refl)
  ]

  -- So does one at the end of a call that keeps the token of the client and posts once at most.
  abbrev pub IsIssued : Manager S → Option (Error ⊎ Text) × Manager S → Type 0
  IsIssued m r =
      IsGood r.0
      × (r.1.current_token ≡ m.current_token)
      × (r.1.events ≡ m.events)
      × (length r.1.posts ≤ suc (length m.posts))

  issued-IsGood : (r : (Text ⊎ Text) × Manager S) → IsGood (issued env unmarshal_token r).0
  issued-IsGood (inl e, m) = tt
  issued-IsGood (inr body, m) = read_token-IsGood (unmarshal_token body)

  issued-same : (r : (Text ⊎ Text) × Manager S) → (issued env unmarshal_token r).1 ≡ r.1
  issued-same (inl e, m) = refl
  issued-same (inr body, m) = refl

  issue_at-IsIssued :
      (opts : TokenOptions) (key : Parsed) (base : Option Text) (m : Manager S)
      → IsIssued m (issue_at env unmarshal_token opts key base m)
  issue_at-IsIssued opts key none m = (tt, refl, refl, omega arith)
  issue_at-IsIssued opts key (some base) m =
      rw (issued-same _) (issued-IsGood _, refl, refl, omega arith)

  issue_for-IsIssued :
      (opts : TokenOptions) (o : Option Parsed) (m : Manager S)
      → IsIssued m (issue_for env unmarshal_token opts o m)
  issue_for-IsIssued opts none m = (tt, refl, refl, omega arith)
  issue_for-IsIssued opts (some key) m = issue_at-IsIssued opts key (build_rest_base_url env.opts) m

  -- `IssueToken` gives only tokens that are not empty and that `Decode` reads; it posts once at most,
  -- and on every branch the client keeps its own token and emits nothing.
  pub issue_token-IsIssued :
      (opts : TokenOptions) (m : Manager S) → IsIssued m (issue_token env unmarshal_token opts m)
  unfolding issue_token
  issue_token-IsIssued opts m = elim (Bool-cases (is_empty env.opts.api_key)) [
    | inl e ↦ rw e (tt, refl, refl, omega arith)
    | inr e ↦ rw e (issue_for-IsIssued opts (parse env.opts.api_key) m)
  ]
