-- ===== src/Tests/Issue.antt =====
-- Inputs for the theorems about canonical strings, and tokens that are made and issued.
use qpub_go.Prelude.{
  ℕ, suc, ◌&&◌, pos, none, some, [], ◌∷◌, ◌++◌, ◌≡◌, inl, inr, refl, arith, if◌then◌else◌, is_zero,
  false,
}
use qpub_go.Prelude.Text.{Text, codes, same, same_iff}
use qpub_go.Prelude.Duration.{plus, wrap}
use qpub_go.Prelude.Dict.{lookup}
use qpub_go.Prelude.Keys.{IsMap}
use qpub_go.ApiKey.{Parsed, parse, find_separator, split_at}
use qpub_go.Options.{Permission, TokenOptions, TokenRequest, default_option}
use qpub_go.Connection.Ops.{decimal}
use qpub_go.Jwt.Base64.{std_decode}
use qpub_go.Jwt.Token.{invalid_format, signed_header, decode}
use qpub_go.Jwt.Signing.{is_readable}
use qpub_go.Auth.Types.{Env, Manager}
use qpub_go.Auth.Canonical.{build_canonical_string, sort_keys_recursive, marshal_permission}
use qpub_go.Auth.Canonical.Maps.{build_canonical_string_unique}
use qpub_go.Auth.Canonical.Breaks.{break}
use qpub_go.Auth.Canonical.Signed.{
  written, build_canonical_string-injective, build_canonical_string-ambiguous,
}
use qpub_go.Auth.Issue.{token_payload, generate_token, create_token_request, issue_token}
use qpub_go.Auth.Issue.Generated.{decode-generate_token}
use qpub_go.Auth.Issue.Requested.{create_token_request_lem}
use qpub_go.Auth.Issue.Issued.{IsIssued, issue_token-IsIssued}

-- Every string is written alike.
abbrev quote : Text → Text
quote s = codes "s"

abbrev two : Permission
two = (codes "b", []) ∷ (codes "a", codes "read" ∷ []) ∷ []

abbrev two_swapped : Permission
two_swapped = (codes "a", codes "read" ∷ []) ∷ (codes "b", []) ∷ []

same_map : (k : Text) → lookup k two ≡ lookup k two_swapped
unfolding lookup
same_map k = ground (arith, same_iff (codes "a") k, same_iff (codes "b") k)

two-IsMap : IsMap two × IsMap two_swapped
unfolding lookup same
two-IsMap = ((refl, (refl, tt)), (refl, (refl, tt)))

build_canonical_string_unique_example :
    build_canonical_string quote (codes "key") (pos 9) [] (some two)
    ≡ build_canonical_string quote (codes "key") (pos 9) [] (some two_swapped)
build_canonical_string_unique_example =
    build_canonical_string_unique quote (codes "key") (pos 9) [] two two_swapped two-IsMap.0
      two-IsMap.1 same_map

build_canonical_string-injective_example :
    (codes "key" ≡ codes "key")
    × (decimal (pos 9) ≡ decimal (pos 9))
    × (codes "ann" ≡ codes "ann")
    × (written quote (some two) ≡ written quote (some two_swapped))
build_canonical_string-injective_example =
    build_canonical_string-injective quote (codes "key") (codes "key") (codes "ann") (codes "ann")
      (pos 9) (pos 9) (some two) (some two_swapped) (λ s. ground arith) (ground arith)
      (ground arith) (ground arith) (ground arith)
      (build_canonical_string_unique quote (codes "key") (pos 9) (codes "ann") two two_swapped
        two-IsMap.0 two-IsMap.1 same_map)

build_canonical_string-ambiguous_example :
    build_canonical_string quote (codes "key") (pos 9) (codes "ann") (some two)
    ≡ build_canonical_string quote
        (codes "key")
        (pos 9)
        (codes "ann"
          ++ (break ∷ (codes "permission=" ++ marshal_permission quote (sort_keys_recursive two))))
        none
build_canonical_string-ambiguous_example =
    build_canonical_string-ambiguous quote (codes "key") (codes "ann") (pos 9) two refl

abbrev options : TokenOptions
options = record { permission = some two; alias = codes "ann"; expires_in = pos 60 }

abbrev mac : Text → Text → Text
mac key text = 1 ∷ 2 ∷ 250 ∷ []

-- The second 1000; the server answers with a token that decodes.
abbrev env : Env ℕ
env = record {
  opts = record default_option { api_key = codes "key:secret" };
  codec = record {
    marshal_header = λ h. codes "{}";
    marshal_payload = λ p. codes "{?}";
    unmarshal_header = λ b. some (signed_header (codes "key"));
    unmarshal_payload = λ b. some (token_payload options (pos 1000));
  };
  post = λ p s. (inr (codes "{}"), suc s);
  unmarshal_response = λ b. inl (codes "EOF");
  now = λ s. pos 1000000;
  aborted = λ s. false;
}

abbrev manager : Manager ℕ
manager = record {
  state = 0;
  current_token = [];
  refresh_timer = false;
  resetting = false;
  events = [];
  posts = [];
}

abbrev key : Parsed
key = record { public_id = codes "key"; secret = codes "secret" }

parsed : parse env.opts.api_key ≡ some key
unfolding parse find_separator split_at
parsed = refl

expires : is_zero (plus (pos 1000) (pos 60)) ≡ false
unfolding plus wrap
expires = refl

decode-generate_token_example :
    (token : Text) × (generate_token env mac options manager ≡ inr token)
    × (decode env.codec token ≡ (
        if is_readable (codes "{}") && is_readable (codes "{?}")
        then inr (record {
          header = signed_header (codes "key");
          payload = token_payload options (pos 1000);
        })
        else inl invalid_format))
decode-generate_token_example =
    decode-generate_token env mac options manager key refl refl (ground arith) (ground arith)
      (λ k s. ground arith) parsed refl expires

create_token_request_lem_example :
    (r : TokenRequest) × (create_token_request env mac quote options manager ≡ inr r)
    × (r.aki ≡ codes "key")
    × (r.timestamp ≡ pos 1000)
    × (std_decode r.signature ≡ some (1 ∷ 2 ∷ 250 ∷ []))
create_token_request_lem_example =
    create_token_request_lem env mac quote options manager key (λ k s. ground arith) parsed

issue_token-IsIssued_example :
    IsIssued env
      (λ b. inr (codes "YWJj.YWJj"))
      manager
      (issue_token env (λ b. inr (codes "YWJj.YWJj")) options manager)
issue_token-IsIssued_example =
    issue_token-IsIssued env (λ b. inr (codes "YWJj.YWJj")) options manager
