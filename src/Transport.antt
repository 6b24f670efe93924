-- ===== src/Transport.antt =====
-- transport/httpclient/client.go: the HTTP client, over Go's net/http and encoding/json.
pub mod Answers
use qpub_go.Prelude.{
  ℕ, ◌-◌, ◌+◌, Bool, true, false, not, ◌&&◌, ◌||◌, ◌==◌, pos, Option, none, some, List, [], ◌∷◌,
  ◌++◌, ◌⊎◌, inl, inr, leb, if◌then◌else◌, is_some,
}
use qpub_go.Prelude.Text.{Text, codes}
use qpub_go.Prelude.Dict.{Dict, insert}
use qpub_go.Connection.Ops.{decimal}

-- A Go `error` is its text.
abbrev pub Error : Type 0
Error = Text

-- The methods that the client sends.
pub data Method : Type 0 where
  get post put delete : Method

pub record Request : Type 0 where
  pub method : Method
  pub url : Text
  pub body : Option Text
  pub headers : Dict Text

-- What reading the body and closing it give.
pub record Response : Type 0 where
  pub status : ℕ
  pub read : Error ⊎ Text
  pub close : Option Error

-- `NewRequestWithContext`, which may refuse the URL, and `Do`.
pub record Library (S : Type 0) : Type 0 where
  pub refuses : Method → Text → Option Error
  pub do_request : Request → S → (Error ⊎ Response) × S

-- The results: the body or nil, the status or 0, and the error or nil.
pub record Answer : Type 0 where
  pub body : Option Text
  pub status : ℕ
  pub error : Option Error

abbrev between : ℕ → ℕ → ℕ → Bool
between a b c = leb a c && leb c b

abbrev is_one_of : Text → ℕ → Bool
is_one_of [] c = false
is_one_of (d ∷ ds) c = (d == c) || is_one_of ds c

-- The bytes of a token, of which the names of headers are made.
abbrev is_token_byte : ℕ → Bool
is_token_byte c =
    between b'a' b'z' c
    || between b'A' b'Z' c
    || between b'0' b'9' c
    || is_one_of (codes "!#$%&'*+-.^_`|~") c

abbrev is_token : Text → Bool
is_token [] = true
is_token (c ∷ s) = is_token_byte c && is_token s

abbrev cased : Bool → ℕ → ℕ
cased upper c =
    if upper && between b'a' b'z' c
    then c - 32
    else if not upper && between b'A' b'Z' c
    then c + 32
    else c

abbrev cased_from : Bool → Text → Text
cased_from upper [] = []
cased_from upper (c ∷ s) = cased upper c ∷ cased_from (c == b'-') s

-- The key under which `Header.Set` keeps a value: each word of a token begins with a capital.
unfoldable pub canonical : Text → Text
canonical key = if is_token key then cased_from true key else key

-- The loop over the caller's headers, in the order in which `range` gives them.
unfoldable pub set_all : Dict Text → Dict Text → Dict Text
set_all [] headers = headers
set_all ((k, v) ∷ rest) headers = set_all rest (insert (canonical k) v headers)

unfoldable pub read_and_close : Response → Error ⊎ Text
read_and_close r = elim r.read [
  | inl e ↦ inl e
  | inr body ↦ elim r.close [ none ↦ inr body | some e ↦ inl e ]
]

abbrev pub http_error : ℕ → Text → Error
http_error status body = codes "HTTP " ++ (decimal (pos status) ++ (codes ": " ++ body))

abbrev pub refused : Error → Answer
refused e = record { body = none; status = 0; error = some e }

abbrev pub finished : ℕ → Error ⊎ Text → Answer
finished status (inl e) = record { body = none; status = status; error = some e }
finished status (inr body) = record {
  body = some body;
  status = status;
  error = if leb 400 status then some (http_error status body) else none;
}

abbrev pub received : {S : Type 0} → (Error ⊎ Response) × S → Answer × S
received (inl e, s) = (refused e, s)
received (inr r, s) = (finished r.status (read_and_close r), s)

module _ {S : Type 0} (lib : Library S) where
  abbrev pub exchange : Option Error → Request → S → Answer × S
  exchange (some e) r s = (refused e, s)
  exchange none r s = received (lib.do_request r s)

  unfoldable pub get_json : Text → Dict Text → S → Answer × S
  get_json url headers s =
      exchange (lib.refuses Method.get url)
        (record { method = Method.get; url = url; body = none; headers = set_all headers [] }) s

  abbrev pub json_type : Option Text → Dict Text
  json_type none = []
  json_type (some b) = insert (canonical (codes "Content-Type")) (codes "application/json") []

  abbrev pub send_json : Method → Text → Option Text → Dict Text → S → Answer × S
  send_json method url body headers s =
      exchange (lib.refuses method url)
        (record {
          method = method;
          url = url;
          body = body;
          headers = set_all headers (json_type body);
        })
        s

  -- `doJSON` of a body after `json.Marshal`: nil is `none`, and a failed marshal an error.
  unfoldable pub do_json : Method → Text → Option (Error ⊎ Text) → Dict Text → S → Answer × S
  do_json method url none headers s = send_json method url none headers s
  do_json method url (some (inl e)) headers s = (refused e, s)
  do_json method url (some (inr b)) headers s = send_json method url (some b) headers s

  unfoldable pub post_json : Text → Option (Error ⊎ Text) → Dict Text → S → Answer × S
  post_json url body headers s = do_json Method.post url body headers s

  unfoldable pub put_json : Text → Option (Error ⊎ Text) → Dict Text → S → Answer × S
  put_json url body headers s = do_json Method.put url body headers s

  unfoldable pub delete_json : Text → Dict Text → S → Answer × S
  delete_json url headers s = do_json Method.delete url none headers s

-- `DecodeJSON`: an empty body leaves the target as it is. The error of `json.Unmarshal` comes with
-- the target as it leaves it.
unfoldable pub decode_json :
    {A : Type 0} → (Text → A → Option Error × A) → Text → A → Option Error × A
decode_json unmarshal [] out = (none, out)
decode_json unmarshal (c ∷ body) out = unmarshal (c ∷ body) out
