-- ===== src/Transport/Answers.antt =====
-- The errors and the headers of the HTTP client (transport/httpclient/client.go).
use qpub_go.Prelude.{
  leb, if◌then◌else◌, false, Option, none, some, [], ◌∷◌, ◌≡◌, ◌⊎◌, inl, inr, refl, arith,
}
use qpub_go.Prelude.Text.{Text, same, same_refl}
use qpub_go.Prelude.Dict.{Dict, lookup, insert, lookup-insert}
use qpub_go.Transport.{
  Error, Method, Request, Response, Library, Answer, canonical, set_all, refused, json_type,
  http_error,
}

-- What the caller is told of a response: the status, and the whole body, with an error exactly for a
-- status from 400 on; or no body and the error of the reading or of the closing.
abbrev pub AnswerOf : Error ⊎ Response → Answer → Type 0
AnswerOf (inl e) a = (a.body ≡ none) × (a.status ≡ 0) × (a.error ≡ some e)
AnswerOf (inr r) a =
    (a.status ≡ r.status)
    × ((b : Text)
        → r.read ≡ inr b
        → r.close ≡ none
        → (a.body ≡ some b)
          × (a.error ≡ (if leb 400 r.status then some (http_error r.status b) else none)))
    × ((e : Error) → r.read ≡ inl e → (a.body ≡ none) × (a.error ≡ some e))
    × ((b : Text) (e : Error)
        → r.read ≡ inr b
        → r.close ≡ some e
        → (a.body ≡ none) × (a.error ≡ some e))

-- The bytes of a body after `json.Marshal`.
abbrev pub IsSent : Option (Error ⊎ Text) → Option Text → Type 0
IsSent none sent = sent ≡ none
IsSent (some (inl e)) sent = ⊥
IsSent (some (inr b)) sent = sent ≡ some b

-- No request is made, for a body that has no JSON or a URL that is refused.
abbrev pub IsRefusal : Option (Error ⊎ Text) → Option Error → Error → Type 0
IsRefusal body refusal e = (body ≡ some (inl e)) ⊎ (refusal ≡ some e)

module _ {S : Type 0} (lib : Library S) where
  abbrev pub Told : Method → Text → Option (Error ⊎ Text) → Dict Text → S → Answer × S → Type 0
  Told method url body headers s out =
      ((e : Error) × IsRefusal body (lib.refuses method url) e × (out.0 ≡ refused e) × (out.1 ≡ s))
      ⊎ ((r : Request) × (r.method ≡ method)
          × (r.url ≡ url)
          × IsSent body r.body
          × (r.headers ≡ set_all headers (json_type lib r.body))
          × AnswerOf (lib.do_request r s).0 out.0
          × (out.1 ≡ (lib.do_request r s).1))

-- No header of the caller has this name, however it is written.
abbrev pub IsFree : Text → Dict Text → Type 0
IsFree key [] = Unit
IsFree key ((k, v) ∷ rest) = (same (canonical k) key ≡ false) × IsFree key rest

set_all-IsFree :
    (key : Text) (given headers : Dict Text)
    → IsFree key given
    → lookup key (set_all given headers) ≡ lookup key headers
unfolding set_all
set_all-IsFree key [] headers h = refl
set_all-IsFree key ((k, v) ∷ rest) headers h = ground (
  arith,
  set_all-IsFree key rest (insert (canonical k) v headers) h.1,
  lookup-insert (canonical k) key v headers,
)

-- A header of the caller replaces one that the client had set, whatever the case of its letters, if
-- no later one has the same name.
set_all-lookup :
    (k v : Text) (rest headers : Dict Text)
    → IsFree (canonical k) rest
    → lookup (canonical k) (set_all ((k, v) ∷ rest) headers) ≡ some v
unfolding set_all
set_all-lookup k v rest headers h = ground (
  arith,
  set_all-IsFree (canonical k) rest (insert (canonical k) v headers) h,
  lookup-insert (canonical k) (canonical k) v headers,
  same_refl (canonical k),
)
