-- ===== src/Classifier/LambdaApi/Answers.antt =====
-- What an authenticated request is answered, and the exceptions that leave the handler.
use automated_outreach_proto.Prelude.{
  ℕ, ◌≡◌, refl, ◌∙◌, true, false, Option, none, some, [], ◌∷◌, Exn, unicode_error, ok, err, any,
  flat_map,
}
use automated_outreach_proto.Text.{Text, codes}
use automated_outreach_proto.Unicode.{encode, utf8_bytes, is_surrogate}
use automated_outreach_proto.Dict.{Dict, get}
use automated_outreach_proto.Json.{Json, str, get_or}
use automated_outreach_proto.Classifier.Handler.{classify}
use automated_outreach_proto.Classifier.LambdaApi.{
  Services, classified, Cache, expected_tokens, authenticated_secret, request_headers,
  request_method, raw_body, payload, body_hash, classify_request, serve, checked, with_tokens,
  authorize, handle, handler,
}

-- A request that passes the authentication.
pub record IsServed (sv : Services) (cache : Cache) (event : Dict Json) : Type 0 where
  pub method : Json
  pub headers : Dict Text
  pub token : Text × Text
  pub tokens : Dict Text
  pub name : Text
  pub has_method : request_method event ≡ ok method
  pub has_headers : request_headers sv event ≡ ok headers
  pub has_tokens : (expected_tokens sv cache).0 ≡ ok (token ∷ tokens)
  pub has_secret : (authenticated_secret sv headers (expected_tokens sv cache).1).0 ≡ ok (some name)

abbrev pub path_of : Dict Json → Json
path_of event = get_or (codes "rawPath") (str []) event

handler-serve :
    (sv : Services) (cache : Cache) (event : Dict Json) (started now : ℕ)
    (s : IsServed sv cache event)
    → (handler sv cache event started now).0 ≡ serve sv event s.method (path_of event) started now
unfolding handler
handler-serve sv cache event started now s =
    rw (s.has_method, s.has_headers)
      (unfold handle authorize in
        rw s.has_tokens (unfold with_tokens in rw s.has_secret (unfold checked in refl)))

-- A POST to the classify route.
pub record IsClassify (sv : Services) (cache : Cache) (event : Dict Json) : Type 0 where
  pub served : IsServed sv cache event
  pub posted : served.method ≡ str (codes "POST")
  pub routed : path_of event ≡ str (codes "/v1/classify")

handler-classify_request :
    (sv : Services) (cache : Cache) (event : Dict Json) (started now : ℕ)
    → IsClassify sv cache event
    → (handler sv cache event started now).0 ≡ classify_request sv event started now
handler-classify_request sv cache event started now c =
    handler-serve sv cache event started now c.served
    ∙ rw (c.posted, c.routed) (unfold serve in refl)

body_hash-clean :
    (sv : Services) (o : Option Json)
    → ((body : Text) → o ≡ some (str body) → any is_surrogate body ≡ false)
    → (hash : Option Text) × (body_hash sv o ≡ ok hash)
unfolding body_hash encode
body_hash-clean sv none clean = (none, refl)
body_hash-clean sv (some (str body)) clean =
    (some (sv.sha256 (flat_map utf8_bytes body)), rw (clean body refl, encode))
body_hash-clean sv (some _) clean = (none, refl)

-- An authenticated POST to the classify route, with a payload that can be read and a body that is
-- a text without lone surrogates or no text, is answered with the status 200 and the result of
-- `classify`.
pub handler-classify :
    (sv : Services) (cache : Cache) (event request : Dict Json) (started now : ℕ)
    → IsClassify sv cache event
    → payload sv event ≡ ok request
    → ((body : Text) → get (codes "body") request ≡ some (str body) → any is_surrogate body ≡ false)
    → (handler sv cache event started now).0
      ≡ ok (record { status = 200; payload = classified (classify sv.runtime request started now) })
unfolding classify_request
handler-classify sv cache event request started now c p clean =
    let (hash, e) = body_hash-clean sv (get (codes "body") request) clean in
    handler-classify_request sv cache event started now c ∙ rw (p, e)

-- A lone surrogate in the body of an authenticated message leaves the handler as an exception,
-- whatever `classify` made of the message.
pub handler-surrogate :
    (sv : Services) (cache : Cache) (event request : Dict Json) (started now : ℕ) (body : Text)
    → IsClassify sv cache event
    → payload sv event ≡ ok request
    → get (codes "body") request ≡ some (str body)
    → any is_surrogate body ≡ true
    → (handler sv cache event started now).0 ≡ err unicode_error
unfolding classify_request body_hash encode
handler-surrogate sv cache event request started now body c p g s =
    handler-classify_request sv cache event started now c ∙ rw (p, g, s)

-- An authenticated message whose base64 body cannot be decoded leaves the handler as that
-- exception, although it is a ValueError.
pub handler-base64 :
    (sv : Services) (cache : Cache) (event : Dict Json) (started now : ℕ) (e : Exn)
    → IsClassify sv cache event
    → raw_body sv event ≡ err e
    → (handler sv cache event started now).0 ≡ err e
unfolding classify_request payload
handler-base64 sv cache event started now e c r =
    handler-classify_request sv cache event started now c ∙ rw r
