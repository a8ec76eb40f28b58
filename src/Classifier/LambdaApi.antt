-- ===== src/Classifier/LambdaApi.antt =====
-- src/classifier/lambda_api.py: the Function URL adapter. The module's token cache is explicit
-- state; an exception that the handler does not catch is an error result, a 500 for the caller.
pub mod Auth
pub mod Answers
use automated_outreach_proto.Prelude.{
  ℕ, ◌≡◌, Bool, true, false, not, ◌&&◌, ◌||◌, Option, none, some, List, [], ◌∷◌, ◌++◌, all, drop,
  leb, ltb, Exn, type_error, is_value_error, Result, ok, err, ◌>>=◌, if◌then◌else◌,
}
use automated_outreach_proto.Text.{Text, codes, text_eq, starts_with}
use automated_outreach_proto.Unicode.{encode}
use automated_outreach_proto.Dict.{Dict, get, put}
use automated_outreach_proto.Json.{
  Json, obj, str, end, truthy, as_dict, entries, get_or, as_str, to_str,
}
use automated_outreach_proto.Classifier.Handler.{
  Runtime, Response, model_version, comma_parts, classify,
}

-- What the adapter takes from its surroundings besides: Secrets Manager, `b64decode` with the
-- decoding behind it, SHA-256, and `rule_set_hash`, which reads files.
pub record Services : Type 0 where
  pub runtime : Runtime
  pub get_secret : Text → Result Text
  pub b64decode : Text → Result Text
  pub sha256 : List ℕ → Text
  pub rule_set_hash : Result Text

-- What `json.dumps` is given for the body of a response.
pub data Payload : Type 0 where
  detail : Text → Payload
  health : Text → Text → Payload
  classified : Response → Payload

pub record HttpResponse : Type 0 where
  pub status : ℕ
  pub payload : Payload

-- _token_cache
abbrev pub Cache : Type 0
Cache = Option (Dict Text)

abbrev pub token_secrets_env : Text
token_secrets_env = codes "CLASSIFY_TOKEN_SECRET_IDS"

abbrev or_empty : Option Text → Text
or_empty none = []
or_empty (some s) = s

-- The tokens of the secrets, in their order.
unfoldable pub fetch_tokens : (Text → Result Text) → List Text → Dict Text → Result (Dict Text)
fetch_tokens get_secret [] d = ok d
fetch_tokens get_secret (id ∷ ids) d = do
  token ← get_secret id
  fetch_tokens get_secret ids (put id token d)

-- A successful fetch is kept.
abbrev kept : Result (Dict Text) → Result (Dict Text) × Cache
kept (ok d) = (ok d, some d)
kept (err e) = (err e, none)

abbrev fetched : Services → List Text → Result (Dict Text) × Cache
fetched sv [] = (ok [], none)
fetched sv (id ∷ ids) = kept (fetch_tokens sv.get_secret (id ∷ ids) [])

unfoldable pub expected_tokens : Services → Cache → Result (Dict Text) × Cache
expected_tokens sv (some d) = (ok d, some d)
expected_tokens sv none = fetched sv (comma_parts (or_empty (sv.runtime.getenv token_secrets_env)))

-- secrets.compare_digest(a, b), which takes ASCII texts only
unfoldable pub compare_digest : Text → Text → Result Bool
compare_digest a b =
    if all (λ c. leb c 127) a && all (λ c. leb c 127) b then ok (text_eq a b) else err type_error

-- The loop over the tokens.
unfoldable pub matching_secret : Text → Dict Text → Result (Option Text)
matching_secret supplied [] = ok none
matching_secret supplied ((id, token) ∷ d) = do
  same ← compare_digest supplied token
  if same then ok (some id) else matching_secret supplied d

abbrev pub bearer : Text
bearer = codes "Bearer "

-- The tests on the text of the header.
unfoldable pub secret_for : Services → Text → Cache → Result (Option Text) × Cache
secret_for sv supplied cache =
    if not (starts_with supplied bearer)
    then (ok none, cache)
    else (let (tokens, cache') = expected_tokens sv cache in
        ((do d ← tokens; matching_secret (drop 7 supplied) d), cache'))

unfoldable pub authenticated_secret : Services → Dict Text → Cache → Result (Option Text) × Cache
authenticated_secret sv headers cache =
    secret_for sv (get_or (codes "authorization") [] headers) cache

-- The request's headers, by lower-case name.
header_items : Services → Dict Json → Dict Text → Dict Text
header_items sv [] d = d
header_items sv ((k, v) ∷ hs) d =
    header_items sv hs (put (sv.runtime.unicode.lower k) (to_str sv.runtime.render v) d)

-- x or {}
abbrev or_empty_dict : Json → Json
or_empty_dict x = if truthy x then x else obj end

unfoldable pub request_headers : Services → Dict Json → Result (Dict Text)
unfolding header_items
request_headers sv event = do
  hs ← as_dict (or_empty_dict (get_or (codes "headers") Json.null event))
  ok (header_items sv hs [])

-- event.get("requestContext", {}).get("http", {}).get("method", "")
unfoldable pub request_method : Dict Json → Result Json
request_method event = do
  context ← as_dict (get_or (codes "requestContext") (obj end) event)
  http ← as_dict (get_or (codes "http") (obj end) context)
  ok (get_or (codes "method") (str []) http)

-- x == text
abbrev is_text : Json → Text → Bool
is_text (str s) t = text_eq s t
is_text _ t = false

-- `except ValueError: return {}`, and `parsed if isinstance(parsed, dict) else {}`
abbrev parsed_dict : Result Json → Result (Dict Json)
parsed_dict (ok (obj fs)) = ok (entries fs)
parsed_dict (ok _) = ok []
parsed_dict (err e) = if is_value_error e then ok [] else err e

-- The raw body: `str(event.get("body") or "")`, decoded where the event says so.
unfoldable pub raw_body : Services → Dict Json → Result Text
raw_body sv event =
    let given = get_or (codes "body") Json.null event in
    let raw = if truthy given then to_str sv.runtime.render given else [] in
    if truthy (get_or (codes "isBase64Encoded") Json.null event) then sv.b64decode raw else ok raw

unfoldable pub payload : Services → Dict Json → Result (Dict Json)
payload sv event = do raw ← raw_body sv event; parsed_dict (sv.runtime.loads raw)

-- hashlib.sha256(body.encode()).hexdigest() if isinstance(body, str) else None
unfoldable pub body_hash : Services → Option Json → Result (Option Text)
body_hash sv (some (str body)) = do bytes ← encode body; ok (some (sv.sha256 bytes))
body_hash sv _ = ok none

abbrev json_response : ℕ → Payload → HttpResponse
json_response status p = record { status = status; payload = p }

-- POST /v1/classify; `classify` does not raise.
unfoldable pub classify_request : Services → Dict Json → ℕ → ℕ → Result HttpResponse
classify_request sv event started now = do
  request ← payload sv event
  let result = classify sv.runtime request started now
  hash ← body_hash sv (get (codes "body") request)
  ok (json_response 200 (classified result))

health_request : Services → Result HttpResponse
health_request sv = do hash ← sv.rule_set_hash; ok (json_response 200 (health model_version hash))

-- What an authenticated request gets.
unfoldable pub serve : Services → Dict Json → Json → Json → ℕ → ℕ → Result HttpResponse
unfolding health_request
serve sv event method path started now =
    if is_text method (codes "GET") && is_text path (codes "/health")
    then health_request sv
    else if is_text method (codes "POST") && is_text path (codes "/v1/classify")
    then classify_request sv event started now
    else ok (json_response 404 (detail (codes "not found")))

-- The `try` block round the tokens, its handler, and the test behind it.
unfoldable pub checked : Result (Option Text) → Result HttpResponse → Result HttpResponse
checked (err e) rest = ok (json_response 503 (detail (codes "auth tokens unavailable")))
checked (ok none) rest = ok (json_response 401 (detail (codes "missing or invalid bearer token")))
checked (ok (some name)) rest = rest

-- `tokens` and the cache are what the first look at the tokens left.
unfoldable pub with_tokens :
    Services
    → Dict Text
    → Result (Dict Text)
    → Cache
    → Result HttpResponse
    → Result HttpResponse × Cache
with_tokens sv headers (err e) cache rest =
    (ok (json_response 503 (detail (codes "auth tokens unavailable"))), cache)
with_tokens sv headers (ok []) cache rest =
    (ok (json_response 503 (detail (token_secrets_env ++ codes " is not configured"))), cache)
with_tokens sv headers (ok (t ∷ ts)) cache rest =
    let (name, cache') = authenticated_secret sv headers cache in (checked name rest, cache')

unfoldable pub authorize :
    Services → Dict Text → Cache → Result HttpResponse → Result HttpResponse × Cache
authorize sv headers cache rest =
    let (tokens, cache') = expected_tokens sv cache in with_tokens sv headers tokens cache' rest

-- The method is read first, then the headers; an error in either leaves the handler.
unfoldable pub handle :
    Services
    → Cache
    → Dict Json
    → Result Json
    → Result (Dict Text)
    → ℕ
    → ℕ
    → Result HttpResponse × Cache
handle sv cache event (err e) headers started now = (err e, cache)
handle sv cache event (ok method) (err e) started now = (err e, cache)
handle sv cache event (ok method) (ok headers) started now =
    authorize sv headers cache
      (serve sv event method (get_or (codes "rawPath") (str []) event) started now)

unfoldable pub handler : Services → Cache → Dict Json → ℕ → ℕ → Result HttpResponse × Cache
handler sv cache event started now =
    handle sv cache event (request_method event) (request_headers sv event) started now
