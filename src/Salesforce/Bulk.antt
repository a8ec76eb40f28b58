-- ===== src/Salesforce/Bulk.antt =====
-- src/salesforce/bulk.py: the requests of the Bulk API 2.0, with retries, and the upsert of records
-- in batches. The client's one field that changes is state, with the network.
pub mod Retry
use automated_outreach_proto.Prelude.{
  ℕ, zero, suc, ◌+◌, ◌^◌, Bool, true, false, ◌&&◌, ◌||◌, Option, none, some, List, [], ◌∷◌, ◌++◌,
  length, take, drop, ltb, leb, ◌==◌, if◌then◌else◌, Exn, index_error, value_error,
  salesforce_error, out_of_fuel, Result, ok, err, ℤ, pos, is_zero,
}
use automated_outreach_proto.Text.{Text, codes, text_eq, one_of, before}
use automated_outreach_proto.Text.Regex.{Regex, one, many, seq, lit, search_group}
use automated_outreach_proto.Unicode.{encode}
use automated_outreach_proto.Dict.{Dict, keys}
use automated_outreach_proto.Json.{Json, null, int, str, obj, field, end, index, get_or, as_str}
use automated_outreach_proto.Io.{Act, pure, raise, lift, and_then, ◌>>=◌, ◌>>◌}
use automated_outreach_proto.Salesforce.Http.{
  Bytes, HttpRequest, HttpResponse, Net, header, json_of, subscript, dict_of, to_int, text_of,
}

pub record Client : Type 0 where
  pub instance_url : Text
  pub access_token : Text

-- The network and `api_usage`.
pub record Session (n : Net) : Type 0 where
  pub world : n.World
  pub api_usage : Option (ℕ × ℕ)

abbrev pub max_attempts : ℕ
max_attempts = 5

abbrev pub is_retryable : ℕ → Bool
is_retryable status = status == 429 || status == 503

abbrev pub terminal_job_states : List Text
terminal_job_states = codes "JobComplete" ∷ codes "Failed" ∷ codes "Aborted" ∷ []

abbrev api_path : Text
api_path = codes "/services/data/v63.0"

-- api-usage=(\d+)/(\d+)
abbrev usage_re : Net → Regex
usage_re n =
    let digits = seq (one n.unicode.is_decimal) (many n.unicode.is_decimal) in
    seq (lit (codes "api-usage=")) (seq digits (seq (lit (codes "/")) digits))

abbrev behind_slash : Text → Text
behind_slash [] = []
behind_slash (c ∷ s) = let rest = behind_slash s in if c == b'/' then s else rest

-- The two groups of a match.
usage_of : Net → Text → ℕ × ℕ
usage_of n g =
    let counts = drop 10 g in
    (n.digits_value (before b'/' counts), n.digits_value (behind_slash counts))

new_usage : Net → Option Text → Option (ℕ × ℕ) → Option (ℕ × ℕ)
unfolding usage_of
new_usage n none old = old
new_usage n (some text) old = elim (search_group (usage_re n) text) [
  | none ↦ old
  | some g ↦ some (usage_of n g)
]

unfoldable pub record_usage : (n : Net) → HttpResponse → Session n → Session n
unfolding new_usage
record_usage n r s = record s {
  api_usage = new_usage n (header n.unicode (codes "Sforce-Limit-Info") r) s.api_usage;
}

unfoldable pub pause : (n : Net) → ℕ → Session n → Session n
pause n seconds s = record s { world = n.sleep seconds s.world }

-- What follows a response: another attempt, an error, or the response.
unfoldable pub judged :
    (n : Net) → ℕ → (ℕ → Act (Session n) HttpResponse) → HttpResponse → Act (Session n) HttpResponse
judged n attempt again r s =
    if is_retryable r.status && ltb (suc attempt) max_attempts
    then again (suc attempt) (pause n (2 ^ attempt) s)
    else if leb 400 r.status
    then (err (salesforce_error r.status (n.decode_replace r.body)), s)
    else (ok r, s)

unfoldable pub received :
    (n : Net)
    → ℕ
    → (ℕ → Act (Session n) HttpResponse)
    → Option (ℕ × ℕ)
    → Result HttpResponse × n.World
    → Result HttpResponse × Session n
received n attempt again usage (err e, w) = (err e, record { world = w; api_usage = usage })
received n attempt again usage (ok r, w) =
    judged n attempt again r (record_usage n r (record { world = w; api_usage = usage }))

-- The `while` loop, on fuel: one unit for each attempt.
unfoldable pub attempts : (n : Net) → HttpRequest → ℕ → ℕ → Act (Session n) HttpResponse
attempts n req zero attempt s = (err out_of_fuel, s)
attempts n req (suc fuel) attempt s =
    received n attempt (λ next. attempts n req fuel next) s.api_usage (n.transport req s.world)

abbrev pub request_of : Client → Text → Text → Option Bytes → Text → HttpRequest
request_of c method path body content_type = record {
  method = method;
  url = c.instance_url ++ path;
  headers =
      (codes "Authorization", codes "Bearer " ++ c.access_token)
      ∷ (codes "Content-Type", content_type)
      ∷ (codes "Accept", codes "application/json, text/csv")
      ∷ [];
  body = body;
}

unfoldable pub request :
    (n : Net) → Client → Text → Text → Option Bytes → Text → Act (Session n) HttpResponse
request n c method path body content_type =
    attempts n (request_of c method path body content_type) max_attempts 0

abbrev json_type : Text
json_type = codes "application/json"

unfoldable pub create_upsert_job : (n : Net) → Client → Text → Text → Act (Session n) Text
create_upsert_job n c object_name external_id_field = do
  body ← lift (
      encode (
        n.dumps (
          obj (
            field (codes "object") (str object_name) (
              field (codes "operation") (str (codes "upsert")) (
                field (codes "externalIdFieldName") (str external_id_field) (
                  field (codes "contentType") (str (codes "CSV"))
                    (field (codes "lineEnding") (str (codes "LF")) end))))))))
  r ← request n c (codes "POST") (api_path ++ codes "/jobs/ingest") (some body) json_type
  answer ← lift (json_of n r)
  id ← lift (subscript (codes "id") answer)
  pure (text_of n id)

abbrev job_path : Text → Text → Text
job_path job_id rest = api_path ++ (codes "/jobs/ingest/" ++ (job_id ++ rest))

unfoldable pub upload_batch : (n : Net) → Client → Text → Bytes → Act (Session n) (Unit {0})
upload_batch n c job_id csv_data = do
  r ←
      request n c (codes "PUT") (job_path job_id (codes "/batches")) (some csv_data)
        (codes "text/csv")
  pure tt

unfoldable pub close_job : (n : Net) → Client → Text → Act (Session n) (Unit {0})
close_job n c job_id = do
  r ←
      request n c (codes "PATCH") (job_path job_id [])
        (some (codes "{\"state\": \"UploadComplete\"}")) json_type
  pure tt

unfoldable pub get_job : (n : Net) → Client → Text → Act (Session n) (Dict Json)
get_job n c job_id = do
  r ← request n c (codes "GET") (job_path job_id []) none json_type
  answer ← lift (json_of n r)
  lift (dict_of n answer)

-- state in (…), for a value that need not be a text
abbrev pub is_state : Json → List Text → Bool
is_state (str s) states = one_of s states
is_state _ states = false

-- The `for` loop, by the polls that are left.
unfoldable pub poll : (n : Net) → Client → Text → ℕ → ℕ → ℕ → Act (Session n) (Dict Json)
poll n c job_id seconds max_polls zero = raise (
    salesforce_error 408 (
      codes "job "
      ++ (job_id ++ (codes " timed out after " ++ (text_of n (int max_polls) ++ codes " polls")))))
poll n c job_id seconds max_polls (suc left) = do
  info ← get_job n c job_id
  state ← lift (index (codes "state") info)
  elim (is_state state terminal_job_states) [
    | true ↦ pure info
    | false ↦ λ s. poll n c job_id seconds max_polls left (pause n seconds s)
  ]

unfoldable pub wait_for_job : (n : Net) → Client → Text → Act (Session n) (Dict Json)
wait_for_job n c job_id = poll n c job_id 5 240 240

unfoldable pub failed_results : (n : Net) → Client → Text → Act (Session n) Text
failed_results n c job_id = do
  r ← request n c (codes "GET") (job_path job_id (codes "/failedResults")) none json_type
  lift (n.decode r.body)

unfoldable pub query_count : (n : Net) → Client → Text → Act (Session n) ℤ
query_count n c soql = do
  r ← request n c (codes "GET") (api_path ++ (codes "/query?q=" ++ n.quote soql)) none json_type
  answer ← lift (json_of n r)
  total ← lift (subscript (codes "totalSize") answer)
  lift (to_int n total)
