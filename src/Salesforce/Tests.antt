-- ===== src/Salesforce/Tests.antt =====
-- Runs of the Salesforce client against a network that gives out prepared responses.
pub mod Counts
use automated_outreach_proto.Unicode.{encode, utf8_bytes}
use automated_outreach_proto.Json.{index, get_or, to_str, truthy}
use automated_outreach_proto.Dict.{get, put}
use automated_outreach_proto.Salesforce.Bulk.{
  create_upsert_job, request, attempts, received, judged, upload_batch, close_job, failed_results,
  get_job, pause, poll, record_usage, wait_for_job,
}
use automated_outreach_proto.Salesforce.Http.{json_of, subscript, dict_of, header, to_int}
use automated_outreach_proto.Salesforce.Upsert.{
  to_csv, completed, concluded, failed_csv, upsert_batches, batches, slices, upsert_batch,
}
use automated_outreach_proto.Cleansing.Steps.Suppress.{object_key}
use automated_outreach_proto.Cleansing.PipelineIo.{get_object}
use automated_outreach_proto.Salesforce.Sync.{
  sync_records, lead_records, lead_record, pushed, store_failures, store_step, stored,
  usage_metrics,
}
use automated_outreach_proto.Salesforce.Auth.{
  load_credentials, get_access_token, build_assertion, b64url, token_of,
}
use automated_outreach_proto.Text.Space.{rstrip_of, keep}
use automated_outreach_proto.Prelude.{◌+ℤ◌}
use automated_outreach_proto.Prelude.{
  All, ◌≤◌, ◌-◌, arith, ℕ, suc, ◌+◌, ◌≡◌, refl, none, some, List, [], ◌∷◌, Result, ok, err,
  json_error, other, pos, true, false,
}
use automated_outreach_proto.Text.{Text, codes}
use automated_outreach_proto.Dict
use automated_outreach_proto.Dict.{Dict}
use automated_outreach_proto.Cleansing.PipelineIo
use automated_outreach_proto.Salesforce.Bulk
use automated_outreach_proto.Salesforce.Upsert.Batches
use automated_outreach_proto.Datetime.{Datetime}
use automated_outreach_proto.Json.{Json, null, int, str, obj, end, field}
use automated_outreach_proto.Suppression.Tests.{bucket}
use automated_outreach_proto.Cleansing.PipelineIo.{Files, Row}
use automated_outreach_proto.Cleansing.Tests.Steps.{files}
use automated_outreach_proto.Salesforce.Http.{Bytes, HttpRequest, HttpResponse, Net}
use automated_outreach_proto.Salesforce.Cloud.{Cloud, Lake}
use automated_outreach_proto.Salesforce.Auth.{Crypto}
use automated_outreach_proto.Salesforce.Bulk.{Client, Session}
use automated_outreach_proto.Salesforce.Bulk.Retry.{Meter, Tried, request-Tried}
use automated_outreach_proto.Salesforce.Upsert.{Record, JobResult, upsert_records}
use automated_outreach_proto.Salesforce.Upsert.Jobs.{upsert_records-Jobs}
use automated_outreach_proto.Salesforce.Upsert.Jobs as Jobs
use automated_outreach_proto.Salesforce.Sync.{Report, handler}
use automated_outreach_proto.Salesforce.Sync.Failures.{handler-IsSynced}
use automated_outreach_proto.Salesforce.Sync.Failures as Failures
use automated_outreach_proto.Salesforce.InboundGap
use automated_outreach_proto.Salesforce.InboundGap.Additive.{Ordered, business_micros-add}

-- The responses that are left, the requests that were sent, the seconds that were slept.
pub record Wire : Type 0 where
  pub left : List HttpResponse
  pub sent : ℕ
  pub slept : ℕ

abbrev answer : List HttpResponse → HttpRequest → ℕ → ℕ → Result HttpResponse × Wire
answer [] req sent slept =
    (err (other (codes "URLError")), record { left = []; sent = suc sent; slept = slept })
answer (r ∷ rs) req sent slept = (ok r, record { left = rs; sent = suc sent; slept = slept })

abbrev pub plain : ℕ → Bytes → HttpResponse
plain status body = record { status = status; headers = []; body = body }

-- The answers, by the length of the body.
abbrev pub parse_body : List Json → Bytes → Result Json
parse_body [] body = err json_error
parse_body (x ∷ xs) [] = ok x
parse_body (x ∷ xs) (c ∷ body) = parse_body xs body

abbrev pub net_of : List Json → Net
net_of answers = record {
  World = Wire;
  transport = λ req w. answer w.left req w.sent w.slept;
  sleep = λ k w. record w { slept = w.slept + k };
  unicode = bucket.unicode;
  loads = parse_body answers;
  loads_bytes = parse_body answers;
  dumps = λ _. [];
  decode = ok;
  decode_replace = λ s. s;
  quote = λ s. s;
  csv_text = λ _ _. ok [];
  render = λ _. [];
  repr_bytes = λ s. s;
  digits_value = λ _. 0;
  int_text = λ _. ok (pos 0);
  int_float = λ _. ok (pos 0);
  float_equals = λ _ _. false;
  dict_pairs = λ _. ok [];
}

-- The token; the new job; the job that ended with a record refused.
abbrev pub answers : List Json
answers =
    obj (
      field (codes "client_id") (str (codes "c")) (
        field (codes "username") (str (codes "u")) (
          field (codes "login_url") (str (codes "l"))
            (field (codes "private_key") (str (codes "k")) end))))
    ∷ obj (
        field (codes "access_token") (str (codes "t"))
          (field (codes "instance_url") (str (codes "i")) end))
    ∷ obj (field (codes "id") (str (codes "7")) end)
    ∷ obj (
        field (codes "state") (str (codes "JobComplete"))
          (field (codes "numberRecordsFailed") (int 1) end))
    ∷ []

abbrev net : Net
net = net_of answers

meter : Meter net
meter = record {
  sent = λ w. w.sent;
  slept = λ w. w.slept;
  sent-transport = λ req w. go w.left req w.sent w.slept;
  slept-transport = λ req w. still w.left req w.sent w.slept;
  sent-sleep = λ k w. refl;
  slept-sleep = λ k w. refl;
}
  where
    go : (rs : List HttpResponse) (req : HttpRequest) (a b : ℕ) → (answer rs req a b).1.sent ≡ suc a
    go [] req a b = refl
    go (r ∷ rs) req a b = refl

    still : (rs : List HttpResponse) (req : HttpRequest) (a b : ℕ) → (answer rs req a b).1.slept ≡ b
    still [] req a b = refl
    still (r ∷ rs) req a b = refl

abbrev client : Client
client = record { instance_url = codes "i"; access_token = codes "t" }

-- Too many requests, and an answer.
abbrev busy : Session net
busy = record {
  world = record { left = plain 429 [] ∷ plain 200 [] ∷ []; sent = 0; slept = 0 };
  api_usage = none;
}

request-Tried_example :
    Tried net meter
      (Bulk.request_of client (codes "GET") (codes "/x") none (codes "t"))
      0
      busy.world
      (Bulk.request net client (codes "GET") (codes "/x") none (codes "t") busy).1.world
      (Bulk.request net client (codes "GET") (codes "/x") none (codes "t") busy).0
request-Tried_example =
    request-Tried net meter client (codes "GET") (codes "/x") none (codes "t") busy

-- One job: created, uploaded, closed, polled, and its failed records fetched.
abbrev job_responses : List HttpResponse
job_responses =
    plain 200 (0 ∷ 0 ∷ [])
    ∷ plain 201 []
    ∷ plain 200 []
    ∷ plain 200 (0 ∷ 0 ∷ 0 ∷ [])
    ∷ plain 200 (codes "x")
    ∷ []

abbrev ready : Session net
ready = record { world = record { left = job_responses; sent = 0; slept = 0 }; api_usage = none }

abbrev lead : Record
lead = (codes "Email", codes "ann@b.co") ∷ []

abbrev done : JobResult
done = record {
  job_id = codes "7";
  state = codes "JobComplete";
  processed = pos 0;
  failed = pos 1;
  failed_results_csv = some (codes "x");
}

ran : (upsert_records net client (lead ∷ []) (codes "Id") (codes "Lead") 2 ready).0 ≡ ok (done ∷ [])
unfolding encode utf8_bytes index get_or to_str get put create_upsert_job request attempts received
    judged upload_batch close_job failed_results get_job pause poll record_usage wait_for_job
    json_of subscript dict_of header to_int to_csv completed concluded failed_csv upsert_records
    upsert_batches batches slices upsert_batch
ran = refl

upsert_records-Jobs_example :
    (chunks : List (List Record)) × (Batches.concat chunks ≡ lead ∷ [])
    × All (Batches.IsBatch 2) chunks
    × Jobs.Jobs net client (codes "Lead") (codes "Id") chunks (done ∷ [])
upsert_records-Jobs_example =
    upsert_records-Jobs net client (lead ∷ []) (codes "Id") (codes "Lead") 2 ready (done ∷ []) ran

abbrev pub crypto : Crypto
crypto = record { urlsafe_b64encode = λ s. s; urlencode = λ _. []; rsa_sign = λ _ s. ok s }

abbrev cloud : Cloud net files
cloud = record {
  get_secret = λ _. ok [];
  getenv = λ s. some s;
  put_metrics = λ _ _ w. (ok tt, w);
  read_parquet = λ _. ok (((codes "email", str (codes "ann@b.co")) ∷ []) ∷ []);
}

abbrev event : Dict Json
event =
    (codes "bucket", str (codes "b"))
    ∷ (codes "run_id", str (codes "r"))
    ∷ (codes "key", str (codes "in"))
    ∷ []

abbrev lake : Lake net files
lake = record {
  world = record { left = plain 200 (0 ∷ []) ∷ job_responses; sent = 0; slept = 0 };
  objects = (codes "in", null) ∷ [];
}

abbrev synced : Report
synced = record {
  bucket = str (codes "b");
  run_id = str (codes "r");
  records_in = 1;
  records_failed = pos 1;
  jobs = codes "7" ∷ [];
  failure_keys = codes "staging/sync-failures/r/7.csv" ∷ [];
}

sync_ran : (handler net files crypto cloud 5 event lake).0 ≡ ok synced
unfolding encode utf8_bytes index get_or to_str get put create_upsert_job request attempts received
    judged upload_batch close_job failed_results get_job pause poll record_usage wait_for_job
    json_of subscript dict_of header to_int to_csv completed concluded failed_csv upsert_records
    upsert_batches batches slices upsert_batch handler object_key get_object sync_records
    lead_records lead_record pushed store_failures store_step stored usage_metrics load_credentials
    get_access_token build_assertion b64url token_of rstrip_of keep truthy ◌+ℤ◌
sync_ran = refl

handler-IsSynced_example :
    (key : Text) × (body : Json) × (rows : List Row) × (Dict.get (codes "key") event
      ≡ some (str key))
    × (PipelineIo.get_object files lake.objects key ≡ ok body)
    × (cloud.read_parquet body ≡ ok rows)
    × Failures.IsSynced net files crypto cloud 5 lake.world rows synced
        (handler net files crypto cloud 5 event lake).1.objects
handler-IsSynced_example = handler-IsSynced net files crypto cloud 5 event lake synced sync_ran

abbrev at : ℕ → Datetime
at t = record { aware = true; instant = t }

in_order : (a b : ℕ) → a ≤ b → Ordered (λ d. d.instant) (at a) (at b)
in_order a b h = record { same_kind = refl; in_order = h; wall_in_order = h }

-- From a day's ten o'clock over noon to the next day's nine o'clock.
business_micros-add_example :
    (x : ℕ) × (y : ℕ) × (InboundGap.business_micros
        (at 122400000000)
        (at 129600000000)
        (λ d. d.instant)
        (pos 8)
        (pos 21)
      ≡ ok x)
    × (InboundGap.business_micros
          (at 129600000000)
          (at 205200000000)
          (λ d. d.instant)
          (pos 8)
          (pos 21)
        ≡ ok y)
    × (InboundGap.business_micros
          (at 122400000000)
          (at 205200000000)
          (λ d. d.instant)
          (pos 8)
          (pos 21)
        ≡ ok (x + y))
    × (x + y ≤ 205200000000 - 122400000000)
business_micros-add_example =
    business_micros-add (λ d. d.instant) 8 21 (ground arith) (ground arith) (at 122400000000)
      (at 129600000000) (at 205200000000) (in_order 122400000000 129600000000 (ground arith))
      (in_order 129600000000 205200000000 (ground arith))
