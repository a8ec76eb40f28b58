-- ===== src/Salesforce/Sync.antt =====
-- src/salesforce/sync.py: a cleansed batch is pushed to Salesforce, and what was refused is kept.
pub mod Failures
use automated_outreach_proto.Prelude.{
  ℕ, ◌+◌, Bool, true, false, Option, none, some, List, [], ◌∷◌, ◌++◌, map, length, ◌==◌,
  if◌then◌else◌, Exn, key_error, other, type_error, Result, ok, err, ℤ, pos, ◌+ℤ◌,
}
use automated_outreach_proto.Text.{Text, codes, is_nil}
use automated_outreach_proto.Dict.{Dict, get, put}
use automated_outreach_proto.Json.{Json, null, str, index, get_or, truthy, to_str}
use automated_outreach_proto.Io.{Act, pure, raise, lift, change, and_then, ◌>>=◌, ◌>>◌}
use automated_outreach_proto.Cleansing.PipelineIo.{Files, Row, get_object}
use automated_outreach_proto.Cleansing.Steps.Suppress.{object_key}
use automated_outreach_proto.Salesforce.Http.{Net, text_of}
use automated_outreach_proto.Salesforce.Cloud.{Cloud, Lake, Metric, whole, percent}
use automated_outreach_proto.Salesforce.Auth.{Crypto, load_credentials, get_access_token}
use automated_outreach_proto.Salesforce.Bulk.{Client, Session}
use automated_outreach_proto.Salesforce.Upsert.{Record, JobResult, upsert_records}

abbrev pub batch_size : ℕ
batch_size = 10000

abbrev pub external_id_field : Text
external_id_field = codes "Outreach_External_Id__c"

abbrev pub metric_namespace : Text
metric_namespace = codes "Outreach/Sync"

-- FIELD_MAP
abbrev pub field_map : List (Text × Text)
field_map =
    (codes "external_id", external_id_field)
    ∷ (codes "company_name", codes "Company")
    ∷ (codes "contact_name", codes "LastName")
    ∷ (codes "phone", codes "Phone")
    ∷ (codes "email", codes "Email")
    ∷ []

-- str(row.get(column) or "")
abbrev pub column_text : Net → Row → Text → Text
column_text n row column = let x = get_or column null row in if truthy x then text_of n x else []

abbrev with_last_name : Record → Record
with_last_name r =
    if is_nil (get_or (codes "LastName") [] r)
    then put (codes "LastName") (codes "Unknown") r
    else r

unfoldable pub lead_record : Net → Row → Record
lead_record n row = with_last_name (map (λ e. (e.1, column_text n row e.0)) field_map)

unfoldable pub lead_records : Net → List Row → List Record
lead_records n rows = map (lead_record n) rows

abbrev pub sum_failed : List JobResult → ℤ
sum_failed [] = pos 0
sum_failed (r ∷ rs) = r.failed +ℤ sum_failed rs

-- os.environ[name]
abbrev pub environ : Option Text → Result Text
environ none = err key_error
environ (some s) = ok s

pub record Report : Type 0 where
  pub bucket : Json
  pub run_id : Json
  pub records_in : ℕ
  pub records_failed : ℤ
  pub jobs : List Text
  pub failure_keys : List Text

abbrev pub failure_key : Text → Text → Text
failure_key run_id job_id =
    codes "staging/sync-failures/" ++ (run_id ++ (b'/' ∷ (job_id ++ codes ".csv")))

-- One round of the loop over the results, and the rest of it. The text was decoded from the bytes of a
-- response, so that it can be encoded.
unfoldable pub store_step :
    (f : Files)
    → Text
    → Option Text
    → (Dict f.backend.Body → List Text × Dict f.backend.Body)
    → Dict f.backend.Body
    → List Text × Dict f.backend.Body
store_step f key none rest objects = rest objects
store_step f key (some csv) rest objects =
    let more = rest (put key (f.encode csv) objects) in (key ∷ more.0, more.1)

-- The loop: the keys that it writes, in order, and the bucket.
unfoldable pub store_failures :
    (f : Files) → Text → List JobResult → Dict f.backend.Body → List Text × Dict f.backend.Body
store_failures f run_id [] objects = ([], objects)
store_failures f run_id (r ∷ rs) objects =
    store_step f (failure_key run_id r.job_id) r.failed_results_csv
      (λ o. store_failures f run_id rs o) objects

-- used / limit * 100, which no limit of 0 has
unfoldable pub usage_metrics : Option (ℕ × ℕ) → Result (List Metric)
usage_metrics none = ok []
usage_metrics (some (used, limit)) =
    if limit == 0
    then err (other (codes "ZeroDivisionError"))
    else ok (record { name = codes "ApiUsagePercent"; value = percent used limit } ∷ [])

abbrev count_metrics : ℕ → ℤ → List Metric → List Metric
count_metrics records_in failed more =
    record { name = codes "RecordsProcessed"; value = whole (pos records_in) }
    ∷ record { name = codes "RecordsFailed"; value = whole failed }
    ∷ more

module _ (n : Net) (f : Files) (k : Crypto) (c : Cloud n f) where
  -- The client's calls, in the state of the job.
  abbrev pub with_session :
      {A : Type 0}
      → Result A × Session n
      → Dict f.backend.Body
      → (A → Option (ℕ × ℕ) → Act (Lake n f) Report)
      → Result Report × Lake n f
  with_session (ok a, s) objects more =
      more a s.api_usage (record { world = s.world; objects = objects })
  with_session (err e, s) objects more = (err e, record { world = s.world; objects = objects })

  abbrev pub with_token :
      Result (Text × Text) × n.World
      → Dict f.backend.Body
      → (Text × Text → Act (Lake n f) Report)
      → Result Report × Lake n f
  with_token (ok t, w) objects more = more t (record { world = w; objects = objects })
  with_token (err e, w) objects more = (err e, record { world = w; objects = objects })

  abbrev pub emit : List Metric → Act (Lake n f) (Unit {0})
  emit metrics s =
      let x = c.put_metrics metric_namespace metrics s.world in
      (x.0, record { world = x.1; objects = s.objects })

  abbrev report_of : Json → Json → ℕ → List JobResult → List Text → Report
  report_of bucket run_id records_in results keys = record {
    bucket = bucket;
    run_id = run_id;
    records_in = records_in;
    records_failed = sum_failed results;
    jobs = map (λ (r : JobResult). r.job_id) results;
    failure_keys = keys;
  }

  -- What follows the upsert: the refused records are stored before the metrics go out.
  unfoldable pub stored : Json → Json → ℕ → List JobResult → Option (ℕ × ℕ) → Act (Lake n f) Report
  stored bucket run_id records_in results usage s =
      let kept = store_failures f (text_of n run_id) results s.objects in
      let go : Act (Lake n f) Report = (do
        more ← lift (usage_metrics usage)
        emit (count_metrics records_in (sum_failed results) more)
        pure (report_of bucket run_id records_in results kept.0)) in
      go (record s { objects = kept.1 })

  unfoldable pub pushed : Json → Json → List Record → Text × Text → Act (Lake n f) Report
  pushed bucket run_id records (access_token, instance_url) s =
      with_session
        (upsert_records n (record { instance_url = instance_url; access_token = access_token })
          records external_id_field (codes "Lead") batch_size
          (record { world = s.world; api_usage = none }))
        s.objects (stored bucket run_id (length records))

  unfoldable pub sync_records : ℕ → Json → Json → List Record → Act (Lake n f) Report
  sync_records now bucket run_id [] = pure (report_of bucket run_id 0 [] [])
  sync_records now bucket run_id (r ∷ rs) = do
    secret_id ← lift (environ (c.getenv (codes "SALESFORCE_SECRET_ID")))
    creds ← lift (load_credentials n c.get_secret secret_id)
    λ s.
        with_token (get_access_token n k creds now s.world) s.objects
          (pushed bucket run_id (r ∷ rs))

  unfoldable pub handler : ℕ → Dict Json → Act (Lake n f) Report
  handler now event s =
      let go : Act (Lake n f) Report = (do
        bucket ← lift (index (codes "bucket") event)
        run_id ← lift (index (codes "run_id") event)
        key ← lift (index (codes "key") event)
        name ← lift (object_key key)
        body ← lift (get_object f s.objects name)
        rows ← lift (c.read_parquet body)
        sync_records now bucket run_id (lead_records n rows)) in
      go s
