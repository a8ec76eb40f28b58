-- ===== src/Salesforce/Reconcile.antt =====
-- src/salesforce/reconcile.py: the contacts of the lake and the leads that carry an id.
pub mod Distinct
pub mod Drift
use automated_outreach_proto.Prelude.{
  ℕ, zero, suc, ◌+◌, ◌-◌, Bool, true, false, ◌&&◌, Option, none, some, List, [], ◌∷◌, length, ltb,
  if◌then◌else◌, Result, ok, err, ℤ, pos, negsuc, is_zero,
}
use automated_outreach_proto.Text.{Text, codes, text_eq, ends_with}
use automated_outreach_proto.Io.{Act, pure, lift, ◌>>=◌, ◌>>◌}
use automated_outreach_proto.Cleansing.PipelineIo.{Files, Objects, get_object, list_keys}
use automated_outreach_proto.Salesforce.Http.{Net}
use automated_outreach_proto.Salesforce.Cloud.{Cloud, Metric, Value, whole, percent}
use automated_outreach_proto.Salesforce.Auth.{Crypto, load_credentials, get_access_token}
use automated_outreach_proto.Salesforce.Bulk.{Session, query_count}
use automated_outreach_proto.Salesforce.Sync.{environ, metric_namespace}

abbrev pub cleansed_prefix : Text
cleansed_prefix = codes "staging/cleansed/"

abbrev pub drift_query : Text
drift_query = codes "SELECT COUNT() FROM Lead WHERE Outreach_External_Id__c != null"

-- The column `external_id` of a Parquet file, as a list.
abbrev pub IdColumn : Files → Type 0
IdColumn f = f.backend.Body → Result (List (Option Text))

abbrev pub same_id : Option Text → Option Text → Bool
same_id none none = true
same_id (some s) (some t) = text_eq s t
same_id _ _ = false

abbrev pub has_id : Option Text → List (Option Text) → Bool
has_id x [] = false
has_id x (y ∷ ys) = let rest = has_id x ys in if same_id x y then true else rest

-- ids.update(column)
unfoldable pub update_ids : List (Option Text) → List (Option Text) → List (Option Text)
update_ids ids [] = ids
update_ids ids (x ∷ xs) = update_ids (if has_id x ids then ids else x ∷ ids) xs

-- The column of an object that was read.
abbrev pub read_column :
    (f : Files) → IdColumn f → Result f.backend.Body → Result (List (Option Text))
read_column f column (err e) = err e
read_column f column (ok body) = column body

abbrev pub with_column :
    List (Option Text) → Result (List (Option Text)) → Result (List (Option Text))
with_column ids (err e) = err e
with_column ids (ok xs) = ok (update_ids ids xs)

-- The ids of one file are added, where it is a Parquet file.
unfoldable pub file_ids :
    (f : Files)
    → IdColumn f
    → Objects f
    → List (Option Text)
    → Text
    → Bool
    → Result (List (Option Text))
file_ids f column objects ids key false = ok ids
file_ids f column objects ids key true =
    with_column ids (read_column f column (get_object f objects key))

-- The loop over the keys.
unfoldable pub lake_ids :
    (f : Files)
    → IdColumn f
    → Objects f
    → List Text
    → List (Option Text)
    → Act (Unit {0}) (List (Option Text))
lake_ids f column objects [] ids = pure ids
lake_ids f column objects (key ∷ keys) ids = do
  more ← lift (file_ids f column objects ids key (ends_with key (codes ".parquet")))
  lake_ids f column objects keys more

-- abs(a - b)
abbrev pub distance : ℕ → ℤ → ℕ
distance a (pos b) = (a - b) + (b - a)
distance a (negsuc b) = a + suc b

unfoldable pub drift_percent : ℕ → ℤ → Value
drift_percent zero salesforce_count = whole (pos (if is_zero salesforce_count then 0 else 100))
drift_percent (suc n) salesforce_count = percent (distance (suc n) salesforce_count) (suc n)

pub record Report : Type 0 where
  pub lake_count : ℕ
  pub salesforce_count : ℤ
  pub drift : Value

abbrev report_of : ℕ → ℤ → Report
report_of lake_count salesforce_count = record {
  lake_count = lake_count;
  salesforce_count = salesforce_count;
  drift = drift_percent lake_count salesforce_count;
}

abbrev metrics_of : Report → List Metric
metrics_of r =
    record { name = codes "ReconciliationDriftPercent"; value = r.drift }
    ∷ record { name = codes "LakeRecordCount"; value = whole (pos r.lake_count) }
    ∷ record { name = codes "SalesforceRecordCount"; value = whole r.salesforce_count }
    ∷ []

module _ (n : Net) (f : Files) (k : Crypto) (c : Cloud n f) (column : IdColumn f) where
  -- A new client asks.
  unfoldable pub counted : Text × Text → Act n.World ℤ
  counted (access_token, instance_url) w =
      let x =
        query_count n (record { instance_url = instance_url; access_token = access_token })
          drift_query (record { world = w; api_usage = none }) in
      (x.0, x.1.world)

  -- The number of distinct ids in the lake.
  unfoldable pub count_lake : Objects f → Result ℕ
  count_lake objects =
      let go : Act (Unit {0}) ℕ = (do
        keys ← lift (list_keys f objects cleansed_prefix)
        ids ← lake_ids f column objects keys []
        pure (length ids)) in
      (go tt).0

  unfoldable pub published : Report → Act n.World Report
  published r = do c.put_metrics metric_namespace (metrics_of r); pure r

  -- `seconds` is the time at which the assertion is made.
  unfoldable pub handler : ℕ → Objects f → Act n.World Report
  handler seconds objects = do
    bucket ← lift (environ (c.getenv (codes "DATA_BUCKET")))
    lake_count ← lift (count_lake objects)
    secret_id ← lift (environ (c.getenv (codes "SALESFORCE_SECRET_ID")))
    creds ← lift (load_credentials n c.get_secret secret_id)
    token ← get_access_token n k creds seconds
    salesforce_count ← counted token
    published (report_of lake_count salesforce_count)
