-- ===== src/Salesforce/Reconcile/Drift.antt =====
-- When the drift is zero.
use automated_outreach_proto.Prelude.{
  ℕ, zero, suc, none, ◌≡◌, ◌↔◌, refl, ap, arith, Bool, true, ok, ok-injective, ℤ, pos, negsuc, ◌==◌,
  is_zero,
}
use automated_outreach_proto.Text.{Text, codes}
use automated_outreach_proto.Io.{lift, and_then-eq-ok}
use automated_outreach_proto.Cleansing.PipelineIo.{Files, Objects}
use automated_outreach_proto.Salesforce.Http.{Net}
use automated_outreach_proto.Salesforce.Cloud.{Cloud, Value, whole, percent, micros}
use automated_outreach_proto.Salesforce.Auth.{
  Crypto, load_credentials, get_access_token, Credentials,
}
use automated_outreach_proto.Salesforce.Bulk.{query_count}
use automated_outreach_proto.Salesforce.Sync.{environ}
use automated_outreach_proto.Salesforce.Reconcile.Distinct.{IsCount, count_lake-IsCount}
use automated_outreach_proto.Salesforce.Reconcile.{
  IdColumn, Report, drift_query, drift_percent, count_lake, counted, published, handler,
}

-- The value of a metric is zero; the share of a number above zero is, if its part is zero.
abbrev pub is_zero_value : Value → Bool
is_zero_value (whole k) = is_zero k
is_zero_value (percent a b) = a == 0
is_zero_value (micros k) = k == 0

drift_iff :
    (lake : ℕ) (leads : ℤ) → (is_zero_value (drift_percent lake leads) ≡ true) ↔ (pos lake ≡ leads)
unfolding drift_percent
drift_iff zero (pos zero) = (λ h. refl, λ h. refl)
drift_iff zero (pos (suc k)) = (λ h. ground arith, λ h. ground arith)
drift_iff zero (negsuc k) = (λ h. ground arith, λ h. ground arith)
drift_iff (suc n) (pos k) = (λ h. ap pos (ground arith), λ h. ground arith)
drift_iff (suc n) (negsuc k) = (λ h. ground arith, λ h. ground arith)

-- The number of the leads is what Salesforce answered to the query, asked with the token got for it.
pub record IsAsked (n : Net) (f : Files) (k : Crypto) (c : Cloud n f) (seconds : ℕ) (w : n.World)
    (leads : ℤ) : Type 0 where
  pub secret_id : Text
  pub creds : Credentials
  pub token : Text × Text
  pub named : environ (c.getenv (codes "SALESFORCE_SECRET_ID")) ≡ ok secret_id
  pub of_secret : load_credentials n c.get_secret secret_id ≡ ok creds
  pub got : (get_access_token n k creds seconds w).0 ≡ ok token
  pub answered :
      (query_count n
        (record { instance_url = token.1; access_token = token.0 })
        drift_query
        (record { world = (get_access_token n k creds seconds w).1; api_usage = none })).0
      ≡ ok leads

-- A run that returns reports two counts and their drift. The lake's count is the number of the
-- distinct ids in the columns of the Parquet files among the keys listed under the cleansed prefix:
-- every id of such a file is counted, once, and no other, where a null counts as an id as well. The
-- other count is the number that Salesforce answered to the query for leads with an id. The drift
-- is zero exactly when the two are equal.
pub handler-drift :
    (n : Net) (f : Files) (k : Crypto) (c : Cloud n f) (column : IdColumn f) (seconds : ℕ)
    (objects : Objects f) (w : n.World) (r : Report)
    → (handler n f k c column seconds objects w).0 ≡ ok r
    → IsCount f column objects r.lake_count
      × IsAsked n f k c seconds w r.salesforce_count
      × ((is_zero_value r.drift ≡ true) ↔ (pos r.lake_count ≡ r.salesforce_count))
unfolding handler published counted
handler-drift n f k c column seconds objects w r h =
    let (bucket, _, h1, _) =
      and_then-eq-ok (lift (environ (c.getenv (codes "DATA_BUCKET"))) w) _ h in
    let (lake, p2, h2, _) = and_then-eq-ok (lift (count_lake n f k c column objects) w) _ h1 in
    let (secret_id, p3, h3, _) =
      and_then-eq-ok (lift (environ (c.getenv (codes "SALESFORCE_SECRET_ID"))) w) _ h2 in
    let (creds, p4, h4, _) =
      and_then-eq-ok (lift (load_credentials n c.get_secret secret_id) w) _ h3 in
    let (token, p5, h5, _) = and_then-eq-ok (get_access_token n k creds seconds w) _ h4 in
    let (leads, p6, h6, _) =
      and_then-eq-ok (counted n f k c column token (get_access_token n k creds seconds w).1) _ h5 in
    let (t, _, h7, _) = and_then-eq-ok (c.put_metrics _ _ _) _ h6 in
    rw (← ok-injective h7) (
      count_lake-IsCount n f k c column objects lake p2,
      record {
        secret_id = secret_id;
        creds = creds;
        token = token;
        named = p3;
        of_secret = p4;
        got = p5;
        answered = p6;
      },
      drift_iff lake leads,
    )
