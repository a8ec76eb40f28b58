-- ===== src/Salesforce/Upsert/Jobs.antt =====
-- What an upsert that returns has done.
use automated_outreach_proto.Prelude.{
  ℕ, zero, suc, ◌≡◌, refl, Bool, true, false, not, Option, List, [], ◌∷◌, arith, All, is_some, ok,
  ok-injective, is_zero,
}
use automated_outreach_proto.Text.{Text, codes}
use automated_outreach_proto.Text.Equality.{text_eq_iff}
use automated_outreach_proto.Dict.{Dict}
use automated_outreach_proto.Json.{Json, str, int, get_or, index, to_str}
use automated_outreach_proto.Io.{lift, and_then-eq-ok}
use automated_outreach_proto.Salesforce.Http.{Net, to_int, text_of}
use automated_outreach_proto.Salesforce.Bulk.{
  Client, Session, is_state, create_upsert_job, upload_batch, close_job, wait_for_job,
  failed_results,
}
use automated_outreach_proto.Salesforce.Upsert.{
  Record, JobResult, batches, to_csv, failed_csv, completed, concluded, upsert_batch,
  upsert_batches, upsert_records,
}
use automated_outreach_proto.Salesforce.Upsert.Batches.{
  concat, IsBatch, concat-batches, batches-IsBatch,
}

-- The job is complete, and the failed records are there exactly when some failed.
pub record IsComplete (r : JobResult) : Type 0 where
  pub state_complete : r.state ≡ codes "JobComplete"
  pub reported : is_some r.failed_results_csv ≡ not (is_zero r.failed)

-- Each result is that of the job of its batch.
pub data Jobs (n : Net) (c : Client) (object_name field : Text)
    : List (List Record) → List JobResult → Type 0 where
  no_job : Jobs n c object_name field [] []
  a_job :
      (chunk : List Record) (s : Session n) (r : JobResult) {rest : List (List Record)}
      {rs : List JobResult}
      → (upsert_batch n c object_name field chunk s).0 ≡ ok r
      → IsComplete r
      → Jobs n c object_name field rest rs
      → Jobs n c object_name field (chunk ∷ rest) (r ∷ rs)

failed_csv-reported :
    (n : Net) (c : Client) (job_id : Text) (none_failed : Bool) (s : Session n) (o : Option Text)
    → (failed_csv n c job_id none_failed s).0 ≡ ok o
    → is_some o ≡ not none_failed
unfolding failed_csv
failed_csv-reported n c job_id true s o h = rw (← ok-injective h) refl
failed_csv-reported n c job_id false s o h =
    let (text, _, k, _) = and_then-eq-ok (failed_results n c job_id s) _ h in
    rw (← ok-injective k) refl

is_state-one :
    (n : Net) (state : Json) (t : Text) → is_state state (t ∷ []) ≡ true → text_of n state ≡ t
unfolding to_str
is_state-one n (str s) t h = (text_eq_iff s t).0 (ground arith)
is_state-one n _ t h = cc

completed-IsComplete :
    (n : Net) (c : Client) (job_id : Text) (info : Dict Json) (state : Json) (s : Session n)
    (r : JobResult)
    → text_of n state ≡ codes "JobComplete"
    → (completed n c job_id info state s).0 ≡ ok r
    → IsComplete r
unfolding completed
completed-IsComplete n c job_id info state s r e h =
    let (failed, _, h1, _) =
      and_then-eq-ok (lift (to_int n (get_or (codes "numberRecordsFailed") (int 0) info)) s) _ h in
    let (processed, _, h2, _) =
      and_then-eq-ok (lift (to_int n (get_or (codes "numberRecordsProcessed") (int 0) info)) s) _
        h1 in
    let (csv, k, h3, _) = and_then-eq-ok (failed_csv n c job_id (is_zero failed) s) _ h2 in
    rw (← ok-injective h3) (record {
      state_complete = e;
      reported = failed_csv-reported n c job_id (is_zero failed) s csv k;
    })

concluded-IsComplete :
    (n : Net) (c : Client) (job_id : Text) (info : Dict Json) (state : Json) (complete : Bool)
    (s : Session n) (r : JobResult)
    → is_state state (codes "JobComplete" ∷ []) ≡ complete
    → (concluded n c job_id info state complete s).0 ≡ ok r
    → IsComplete r
unfolding concluded
concluded-IsComplete n c job_id info state true s r e h =
    completed-IsComplete n c job_id info state s r (is_state-one n state (codes "JobComplete") e) h
concluded-IsComplete n c job_id info state false s r e h = cc

upsert_batch-IsComplete :
    (n : Net) (c : Client) (object_name field : Text) (chunk : List Record) (s : Session n)
    (r : JobResult)
    → (upsert_batch n c object_name field chunk s).0 ≡ ok r
    → IsComplete r
unfolding upsert_batch
upsert_batch-IsComplete n c object_name field chunk s r h =
    let (job_id, _, h1, _) = and_then-eq-ok (create_upsert_job n c object_name field s) _ h in
    let s1 = (create_upsert_job n c object_name field s).1 in
    let (csv, _, h2, _) = and_then-eq-ok (lift (to_csv n chunk) s1) _ h1 in
    let (_, _, h3, _) = and_then-eq-ok (upload_batch n c job_id csv s1) _ h2 in
    let s2 = (upload_batch n c job_id csv s1).1 in
    let (_, _, h4, _) = and_then-eq-ok (close_job n c job_id s2) _ h3 in
    let s3 = (close_job n c job_id s2).1 in
    let (info, _, h5, _) = and_then-eq-ok (wait_for_job n c job_id s3) _ h4 in
    let s4 = (wait_for_job n c job_id s3).1 in
    let (state, _, h6, _) = and_then-eq-ok (lift (index (codes "state") info) s4) _ h5 in
    concluded-IsComplete n c job_id info state (is_state state (codes "JobComplete" ∷ [])) s4 r refl
      h6

upsert_batches-Jobs :
    (n : Net) (c : Client) (object_name field : Text) (chunks : List (List Record)) (s : Session n)
    (rs : List JobResult)
    → (upsert_batches n c object_name field chunks s).0 ≡ ok rs
    → Jobs n c object_name field chunks rs
unfolding upsert_batches
upsert_batches-Jobs n c object_name field [] s rs h = rw (← ok-injective h) no_job
upsert_batches-Jobs n c object_name field (chunk ∷ rest) s rs h =
    let (r, p, h1, _) = and_then-eq-ok (upsert_batch n c object_name field chunk s) _ h in
    let s1 = (upsert_batch n c object_name field chunk s).1 in
    let (qs, q, h2, _) = and_then-eq-ok (upsert_batches n c object_name field rest s1) _ h1 in
    rw (← ok-injective h2) (
      a_job chunk s r p (upsert_batch-IsComplete n c object_name field chunk s r p)
        (upsert_batches-Jobs n c object_name field rest s1 qs q))

-- An upsert that returns has cut the records into batches, none of them empty or above the size,
-- that hold every record once and in order; each result is that of the job of its batch, in order,
-- each job is complete, and the failed records of a job are returned exactly when some failed.
pub upsert_records-Jobs :
    (n : Net) (c : Client) (records : List Record) (field object_name : Text) (size : ℕ)
    (s : Session n) (rs : List JobResult)
    → (upsert_records n c records field object_name size s).0 ≡ ok rs
    → (chunks : List (List Record)) × (concat chunks ≡ records)
      × All (IsBatch size) chunks
      × Jobs n c object_name field chunks rs
unfolding upsert_records
upsert_records-Jobs n c records field object_name zero s rs h = cc
upsert_records-Jobs n c records field object_name (suc size) s rs h = (
  batches (suc size) records,
  concat-batches (suc size) records (omega arith),
  batches-IsBatch (suc size) records (omega arith),
  upsert_batches-Jobs n c object_name field (batches (suc size) records) s rs h,
)
