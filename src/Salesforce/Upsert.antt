-- ===== src/Salesforce/Upsert.antt =====
-- src/salesforce/bulk.py: `upsert_records`, one job for each batch.
pub mod Batches
pub mod Jobs
use automated_outreach_proto.Prelude.{
  ℕ, zero, suc, ◌+◌, ◌-◌, ◌/◌, ◌≡◌, Bool, true, false, Option, none, some, List, [], ◌∷◌, ◌++◌,
  length, take, drop, ◌==◌, if◌then◌else◌, Exn, index_error, value_error, salesforce_error, Result,
  ok, err, ℤ, pos, is_zero,
}
use automated_outreach_proto.Text.{Text, codes}
use automated_outreach_proto.Unicode.{encode}
use automated_outreach_proto.Dict.{Dict, keys}
use automated_outreach_proto.Json.{Json, null, int, str, index, get_or}
use automated_outreach_proto.Io.{Act, pure, raise, lift, and_then, ◌>>=◌, ◌>>◌}
use automated_outreach_proto.Salesforce.Http.{Bytes, Net, to_int, text_of}
use automated_outreach_proto.Salesforce.Bulk.{
  Client, Session, is_state, create_upsert_job, upload_batch, close_job, wait_for_job,
  failed_results,
}

abbrev pub Record : Type 0
Record = Dict Text

pub record JobResult : Type 0 where
  pub job_id : Text
  pub state : Text
  pub processed : ℤ
  pub failed : ℤ
  pub failed_results_csv : Option Text

-- records[start : start + batch_size], for so many values of `start`
unfoldable pub slices : ℕ → ℕ → ℕ → List Record → List (List Record)
slices zero start batch_size records = []
slices (suc rounds) start batch_size records =
    take batch_size (drop start records) ∷ slices rounds (start + batch_size) batch_size records

-- The slices for range(0, len(records), batch_size), a step that is not 0.
unfoldable pub batches : ℕ → List Record → List (List Record)
batches batch_size records =
    slices ((length records + batch_size - 1) / batch_size) 0 batch_size records

abbrev encoded : Result Text → Result Bytes
encoded (ok s) = encode s
encoded (err e) = err e

unfoldable pub to_csv : Net → List Record → Result Bytes
to_csv n [] = err index_error
to_csv n (r ∷ rs) = encoded (n.csv_text (keys r) (r ∷ rs))

-- What is reported of a job that is complete.
unfoldable pub failed_csv : (n : Net) → Client → Text → Bool → Act (Session n) (Option Text)
failed_csv n c job_id true = pure none
failed_csv n c job_id false = do text ← failed_results n c job_id; pure (some text)

unfoldable pub completed : (n : Net) → Client → Text → Dict Json → Json → Act (Session n) JobResult
completed n c job_id info state = do
  failed ← lift (to_int n (get_or (codes "numberRecordsFailed") (int 0) info))
  processed ← lift (to_int n (get_or (codes "numberRecordsProcessed") (int 0) info))
  csv ← failed_csv n c job_id (is_zero failed)
  pure (record {
    job_id = job_id;
    state = text_of n state;
    processed = processed;
    failed = failed;
    failed_results_csv = csv;
  })

abbrev job_ended : Net → Text → Dict Json → Json → Text
job_ended n job_id info state =
    codes "job "
    ++ (job_id
        ++ (codes " ended "
            ++ (text_of n state
                ++ (codes ": " ++ text_of n (get_or (codes "errorMessage") null info)))))

unfoldable pub concluded :
    (n : Net) → Client → Text → Dict Json → Json → Bool → Act (Session n) JobResult
concluded n c job_id info state true = completed n c job_id info state
concluded n c job_id info state false = raise (salesforce_error 500 (job_ended n job_id info state))

-- One round of the loop.
unfoldable pub upsert_batch :
    (n : Net) → Client → Text → Text → List Record → Act (Session n) JobResult
upsert_batch n c object_name external_id_field chunk = do
  job_id ← create_upsert_job n c object_name external_id_field
  csv ← lift (to_csv n chunk)
  upload_batch n c job_id csv
  close_job n c job_id
  info ← wait_for_job n c job_id
  state ← lift (index (codes "state") info)
  concluded n c job_id info state (is_state state (codes "JobComplete" ∷ []))

unfoldable pub upsert_batches :
    (n : Net) → Client → Text → Text → List (List Record) → Act (Session n) (List JobResult)
upsert_batches n c object_name external_id_field [] = pure []
upsert_batches n c object_name external_id_field (chunk ∷ rest) = do
  r ← upsert_batch n c object_name external_id_field chunk
  rs ← upsert_batches n c object_name external_id_field rest
  pure (r ∷ rs)

-- range() takes no step of 0.
unfoldable pub upsert_records :
    (n : Net) → Client → List Record → Text → Text → ℕ → Act (Session n) (List JobResult)
upsert_records n c records external_id_field object_name zero = raise value_error
upsert_records n c records external_id_field object_name (suc size) =
    upsert_batches n c object_name external_id_field (batches (suc size) records)
