-- ===== src/Cleansing/Steps/Normalize.antt =====
-- src/cleansing/steps/normalize.py: the rows of a batch in normal form, and those that have none.
pub mod Sorted
use automated_outreach_proto.Prelude.{
  ℕ, suc, ◌≡◌, Bool, true, false, ◌||◌, Option, none, some, List, [], ◌∷◌, ◌++◌, length, is_some,
  map, Exn, Result, ok, err, ◌>>=◌, if◌then◌else◌,
}
use automated_outreach_proto.Text.{Text, codes}
use automated_outreach_proto.Dict.{Dict, get, put}
use automated_outreach_proto.Json.{Json, null, str, index, to_str}
use automated_outreach_proto.Cleansing.Normalize.{
  normalize_company, normalize_phone, normalize_email,
}
use automated_outreach_proto.Cleansing.PipelineIo.{
  Files, Objects, Row, as_row, row_json, read_ndjson, write_ndjson, step_key, write_quarantine,
}
use automated_outreach_proto.Cleansing.Steps.Suppress.{opt_text, object_key}

pub data Outcome : Type 0 where
  kept : Row → Outcome
  quarantined : Row → Outcome

-- None is null.
abbrev pub json_text : Option Text → Json
json_text none = null
json_text (some s) = str s

-- {**row, "reason": reason}
abbrev pub with_reason : Text → Row → Row
with_reason reason row = put (codes "reason") (str reason) row

unfoldable pub with_identifiers : Row → Text → Option Text → Option Text → Outcome
with_identifiers row company none none = quarantined (with_reason (codes "no_valid_identifier") row)
with_identifiers row company phone email = kept (
    put (codes "email") (json_text email)
      (put (codes "phone") (json_text phone) (put (codes "company_name") (str company) row)))

-- The rest of a round, behind the company's name.
unfoldable pub with_company : Files → Row → Option Text → Result Outcome
with_company f row none =
    ok (quarantined (with_reason (codes "company_empty_after_normalization") row))
with_company f row (some company) = do
  p ← index (codes "phone") row
  phone ← opt_text p
  e ← index (codes "email") row
  email ← opt_text e
  ok (
      with_identifiers row company (normalize_phone f.backend.unicode f.backend.phones phone)
        (normalize_email f.backend.unicode email))

unfoldable pub normalize_row : Files → Json → Result Outcome
normalize_row f x = do
  row ← as_row x
  c ← index (codes "company_name") row
  raw ← opt_text c
  with_company f row (normalize_company f.backend.unicode raw)

-- The loop over the rows.
unfoldable pub normalize_rows : Files → List Json → Result (List Outcome)
normalize_rows f [] = ok []
normalize_rows f (x ∷ xs) = do o ← normalize_row f x; os ← normalize_rows f xs; ok (o ∷ os)

abbrev pub kept_rows : List Outcome → List Row
kept_rows [] = []
kept_rows (kept r ∷ os) = r ∷ kept_rows os
kept_rows (quarantined r ∷ os) = kept_rows os

abbrev pub quarantined_rows : List Outcome → List Row
quarantined_rows [] = []
quarantined_rows (kept r ∷ os) = quarantined_rows os
quarantined_rows (quarantined r ∷ os) = r ∷ quarantined_rows os

pub record Report : Type 0 where
  pub bucket : Json
  pub key : Text
  pub run_id : Json
  pub rows_in : ℕ
  pub rows_out : ℕ
  pub rows_quarantined : ℕ
  pub quarantine_key : Option Text

unfoldable pub out_key : Files → Json → Text
out_key f run_id = step_key (to_str f.render run_id) (codes "02_normalized.ndjson")

-- The report, once the quarantine file was written.
unfoldable pub report : Files → Json → Json → List Json → List Outcome → Option Text → Report
report f bucket run_id rows os quarantine = record {
  bucket = bucket;
  key = out_key f run_id;
  run_id = run_id;
  rows_in = length rows;
  rows_out = length (kept_rows os);
  rows_quarantined = length (quarantined_rows os);
  quarantine_key = quarantine;
}

unfoldable pub conclude :
    (f : Files)
    → Result (Json × Json × List Json × List Outcome)
    → Objects f
    → Result Report × Objects f
conclude f (err e) objects = (err e, objects)
conclude f (ok (bucket, run_id, rows, os)) objects =
    let stored = write_ndjson f (out_key f run_id) (kept_rows os) objects in
    let (quarantine, after) =
      write_quarantine f (to_str f.render run_id) (codes "02_normalize") (quarantined_rows os)
        stored in
    ((do q ← quarantine; ok (report f bucket run_id rows os q)), after)

-- What the handler works out before it writes.
unfoldable pub decisions :
    (f : Files) → Dict Json → Objects f → Result (Json × Json × List Json × List Outcome)
decisions f event objects = do
  bucket ← index (codes "bucket") event
  run_id ← index (codes "run_id") event
  key ← index (codes "key") event
  name ← object_key key
  rows ← read_ndjson f objects name
  os ← normalize_rows f rows
  ok (bucket, run_id, rows, os)

unfoldable pub handler : (f : Files) → Dict Json → Objects f → Result Report × Objects f
handler f event objects = conclude f (decisions f event objects) objects
