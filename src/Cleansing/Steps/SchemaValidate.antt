-- ===== src/Cleansing/Steps/SchemaValidate.antt =====
-- src/cleansing/steps/schema_validate.py: the rows of a CSV file that name a company and a contact and
-- say when they were enriched. No row of the file has more values than there are columns.
pub mod Reasons
use automated_outreach_proto.Prelude.{
  ℕ, Bool, true, false, not, ◌&&◌, ◌||◌, Option, none, some, List, [], ◌∷◌, ◌++◌, map, length, ◌==◌,
  if◌then◌else◌, is_value_error, Result, ok, err, type_error, attribute_error, ◌>>=◌,
}
use automated_outreach_proto.Text.{Text, codes, is_nil, rpartition}
use automated_outreach_proto.Text.Space.{strip}
use automated_outreach_proto.Unicode.{Unicode}
use automated_outreach_proto.Datetime.{Datetime, IsoFormat}
use automated_outreach_proto.Dict.{Dict, get, put}
use automated_outreach_proto.Json.{Json, null, str, truthy, index, get_or, to_str}
use automated_outreach_proto.Cleansing.PipelineIo.{
  Files, Objects, Row, get_object, write_ndjson, step_key, write_quarantine,
}
use automated_outreach_proto.Cleansing.Steps.Suppress.{object_key}
use automated_outreach_proto.Cleansing.Steps.Normalize.{json_text, with_reason}

-- A row of a CSV file; a short row has no value in its last columns.
abbrev pub CsvRow : Type 0
CsvRow = Dict (Option Text)

-- bytes.decode("utf-8-sig"), and csv.DictReader
pub record CsvFiles (f : Files) : Type 0 where
  pub decode_sig : f.backend.Body → Result Text
  pub rows_of : Text → Result (List CsvRow)

unfoldable pub read_csv_rows : (f : Files) → CsvFiles f → Text → Objects f → Result (List CsvRow)
read_csv_rows f c key objects = do
  body ← get_object f objects key
  text ← c.decode_sig body
  c.rows_of text

abbrev pub or_empty : Option (Option Text) → Text
or_empty (some (some s)) = s
or_empty _ = []

-- not (row.get(column) or "").strip()
unfoldable pub is_blank : Text → CsvRow → Bool
is_blank column row = is_nil (strip (or_empty (get column row)))

-- datetime.fromisoformat(row.get("enriched_at", ""))
unfoldable pub enriched_at : IsoFormat → Option (Option Text) → Result Datetime
enriched_at iso none = iso.parse []
enriched_at iso (some none) = err type_error
enriched_at iso (some (some s)) = iso.parse s

unfoldable pub time_reason : Result Datetime → Result (Option Text)
time_reason (err e) = if is_value_error e then ok (some (codes "invalid_enriched_at")) else err e
time_reason (ok d) = ok (if d.aware then none else some (codes "invalid_enriched_at"))

unfoldable pub reason : IsoFormat → CsvRow → Result (Option Text)
reason iso row =
    if is_blank (codes "company_name") row
    then ok (some (codes "missing_company_name"))
    else if is_blank (codes "phone") row && is_blank (codes "email") row
    then ok (some (codes "missing_contact_identifier"))
    else time_reason (enriched_at iso (get (codes "enriched_at") row))

-- s.rsplit(c, 1)[-1], s.rsplit(c, 1)[0]
abbrev pub behind_last : ℕ → Text → Text
behind_last c s = elim (rpartition c s) [ some p ↦ p.1 | none ↦ s ]

abbrev pub before_last : ℕ → Text → Text
before_last c s = elim (rpartition c s) [ some p ↦ p.0 | none ↦ s ]

unfoldable pub run_id_of : Unicode → Text → Text
run_id_of u key =
    map (λ c. if u.is_alnum c || (c == b'-' || c == b'_') then c else b'-')
      (before_last b'.' (behind_last b'/' key))

-- event.get("run_id") or _run_id(key)
unfoldable pub run_id_or : Unicode → Json → Json → Result Json
run_id_or u given (str key) = ok (if truthy given then given else str (run_id_of u key))
run_id_or u given _ = if truthy given then ok given else err attribute_error

pub data Outcome : Type 0 where
  valid : Row → Outcome
  quarantined : Row → Outcome

abbrev pub json_row : CsvRow → Row
json_row row = map (λ e. (e.0, json_text e.1)) row

-- row.get("last_contacted_at") or None
abbrev pub last_contact : Option (Option Text) → Json
last_contact (some (some (c ∷ s))) = str (c ∷ s)
last_contact _ = null

unfoldable pub outcome_of : CsvRow → Option Text → Outcome
outcome_of row (some why) = quarantined (with_reason why (json_row row))
outcome_of row none = valid (
    put (codes "last_contacted_at") (last_contact (get (codes "last_contacted_at") row))
      (json_row row))

unfoldable pub validate_rows : IsoFormat → List CsvRow → Result (List Outcome)
validate_rows iso [] = ok []
validate_rows iso (row ∷ rows) = do
  why ← reason iso row
  os ← validate_rows iso rows
  ok (outcome_of row why ∷ os)

abbrev pub valid_rows : List Outcome → List Row
valid_rows [] = []
valid_rows (valid r ∷ os) = r ∷ valid_rows os
valid_rows (quarantined r ∷ os) = valid_rows os

abbrev pub quarantined_rows : List Outcome → List Row
quarantined_rows [] = []
quarantined_rows (valid r ∷ os) = quarantined_rows os
quarantined_rows (quarantined r ∷ os) = r ∷ quarantined_rows os

pub record Report : Type 0 where
  pub bucket : Json
  pub key : Text
  pub run_id : Json
  pub rows_in : ℕ
  pub rows_out : ℕ
  pub rows_quarantined : ℕ
  pub quarantine_key : Option Text

unfoldable pub conclude :
    (f : Files)
    → Result (Json × Json × List CsvRow × List Outcome)
    → Objects f
    → Result Report × Objects f
conclude f (err e) objects = (err e, objects)
conclude f (ok (bucket, run_id, rows, os)) objects =
    let out_key = step_key (to_str f.render run_id) (codes "01_schema_valid.ndjson") in
    let (quarantine, after) =
      write_quarantine f (to_str f.render run_id) (codes "01_schema") (quarantined_rows os)
        (write_ndjson f out_key (valid_rows os) objects) in
    (
      (do
        q ← quarantine
        ok (record {
          bucket = bucket;
          key = out_key;
          run_id = run_id;
          rows_in = length rows;
          rows_out = length (valid_rows os);
          rows_quarantined = length (quarantined_rows os);
          quarantine_key = q;
        })),
      after,
    )

unfoldable pub decisions :
    (f : Files)
    → CsvFiles f
    → Dict Json
    → Objects f
    → Result (Json × Json × List CsvRow × List Outcome)
decisions f c event objects = do
  bucket ← index (codes "bucket") event
  key ← index (codes "key") event
  run_id ← run_id_or f.backend.unicode (get_or (codes "run_id") null event) key
  name ← object_key key
  rows ← read_csv_rows f c name objects
  os ← validate_rows f.backend.iso rows
  ok (bucket, run_id, rows, os)

unfoldable pub handler :
    (f : Files) → CsvFiles f → Dict Json → Objects f → Result Report × Objects f
handler f c event objects = conclude f (decisions f c event objects) objects
