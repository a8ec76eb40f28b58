-- ===== src/Cleansing/Steps/SchemaValidate/Reasons.antt =====
-- Why a row of the CSV file is quarantined.
use automated_outreach_proto.Prelude.{
  ◌≡◌, ◌≢◌, refl, sym, ap, ◌∙◌, inl, inr, Among, true, false, ◌&&◌, none, some, List, [], ◌∷◌,
  length, map, type_error, Result, ok, err, ok-injective, >>=-eq-ok,
}
use automated_outreach_proto.Text.{Text, codes}
use automated_outreach_proto.Datetime.{Datetime, IsoFormat}
use automated_outreach_proto.Dict.{Dict, get, put}
use automated_outreach_proto.Json.{Json, null, str, index, index_iff, get_or, to_str}
use automated_outreach_proto.Cleansing.PipelineIo.{
  Files, Objects, Row, row_json, read_ndjson, quarantine_key,
}
use automated_outreach_proto.Cleansing.PipelineIo.Ndjson.{IsQuarantined}
use automated_outreach_proto.Cleansing.Steps.Suppress.{object_key, object_key-str}
use automated_outreach_proto.Cleansing.Steps.SchemaValidate.{
  CsvRow, CsvFiles, read_csv_rows, is_blank, enriched_at, time_reason, reason, run_id_or, Outcome,
  json_row, last_contact, validate_rows, Report, conclude, decisions, handler,
}

-- What a row has that is not quarantined.
pub record IsComplete (iso : IsoFormat) (row : CsvRow) : Type 0 where
  pub enriched : Datetime
  pub named : is_blank (codes "company_name") row ≡ false
  pub identified : (is_blank (codes "phone") row && is_blank (codes "email") row) ≡ false
  pub dated : enriched_at iso (get (codes "enriched_at") row) ≡ ok enriched
  pub zoned : enriched.aware ≡ true

same_key : (s t : Text) → some (str s) ≡ some (str t) → s ≡ t
same_key s t h = cc

-- The rows of the file, and those that go to the two files, in order.
pub data Checked (iso : IsoFormat) : List CsvRow → List Row → List Row → Type 0 where
  no_row : Checked iso [] [] []
  passed :
      (row : CsvRow) {rows : List CsvRow} {good bad : List Row}
      → IsComplete iso row
      → Checked iso rows good bad
      → Checked iso
          (row ∷ rows)
          (put
              (codes "last_contacted_at")
              (last_contact (get (codes "last_contacted_at") row))
              (json_row row)
            ∷ good)
          bad
  failed :
      (row : CsvRow) (why : Text) {rows : List CsvRow} {good bad : List Row}
      → reason iso row ≡ ok (some why)
      → Checked iso rows good bad
      → Checked iso (row ∷ rows) good (put (codes "reason") (str why) (json_row row) ∷ bad)

-- The two files of a run, and what the report says of them.
pub record IsSortedOut (f : Files) (rows : List CsvRow) (r : Report) (objects : Objects f)
    : Type 0 where
  pub good : List Row
  pub bad : List Row
  pub checked : Checked f.backend.iso rows good bad
  pub rows_in : r.rows_in ≡ length rows
  pub rows_out : r.rows_out ≡ length good
  pub rows_quarantined : r.rows_quarantined ≡ length bad
  pub valid_file : read_ndjson f objects r.key ≡ ok (map row_json good)
  pub quarantine_file :
      IsQuarantined f
        (quarantine_key (to_str f.render r.run_id) (codes "01_schema"))
        bad
        r.quarantine_key
        objects

decisions-rows :
    (f : Files) (c : CsvFiles f) (event : Dict Json) (objects : Objects f) (bucket run_id : Json)
    (rows : List CsvRow) (os : List Outcome)
    → decisions f c event objects ≡ ok (bucket, run_id, rows, os)
    → (key : Text) × (get (codes "key") event ≡ some (str key))
      × (read_csv_rows f c key objects ≡ ok rows)
      × (validate_rows f.backend.iso rows ≡ ok os)
unfolding decisions
decisions-rows f c event objects bucket run_id rows os h =
    let (b, _, h1) = >>=-eq-ok (index (codes "bucket") event) _ h in
    let (key, p, h2) = >>=-eq-ok (index (codes "key") event) _ h1 in
    let (run, _, h3) =
      >>=-eq-ok (run_id_or f.backend.unicode (get_or (codes "run_id") null event) key) _ h2 in
    let (name, q, h4) = >>=-eq-ok (object_key key) _ h3 in
    let (read, a, h5) = >>=-eq-ok (read_csv_rows f c name objects) _ h4 in
    let (found, v, h6) = >>=-eq-ok (validate_rows f.backend.iso read) _ h5 in
    let rows_eq : read ≡ rows = ap (λ x. x.2) (ok-injective h6) in
    let os_eq : found ≡ os = ap (λ x. x.3) (ok-injective h6) in
    (
      name,
      (index_iff (codes "key") event (str name)).0 (p ∙ ap ok (object_key-str key name q)),
      a ∙ ap ok rows_eq,
      ap (validate_rows f.backend.iso) (sym rows_eq) ∙ (v ∙ ap ok os_eq),
    )

-- A row that names a company and a contact, and ends before the column of its time.
pub record IsShort (row : CsvRow) : Type 0 where
  pub named : is_blank (codes "company_name") row ≡ false
  pub identified : (is_blank (codes "phone") row && is_blank (codes "email") row) ≡ false
  pub ends_early : get (codes "enriched_at") row ≡ some none

reason-IsShort : (iso : IsoFormat) (row : CsvRow) → IsShort row → reason iso row ≡ err type_error
unfolding reason time_reason enriched_at
reason-IsShort iso row s = rw (s.named, s.identified, s.ends_early) refl

-- No batch with such a row is sorted out.
validate_rows-IsShort :
    (iso : IsoFormat) (row : CsvRow) (rows : List CsvRow) (os : List Outcome)
    → IsShort row
    → Among row rows
    → validate_rows iso rows ≡ ok os
    → ⊥
unfolding validate_rows
validate_rows-IsShort iso row [] os s a h = elim a [ ]
validate_rows-IsShort iso row (x ∷ xs) os s a h =
    let (why, p, h1) = >>=-eq-ok (reason iso x) _ h in
    let (os', q, _) = >>=-eq-ok (validate_rows iso xs) _ h1 in
    elim a [
      | inl e ↦ cc (sym (reason-IsShort iso row s) ∙ ap (reason iso) e ∙ p)
      | inr t ↦ validate_rows-IsShort iso row xs os' s t q
    ]

failed-objects :
    (f : Files) (work : Result (Json × Json × List CsvRow × List Outcome)) (objects : Objects f)
    → ((done : Json × Json × List CsvRow × List Outcome) → work ≡ ok done → ⊥)
    → ((conclude f work objects).1 ≡ objects)
      × ((r : Report) → (conclude f work objects).0 ≡ ok r → ⊥)
unfolding conclude
failed-objects f (err e) objects h = (refl, λ r p. cc)
failed-objects f (ok done) objects h = absurd (h done refl)

-- One short row anywhere in the CSV file fails the whole batch: where the file under the event's key
-- has a row that names a company and a contact and ends before the column of its time, the step
-- returns no report and writes nothing, neither the valid rows nor the quarantine file.
pub handler-IsShort :
    (f : Files) (c : CsvFiles f) (event : Dict Json) (objects : Objects f) (key : Text)
    (rows : List CsvRow) (row : CsvRow)
    → get (codes "key") event ≡ some (str key)
    → read_csv_rows f c key objects ≡ ok rows
    → Among row rows
    → IsShort row
    → ((handler f c event objects).1 ≡ objects)
      × ((r : Report) → (handler f c event objects).0 ≢ ok r)
unfolding handler
handler-IsShort f c event objects key rows row k q a s =
    failed-objects f (decisions f c event objects) objects (λ done h.
      let (key', p, q', v) = decisions-rows f c event objects done.0 done.1 done.2 done.3 h in
      let keys : key ≡ key' = same_key key key' (sym k ∙ p) in
      let same : rows ≡ done.2 =
        ok-injective (sym q ∙ ap (λ x. read_csv_rows f c x objects) keys ∙ q') in
      validate_rows-IsShort f.backend.iso row done.2 done.3 s (rw (← same) a) v)
