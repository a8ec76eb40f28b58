-- ===== src/Cleansing/Steps/Dedupe.antt =====
-- src/cleansing/steps/dedupe.py: of the rows with one key, the most recently enriched one is kept.
pub mod Newest
use automated_outreach_proto.Prelude.{
  ℕ, ◌-◌, Bool, true, false, Option, none, some, List, [], ◌∷◌, Result, ok, err, type_error, ◌>>=◌,
  if◌then◌else◌,
}
use automated_outreach_proto.Text.{Text, codes}
use automated_outreach_proto.Datetime.{Datetime, IsoFormat, before_datetime}
use automated_outreach_proto.Dict.{Dict, get, put, values}
use automated_outreach_proto.Json.{Json, str, index}
use automated_outreach_proto.Cleansing.PipelineIo.{Files, Objects, Row, as_row}
use automated_outreach_proto.Cleansing.Identity.{normalized_key}
use automated_outreach_proto.Cleansing.Steps.Batch.{Batch, read_batch, Report, conclude}

-- datetime.fromisoformat(x), which takes texts only
abbrev pub parsed_time : IsoFormat → Json → Result Datetime
parsed_time iso (str s) = iso.parse s
parsed_time iso _ = err type_error

unfoldable pub enriched_at : IsoFormat → Row → Result Datetime
enriched_at iso row = do x ← index (codes "enriched_at") row; parsed_time iso x

-- _enriched_at(row) > _enriched_at(incumbent)
unfoldable pub is_newer : IsoFormat → Row → Row → Result Bool
is_newer iso row incumbent = do
  new ← enriched_at iso row
  old ← enriched_at iso incumbent
  before_datetime old new

abbrev pub keyed : Text → Row → Row
keyed key row = put (codes "normalized_key") (str key) row

abbrev pub replace_if : Bool → Text → Row → Dict Row → Dict Row
replace_if true key row best = put key (keyed key row) best
replace_if false key row best = best

-- What a row does to the rows that are kept, by the one with its key.
unfoldable pub keep_newest : IsoFormat → Text → Row → Dict Row → Option Row → Result (Dict Row)
keep_newest iso key row best none = ok (replace_if true key row best)
keep_newest iso key row best (some incumbent) = do
  newer ← is_newer iso row incumbent
  ok (replace_if newer key row best)

unfoldable pub key_of : Files → Row → Result Text
key_of f row = do
  phone ← index (codes "phone") row
  email ← index (codes "email") row
  ok (normalized_key f.render phone email)

unfoldable pub dedupe_row : Files → Row → Dict Row → Result (Dict Row)
dedupe_row f row best = do key ← key_of f row; keep_newest f.backend.iso key row best (get key best)

-- The loop over the rows.
unfoldable pub dedupe_rows : Files → List Json → Dict Row → Result (Dict Row)
dedupe_rows f [] best = ok best
dedupe_rows f (x ∷ xs) best = do row ← as_row x; next ← dedupe_row f row best; dedupe_rows f xs next

-- The report, with the rows that were removed.
abbrev pub removed : Report → Report × ℕ
removed r = (r, r.rows_in - r.rows_out)

abbrev pub deduped :
    (f : Files) → Result (Batch × Dict Row) → Objects f → Result (Report × ℕ) × Objects f
deduped f (err e) objects = (err e, objects)
deduped f (ok (batch, best)) objects =
    let done = conclude f (codes "04_deduped.ndjson") batch (values best) objects in
    (ok (removed done.0), done.1)

unfoldable pub handler : (f : Files) → Dict Json → Objects f → Result (Report × ℕ) × Objects f
handler f event objects =
    deduped f
      (do batch ← read_batch f event objects; best ← dedupe_rows f batch.rows []; ok (batch, best))
      objects
