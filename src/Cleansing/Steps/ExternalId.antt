-- ===== src/Cleansing/Steps/ExternalId.antt =====
-- src/cleansing/steps/assign_external_id.py: every row is given the id of its key.
use automated_outreach_proto.Prelude.{List, [], ◌∷◌, Result, ok, err, ◌>>=◌}
use automated_outreach_proto.Text.{Text, codes}
use automated_outreach_proto.Dict.{Dict, put}
use automated_outreach_proto.Json.{Json, str, index}
use automated_outreach_proto.Cleansing.PipelineIo.{Files, Objects, Row, as_row}
use automated_outreach_proto.Cleansing.Identity.{external_id}
use automated_outreach_proto.Cleansing.Steps.Batch.{Batch, read_batch, Report, conclude}

unfoldable pub with_id : (Text → Text) → Json → Result Row
with_id uuid5 x = do
  row ← as_row x
  key ← index (codes "normalized_key") row
  id ← external_id uuid5 key
  ok (put (codes "external_id") (str id) row)

unfoldable pub with_ids : (Text → Text) → List Json → Result (List Row)
with_ids uuid5 [] = ok []
with_ids uuid5 (x ∷ xs) = do row ← with_id uuid5 x; rows ← with_ids uuid5 xs; ok (row ∷ rows)

abbrev pub assigned :
    (f : Files) → Result (Batch × List Row) → Objects f → Result Report × Objects f
assigned f (err e) objects = (err e, objects)
assigned f (ok (batch, rows)) objects =
    let done = conclude f (codes "06_with_ids.ndjson") batch rows objects in (ok done.0, done.1)

unfoldable pub handler :
    (f : Files) → (Text → Text) → Dict Json → Objects f → Result Report × Objects f
handler f uuid5 event objects =
    assigned f
      (do batch ← read_batch f event objects; rows ← with_ids uuid5 batch.rows; ok (batch, rows))
      objects
