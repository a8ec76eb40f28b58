-- ===== src/Cleansing/Steps/Batch.antt =====
-- What the steps share: the batch that an event names, and the report of the steps that have no
-- quarantine file.
use automated_outreach_proto.Prelude.{ℕ, List, Result, ok, ◌>>=◌, length}
use automated_outreach_proto.Text.{Text, codes}
use automated_outreach_proto.Dict.{Dict}
use automated_outreach_proto.Json.{Json, index, to_str}
use automated_outreach_proto.Cleansing.PipelineIo.{
  Files, Objects, Row, read_ndjson, write_ndjson, step_key,
}
use automated_outreach_proto.Cleansing.Steps.Suppress.{object_key}

pub record Batch : Type 0 where
  pub bucket : Json
  pub run_id : Json
  pub rows : List Json

unfoldable pub read_batch : (f : Files) → Dict Json → Objects f → Result Batch
read_batch f event objects = do
  bucket ← index (codes "bucket") event
  run_id ← index (codes "run_id") event
  key ← index (codes "key") event
  name ← object_key key
  rows ← read_ndjson f objects name
  ok (record { bucket = bucket; run_id = run_id; rows = rows })

pub record Report : Type 0 where
  pub bucket : Json
  pub key : Text
  pub run_id : Json
  pub rows_in : ℕ
  pub rows_out : ℕ

unfoldable pub step_out : Files → Text → Batch → Text
step_out f name b = step_key (to_str f.render b.run_id) name

-- The rows under the name of the step, and the report.
unfoldable pub conclude : (f : Files) → Text → Batch → List Row → Objects f → Report × Objects f
conclude f name b rows objects = (
  record {
    bucket = b.bucket;
    key = step_out f name b;
    run_id = b.run_id;
    rows_in = length b.rows;
    rows_out = length rows;
  },
  write_ndjson f (step_out f name b) rows objects,
)
