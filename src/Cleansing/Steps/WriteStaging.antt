-- ===== src/Cleansing/Steps/WriteStaging.antt =====
-- src/cleansing/steps/write_staging.py: the columns of the batch, as a Parquet file.
use automated_outreach_proto.Prelude.{ℕ, List, [], ◌∷◌, ◌++◌, map, length, Result, ok, err, ◌>>=◌}
use automated_outreach_proto.Text.{Text, codes}
use automated_outreach_proto.Dict.{Dict, put}
use automated_outreach_proto.Json.{Json, null, as_dict, get_or, to_str}
use automated_outreach_proto.Cleansing.PipelineIo.{Files, Objects, Row}
use automated_outreach_proto.Cleansing.Steps.Batch.{Batch, read_batch, Report}

abbrev pub columns : List Text
columns =
    codes "external_id"
    ∷ codes "normalized_key"
    ∷ codes "company_name"
    ∷ codes "contact_name"
    ∷ codes "phone"
    ∷ codes "email"
    ∷ codes "line_type"
    ∷ codes "enriched_at"
    ∷ codes "last_contacted_at"
    ∷ []

-- A data frame of text columns, with the times of `enriched_at` in UTC, written as Parquet: its bytes
-- and its height.
abbrev pub Frame : Files → Type 0
Frame f = List (Text × List Json) → Result (f.backend.Body × ℕ)

unfoldable pub as_rows : List Json → Result (List Row)
as_rows [] = ok []
as_rows (x ∷ xs) = do row ← as_dict x; rows ← as_rows xs; ok (row ∷ rows)

unfoldable pub column_of : List Row → Text → Text × List Json
column_of rows column = (column, map (λ row. get_or column null row) rows)

unfoldable pub staging_key : Files → Json → Text
staging_key f run_id = codes "staging/cleansed/" ++ (to_str f.render run_id ++ codes ".parquet")

abbrev pub staged :
    (f : Files) → Result (Batch × f.backend.Body × ℕ) → Objects f → Result Report × Objects f
staged f (err e) objects = (err e, objects)
staged f (ok (b, body, height)) objects = (
  ok (record {
    bucket = b.bucket;
    key = staging_key f b.run_id;
    run_id = b.run_id;
    rows_in = length b.rows;
    rows_out = height;
  }),
  put (staging_key f b.run_id) body objects,
)

unfoldable pub handler : (f : Files) → Frame f → Dict Json → Objects f → Result Report × Objects f
handler f frame event objects =
    staged f
      (do
        batch ← read_batch f event objects
        rows ← as_rows batch.rows
        (body, height) ← frame (map (column_of rows) columns)
        ok (batch, body, height))
      objects
