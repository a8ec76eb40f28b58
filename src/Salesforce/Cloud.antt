-- ===== src/Salesforce/Cloud.antt =====
-- What the jobs take from AWS besides the bucket: secrets, the environment, metrics, Parquet files.
use automated_outreach_proto.Prelude.{ℕ, Option, List, Result, ℤ}
use automated_outreach_proto.Text.{Text}
use automated_outreach_proto.Cleansing.PipelineIo.{Files, Row}
use automated_outreach_proto.Salesforce.Http.{Net}

-- The value of a metric: a whole number, a / b * 100, or a number of microseconds in seconds.
pub data Value : Type 0 where
  whole : ℤ → Value
  percent : ℕ → ℕ → Value
  micros : ℕ → Value

pub record Metric : Type 0 where
  pub name : Text
  pub value : Value

pub record Cloud (n : Net) (f : Files) : Type 0 where
  pub get_secret : Text → Result Text
  pub getenv : Text → Option Text
  pub put_metrics : Text → List Metric → n.World → Result (Unit {0}) × n.World
  pub read_parquet : f.backend.Body → Result (List Row)

-- The network, and the objects of the bucket.
pub record Lake (n : Net) (f : Files) : Type 0 where
  pub world : n.World
  pub objects : List (Text × f.backend.Body)
