-- ===== src/Cleansing/Tests/Batches.antt =====
-- Small batches: duplicates, domains without mail, rows of a CSV file, a listing.
use automated_outreach_proto.Prelude.{◌≢◌, inl, inr}
use automated_outreach_proto.Json.{get_or}
use automated_outreach_proto.Cleansing.PipelineIo.{
  get_object, step_key, write_quarantine, csv_written, csv_stored, quarantine_key, write_ndjson,
}
use automated_outreach_proto.Cleansing.Steps.Suppress.{object_key}
use automated_outreach_proto.Prelude.{
  ℕ, suc, ◌≡◌, refl, arith, All, false, none, some, List, [], ◌∷◌, ok,
}
use automated_outreach_proto.Text.{Text, codes}
use automated_outreach_proto.Text.Space.{strip, lstrip_of, rstrip_of, keep}
use automated_outreach_proto.Text.{is_space}
use automated_outreach_proto.Datetime.{before_datetime}
use automated_outreach_proto.Dict.{Dict, get, put}
use automated_outreach_proto.Json.{Json, null, str, obj, end, field, truthy, to_str, index}
use automated_outreach_proto.Suppression.Store.{load_events, read_events}
use automated_outreach_proto.Suppression.Store.Pages.{last_page, load_events-Listing}
use automated_outreach_proto.Suppression.Tests.{bucket}
use automated_outreach_proto.Cleansing.PipelineIo.{Row, as_row}
use automated_outreach_proto.Cleansing.Identity.{normalized_key}
use automated_outreach_proto.Cleansing.Tests.Steps.{files}
use automated_outreach_proto.Cleansing.Steps.Dedupe.{
  enriched_at, is_newer, keep_newest, key_of, dedupe_row, dedupe_rows,
}
use automated_outreach_proto.Cleansing.Steps.Dedupe.Newest.{
  IsChosen, IsCovered, dedupe_rows-IsChosen,
}
use automated_outreach_proto.Cleansing.Steps.Validate.{Hooks, Seen, validate_rows}
use automated_outreach_proto.Cleansing.Steps.SchemaValidate as Schema
use automated_outreach_proto.Cleansing.Steps.SchemaValidate.{
  CsvRow, is_blank, time_reason, reason, outcome_of,
}
use automated_outreach_proto.Cleansing.Steps.SchemaValidate.Reasons.{IsShort, handler-IsShort}

-- A contact that was enriched at an instant.
abbrev contact : ℕ → Json
contact t = obj (
    field (codes "phone") null (
      field (codes "email") (str (codes "ann@b.co"))
        (field (codes "enriched_at") (str (1 ∷ t ∷ [])) end)))

abbrev newest : Row
newest =
    (codes "phone", null)
    ∷ (codes "email", str (codes "ann@b.co"))
    ∷ (codes "enriched_at", str (1 ∷ 7 ∷ []))
    ∷ (codes "normalized_key", str (codes "|ann@b.co"))
    ∷ []

abbrev best : Dict Row
best = (codes "|ann@b.co", newest) ∷ []

deduped : dedupe_rows files (contact 5 ∷ contact 7 ∷ contact 6 ∷ []) [] ≡ ok best
unfolding dedupe_rows dedupe_row key_of keep_newest is_newer enriched_at before_datetime index get
    put as_row normalized_key truthy to_str
deduped = refl

dedupe_rows-IsChosen_example :
    ((k : Text) (r : Row)
      → get k best ≡ some r
      → IsChosen files (contact 5 ∷ contact 7 ∷ contact 6 ∷ []) k r)
    × All (IsCovered files best) (contact 5 ∷ contact 7 ∷ contact 6 ∷ [])
dedupe_rows-IsChosen_example =
    dedupe_rows-IsChosen files (contact 5 ∷ contact 7 ∷ contact 6 ∷ []) best deduped

-- No domain takes mail, and the number of questions is counted.
abbrev hooks : Hooks
hooks = record {
  World = ℕ;
  mx_check = λ domain w. (ok false, suc w);
  line_type_lookup = λ phone w. (ok none, w);
  enabled = none;
}

abbrev unseen : Seen hooks
unseen = record { world = 0; mx_cache = [] }

abbrev refused_row : Row
refused_row =
    (codes "phone", null)
    ∷ (codes "email", str (codes "ann@b.co"))
    ∷ (codes "enriched_at", str (1 ∷ 5 ∷ []))
    ∷ (codes "reason", str (codes "email_domain_has_no_mx"))
    ∷ []

-- A row of a CSV file that ends before the time.
abbrev short : CsvRow
short =
    (codes "company_name", some (codes "B"))
    ∷ (codes "phone", some (codes "1"))
    ∷ (codes "email", some [])
    ∷ (codes "enriched_at", none)
    ∷ []

abbrev unnamed : CsvRow
unnamed = (codes "company_name", some (codes " ")) ∷ []

short-IsShort : IsShort short
unfolding is_blank get strip lstrip_of rstrip_of keep is_space
short-IsShort = record { named = refl; identified = refl; ends_early = refl }

-- A CSV file with one of the lists of rows.
abbrev csv_of : List CsvRow → Schema.CsvFiles files
csv_of rows = record { decode_sig = λ _. ok []; rows_of = λ _. ok rows }

abbrev upload : Dict Json
upload =
    (codes "bucket", str (codes "b"))
    ∷ (codes "key", str (codes "raw/in.csv"))
    ∷ (codes "run_id", str (codes "r"))
    ∷ []

abbrev uploaded : Dict Json
uploaded = (codes "raw/in.csv", null) ∷ []

csv_read :
    (rows : List CsvRow)
    → Schema.read_csv_rows files (csv_of rows) (codes "raw/in.csv") uploaded ≡ ok rows
unfolding Schema.read_csv_rows get_object get
csv_read rows = refl

key_found : get (codes "key") upload ≡ some (str (codes "raw/in.csv"))
unfolding get
key_found = refl

handler-IsShort_example :
    ((Schema.handler files (csv_of (unnamed ∷ short ∷ [])) upload uploaded).1 ≡ uploaded)
    × ((r : Schema.Report)
        → (Schema.handler files (csv_of (unnamed ∷ short ∷ [])) upload uploaded).0 ≢ ok r)
handler-IsShort_example =
    handler-IsShort files (csv_of (unnamed ∷ short ∷ [])) upload uploaded (codes "raw/in.csv")
      (unnamed ∷ short ∷ []) short key_found (csv_read (unnamed ∷ short ∷ [])) (inr (inl refl))
      short-IsShort

abbrev complete : CsvRow
complete =
    (codes "company_name", some (codes "B"))
    ∷ (codes "phone", some (codes "1"))
    ∷ (codes "email", some [])
    ∷ (codes "enriched_at", some (1 ∷ 5 ∷ []))
    ∷ []

abbrev sorted : Schema.Report
sorted = record {
  bucket = str (codes "b");
  key = codes "staging/pipeline/r/01_schema_valid.ndjson";
  run_id = str (codes "r");
  rows_in = 2;
  rows_out = 1;
  rows_quarantined = 1;
  quarantine_key = some (codes "raw/quarantine/r/01_schema.csv");
}

sorted_out : (Schema.handler files (csv_of (unnamed ∷ complete ∷ [])) upload uploaded).0 ≡ ok sorted
unfolding Schema.handler Schema.decisions Schema.conclude Schema.run_id_or Schema.read_csv_rows
    Schema.validate_rows Schema.enriched_at reason time_reason is_blank outcome_of object_key
    get_object index get_or get put truthy to_str step_key write_quarantine csv_written csv_stored
    quarantine_key write_ndjson strip lstrip_of rstrip_of keep is_space
sorted_out = refl

abbrev logged : Dict Json
logged = (codes "suppression/events/e1.json", obj end) ∷ (codes "other", null) ∷ []

load_events-Listing_example :
    load_events bucket logged ≡ read_events bucket logged (codes "suppression/events/e1.json" ∷ [])
load_events-Listing_example =
    load_events-Listing bucket logged 1 (codes "suppression/events/e1.json" ∷ [])
      (last_page none refl) (ground arith)
