-- ===== src/Cleansing/Tests/Steps.antt =====
-- A run of the suppression step after an opt-out, over a batch of two rows.
use automated_outreach_proto.Prelude.{some}
use automated_outreach_proto.Text.Space.{split, split_from, close}
use automated_outreach_proto.Cleansing.Normalize.{normalize_company}
use automated_outreach_proto.Cleansing.PipelineIo.{
  write_quarantine, csv_stored, csv_written, quarantine_key,
}
use automated_outreach_proto.Cleansing.Steps.Normalize as Normalize
use automated_outreach_proto.Cleansing.Steps.Normalize.Sorted.{IsPartitioned, handler-IsPartitioned}
use automated_outreach_proto.Dict.{put}
use automated_outreach_proto.Json.{index, to_str, as_dict}
use automated_outreach_proto.Datetime.{before_datetime}
use automated_outreach_proto.Text.{rpartition, before, is_space}
use automated_outreach_proto.Text.Space.{strip, keep, lstrip_of, rstrip_of}
use automated_outreach_proto.Cleansing.Normalize.{
  clean, address, email_form, normalize_email, normalize_phone,
}
use automated_outreach_proto.Cleansing.PipelineIo.{
  as_row, is_line_break, line_parts, nonempty_lines, get_object, load_lines, step_key,
}
use automated_outreach_proto.Cleansing.Steps.Suppress.{
  decisions, object_key, as_of_time, suppress_rows, suppress_row, suppress_contact, contact,
  opt_text, decide, sorted_out, cooled, in_cooldown, conclude, report, out_key, excluded_key_of,
}
use automated_outreach_proto.Suppression.Store.{
  is_suppressed, refresh_if_stale, reload, reloaded, load_events, load_pages, read_events,
  read_event, current_set, reduce_events, keep_earliest, to_match, as_text, check, check_identifier,
  add_suppression, add_normalized, normalize, append_event, update_cache, cache_updated, event_of,
  event_key, kind_of,
}
use automated_outreach_proto.Prelude.{
  ◌≡◌, refl, none, List, [], ◌∷◌, map, All, Result, ok, err, type_error,
}
use automated_outreach_proto.Text.{Text, codes}
use automated_outreach_proto.Dict.{Dict, get}
use automated_outreach_proto.Json.{Json, null, str}
use automated_outreach_proto.Suppression.Store.{State}
use automated_outreach_proto.Suppression.Store.Memory.{Reach, Step, here, next}
use automated_outreach_proto.Suppression.Store.Memory as Memory
use automated_outreach_proto.Suppression.Tests.{
  bucket, bucket-IsCodec, bucket-IsListing, stamps-IsIsoFormat, start, noon, opted_out, added,
  named,
}
use automated_outreach_proto.Cleansing.PipelineIo.{
  Files, Row, row_json, ndjson, read_ndjson, write_ndjson,
}
use automated_outreach_proto.Cleansing.PipelineIo.Ndjson.{IsFiles, read_ndjson-write_ndjson}
use automated_outreach_proto.Cleansing.Steps.Suppress.{Surroundings, Report, handler}
use automated_outreach_proto.Cleansing.Steps.Suppress.Clear.{IsClear, suppress_step-IsClear}
use automated_outreach_proto.Cleansing.Tests.Codec.{
  write_items, write_fields, write_text, number, top, machine, step, act, operation, push_char,
  write, read, read-write, write-IsLine,
}

abbrev text_of : Json → Result Text
text_of (str s) = ok s
text_of _ = err type_error

abbrev pub files : Files
files = record {
  backend = bucket;
  decode = text_of;
  encode = str;
  dumps = write;
  loads = read;
  render = λ _. [];
  csv_text = λ _ _. ok [];
}

pub files-IsFiles : IsFiles files
files-IsFiles = record {
  decode-encode = λ s e. refl;
  loads-dumps = read-write;
  one_line = λ x. (write-IsLine x).whole;
  not_empty = λ x. (write-IsLine x).has_text;
  encodes = λ x. (write-IsLine x).encodes;
}

abbrev row : Text → Row
row email =
    (codes "phone", null) ∷ (codes "email", str email) ∷ (codes "last_contacted_at", null) ∷ []

abbrev rows : List Row
rows = row (codes "ann@b.co") ∷ row (codes "joe@b.co") ∷ []

read_ndjson-write_ndjson_example :
    read_ndjson files (write_ndjson files (codes "in") rows []) (codes "in")
    ≡ ok (map row_json rows)
read_ndjson-write_ndjson_example = read_ndjson-write_ndjson files files-IsFiles (codes "in") rows []

-- The bucket with the batch's file in it.
abbrev loaded : State bucket
loaded = record opted_out { objects = put (codes "in") (str (ndjson files rows)) opted_out.objects }

abbrev surroundings : Surroundings
surroundings = record { now_utc = noon; monotonic = λ i. i; cooldown_days = ok 90 }

abbrev event : Dict Json
event =
    (codes "bucket", str (codes "b"))
    ∷ (codes "key", str (codes "in"))
    ∷ (codes "run_id", str (codes "r"))
    ∷ []

abbrev answer : Report
answer = record {
  bucket = str (codes "b");
  key = codes "staging/pipeline/r/05_suppressed.ndjson";
  run_id = str (codes "r");
  rows_in = 2;
  rows_out = 1;
  suppressed_rows = 1;
  cooldown_excluded = 0;
  excluded_key = codes "staging/pipeline/r/05_excluded.ndjson";
}

unlisted : get (codes "in") opted_out.objects ≡ none
unfolding get add_suppression add_normalized normalize normalize_email clean strip rpartition before
    append_event update_cache cache_updated to_match index event_of keep_earliest put event_key
    address email_form normalize_phone before_datetime as_text kind_of keep lstrip_of rstrip_of
    is_space
unlisted = refl

returned : (handler files surroundings event loaded.objects).0 ≡ ok answer
unfolding handler decisions index object_key read_ndjson as_of_time get get_object nonempty_lines
    line_parts load_lines ndjson put is_line_break suppress_rows suppress_row suppress_contact
    contact opt_text as_row decide sorted_out cooled in_cooldown conclude report out_key
    excluded_key_of step_key to_str is_suppressed refresh_if_stale reload reloaded load_events
    load_pages read_events read_event current_set reduce_events keep_earliest to_match as_text
    before_datetime as_dict check check_identifier normalize_email normalize_phone email_form
    address clean strip lstrip_of rstrip_of keep rpartition before is_space add_suppression
    add_normalized normalize append_event update_cache cache_updated event_of event_key kind_of
    write write_items write_fields write_text number read top machine step act operation push_char
returned = refl

suppress_step-IsClear_example :
    (kept : List Row) × (read_ndjson files
        (handler files surroundings event loaded.objects).1
        answer.key
      ≡ ok (map row_json kept))
    × All (IsClear bucket (codes "ann@b.co")) kept
suppress_step-IsClear_example =
    suppress_step-IsClear files files-IsFiles bucket-IsCodec bucket-IsListing stamps-IsIsoFormat
      (codes "e1") (codes "Ann+x@b.co") (codes "ann@b.co") (str (codes "stop")) (str (codes "sms"))
      noon start loaded surroundings event answer named added
      (next here (Memory.write (codes "in") (str (ndjson files rows)) unlisted)) returned

abbrev raw_row : Text → Text → Row
raw_row company email =
    (codes "company_name", str company) ∷ (codes "phone", null) ∷ (codes "email", str email) ∷ []

abbrev raw_rows : List Row
raw_rows =
    raw_row (codes " Acme  Ltd") (codes "Ann@B.co") ∷ raw_row (codes "Joe") (codes "joe") ∷ []

abbrev raw_objects : Dict Json
raw_objects = (codes "in", str (ndjson files raw_rows)) ∷ []

abbrev normalized : Normalize.Report
normalized = record {
  bucket = str (codes "b");
  key = codes "staging/pipeline/r/02_normalized.ndjson";
  run_id = str (codes "r");
  rows_in = 2;
  rows_out = 1;
  rows_quarantined = 1;
  quarantine_key = some (codes "raw/quarantine/r/02_normalize.csv");
}

normalized_returned : (Normalize.handler files event raw_objects).0 ≡ ok normalized
unfolding Normalize.handler Normalize.decisions Normalize.conclude Normalize.report
    Normalize.out_key Normalize.normalize_rows Normalize.normalize_row Normalize.with_company
    Normalize.with_identifiers index object_key read_ndjson get get_object nonempty_lines line_parts
    load_lines ndjson put is_line_break opt_text as_row step_key to_str normalize_company
    normalize_email normalize_phone email_form address clean strip split split_from close lstrip_of
    rstrip_of keep rpartition before is_space write_quarantine csv_written csv_stored quarantine_key
    write write_items write_fields write_text number read top machine step act operation push_char
normalized_returned = refl

handler-IsPartitioned_example :
    (key : Text) × (rows : List Json) × (get (codes "key") event ≡ some (str key))
    × (read_ndjson files raw_objects key ≡ ok rows)
    × IsPartitioned files rows normalized (Normalize.handler files event raw_objects).1
handler-IsPartitioned_example =
    handler-IsPartitioned files files-IsFiles event raw_objects normalized normalized_returned
