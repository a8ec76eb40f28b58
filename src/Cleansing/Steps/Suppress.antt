-- ===== src/Cleansing/Steps/Suppress.antt =====
-- src/cleansing/steps/suppress.py: who is left out of a batch. The handler's own store is not seen
-- from outside, so the loop over the rows returns its result alone.
pub mod Clear
use automated_outreach_proto.Prelude.{◌≡◌, ap, ok-injective}
use automated_outreach_proto.Prelude.{
  ℕ, suc, ◌+◌, ◌-◌, ◌*◌, ◌≡◌, Bool, true, false, Option, none, some, List, [], ◌∷◌, ◌++◌, length,
  is_some, map, Exn, type_error, other, Result, ok, err, ◌>>=◌, if◌then◌else◌,
}
use automated_outreach_proto.Text.{Text, codes}
use automated_outreach_proto.Datetime.{Datetime, within_window}
use automated_outreach_proto.Dict.{Dict, get, put}
use automated_outreach_proto.Json.{Json, null, str, index, to_str}
use automated_outreach_proto.Suppression.Store.{Backend, State, SuppressionResult, is_suppressed}
use automated_outreach_proto.Cleansing.PipelineIo.{
  Files, Objects, Row, as_row, row_json, read_ndjson, write_ndjson, step_key,
}

-- The clock, by the number of the row for the store's, and int(os.environ.get("COOLDOWN_DAYS",
-- "90")), for a number that is not negative.
pub record Surroundings : Type 0 where
  pub now_utc : Datetime
  pub monotonic : ℕ → ℕ
  pub cooldown_days : Result ℕ

-- One day in microseconds.
abbrev pub day : ℕ
day = 86400000000

-- str | None, of which the normal forms take no other value
unfoldable pub opt_text : Json → Result (Option Text)
opt_text null = ok none
opt_text (str s) = ok (some s)
opt_text _ = err type_error

unfoldable pub contact : Row → Result (Option Text × Option Text)
contact row = do
  p ← index (codes "phone") row
  phone ← opt_text p
  e ← index (codes "email") row
  email ← opt_text e
  ok (phone, email)

pub data Outcome : Type 0 where
  kept : Row → Outcome
  suppressed : Row → Outcome
  cooldown : Row → Outcome

unfoldable pub in_cooldown : Files → Datetime → ℕ → Json → Result Bool
in_cooldown f as_of window null = ok false
in_cooldown f as_of window (str s) = do
  last_contacted ← f.backend.iso.parse s
  within_window as_of last_contacted window
in_cooldown f as_of window _ = err type_error

-- A row that the store does not suppress.
unfoldable pub cooled : Row → Result Bool → Result Outcome
cooled row (err e) = err e
cooled row (ok true) = ok (cooldown (put (codes "excluded_reason") (str (codes "cooldown")) row))
cooled row (ok false) = ok (kept row)

-- The tests on one row, of which the first is the store's answer.
unfoldable pub sorted_out : Bool → Row → Result Bool → Result Outcome
sorted_out true row recent =
    ok (suppressed (put (codes "excluded_reason") (str (codes "suppressed")) row))
sorted_out false row recent = cooled row recent

unfoldable pub decide : Files → Datetime → ℕ → Row → Result SuppressionResult → Result Outcome
decide f as_of window row (err e) = err e
decide f as_of window row (ok r) =
    sorted_out r.suppressed row
      (do last ← index (codes "last_contacted_at") row; in_cooldown f as_of window last)

unfoldable pub suppress_contact :
    (f : Files)
    → Datetime
    → ℕ
    → ℕ
    → Row
    → Result (Option Text × Option Text)
    → State f.backend
    → Result Outcome × State f.backend
suppress_contact f as_of window now row (err e) s = (err e, s)
suppress_contact f as_of window now row (ok (phone, email)) s =
    let (answer, s') = is_suppressed f.backend now phone email s in
    (decide f as_of window row answer, s')

-- One round of the loop.
unfoldable pub suppress_row :
    (f : Files) → Datetime → ℕ → ℕ → Result Row → State f.backend → Result Outcome × State f.backend
suppress_row f as_of window now (err e) s = (err e, s)
suppress_row f as_of window now (ok row) s = suppress_contact f as_of window now row (contact row) s

unfoldable pub suppress_rows :
    (f : Files) → (ℕ → ℕ) → Datetime → ℕ → ℕ → List Json → State f.backend → Result (List Outcome)
suppress_rows f clock as_of window i [] s = ok []
suppress_rows f clock as_of window i (x ∷ xs) s =
    let (o, s') = suppress_row f as_of window (clock i) (as_row x) s in
    (do outcome ← o; rest ← suppress_rows f clock as_of window (suc i) xs s'; ok (outcome ∷ rest))

abbrev pub kept_rows : List Outcome → List Row
kept_rows [] = []
kept_rows (kept r ∷ os) = r ∷ kept_rows os
kept_rows (suppressed r ∷ os) = kept_rows os
kept_rows (cooldown r ∷ os) = kept_rows os

abbrev pub excluded_rows : List Outcome → List Row
excluded_rows [] = []
excluded_rows (kept r ∷ os) = excluded_rows os
excluded_rows (suppressed r ∷ os) = r ∷ excluded_rows os
excluded_rows (cooldown r ∷ os) = r ∷ excluded_rows os

-- sum(1 for r in excluded if r["excluded_reason"] == "suppressed")
abbrev pub suppressed_count : List Outcome → ℕ
suppressed_count [] = 0
suppressed_count (suppressed r ∷ os) = suc (suppressed_count os)
suppressed_count (kept r ∷ os) = suppressed_count os
suppressed_count (cooldown r ∷ os) = suppressed_count os

pub record Report : Type 0 where
  pub bucket : Json
  pub key : Text
  pub run_id : Json
  pub rows_in : ℕ
  pub rows_out : ℕ
  pub suppressed_rows : ℕ
  pub cooldown_excluded : ℕ
  pub excluded_key : Text

unfoldable pub as_of_time : Files → Surroundings → Option Json → Result Datetime
as_of_time f c none = ok c.now_utc
as_of_time f c (some (str s)) = f.backend.iso.parse s
as_of_time f c (some _) = err type_error

-- The key of the input, which botocore wants as a text.
unfoldable pub object_key : Json → Result Text
object_key (str s) = ok s
object_key _ = err (other (codes "ParamValidationError"))

pub object_key-str : (key : Json) (name : Text) → object_key key ≡ ok name → key ≡ str name
unfolding object_key
object_key-str (str s) name h = ap str (ok-injective h)
object_key-str _ name h = cc

-- A new store over the bucket.
abbrev pub new_store : (f : Files) → Objects f → State f.backend
new_store f objects = record { objects = objects; cache = []; cache_loaded_at = none }

-- The rows that were read, and what becomes of each.
unfoldable pub decisions :
    (f : Files) → Surroundings → Dict Json → Objects f → Result (List Json × List Outcome)
decisions f c event objects = do
  key ← index (codes "key") event
  name ← object_key key
  rows ← read_ndjson f objects name
  as_of ← as_of_time f c (get (codes "as_of") event)
  days ← c.cooldown_days
  outcomes ← suppress_rows f c.monotonic as_of (days * day) 0 rows (new_store f objects)
  ok (rows, outcomes)

unfoldable pub out_key : Files → Json → Text
out_key f run_id = step_key (to_str f.render run_id) (codes "05_suppressed.ndjson")

unfoldable pub excluded_key_of : Files → Json → Text
excluded_key_of f run_id = step_key (to_str f.render run_id) (codes "05_excluded.ndjson")

unfoldable pub report : Files → Json → Json → List Json → List Outcome → Report
report f bucket run_id rows os = record {
  bucket = bucket;
  key = out_key f run_id;
  run_id = run_id;
  rows_in = length rows;
  rows_out = length (kept_rows os);
  suppressed_rows = suppressed_count os;
  cooldown_excluded = length (excluded_rows os) - suppressed_count os;
  excluded_key = excluded_key_of f run_id;
}

-- The two files that are written, the kept rows first.
unfoldable pub write_outcomes : (f : Files) → Json → List Outcome → Objects f → Objects f
write_outcomes f run_id os objects =
    write_ndjson f (excluded_key_of f run_id) (excluded_rows os)
      (write_ndjson f (out_key f run_id) (kept_rows os) objects)

unfoldable pub conclude :
    (f : Files)
    → Result (Json × Json × List Json × List Outcome)
    → Objects f
    → Result Report × Objects f
conclude f (err e) objects = (err e, objects)
conclude f (ok (bucket, run_id, rows, os)) objects =
    (ok (report f bucket run_id rows os), write_outcomes f run_id os objects)

unfoldable pub handler :
    (f : Files) → Surroundings → Dict Json → Objects f → Result Report × Objects f
handler f c event objects =
    conclude f
      (do
        bucket ← index (codes "bucket") event
        run_id ← index (codes "run_id") event
        (rows, os) ← decisions f c event objects
        ok (bucket, run_id, rows, os))
      objects
