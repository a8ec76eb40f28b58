-- ===== src/Salesforce/InboundGap.antt =====
-- src/salesforce/inbound_gap.py: the business time since the last inbound message. A local time is a
-- number of microseconds on the wall clock, from the day before the first of the calendar.
pub mod Sums
pub mod Run
pub mod Additive
use automated_outreach_proto.Prelude.{
  ℕ, zero, suc, ◌+◌, ◌-◌, ◌*◌, ◌/◌, ◌%◌, Bool, true, false, not, Option, none, some, List, [], ◌∷◌,
  ◌++◌, ltb, leb, ◌==◌, if◌then◌else◌, Exn, value_error, type_error, index_error, gap_error, Result,
  ok, err, ◌>>=◌, ℤ, pos, negsuc,
}
use automated_outreach_proto.Text.{Text, codes}
use automated_outreach_proto.Datetime.{Datetime, IsoFormat, before_datetime}
use automated_outreach_proto.Dict.{Dict, get}
use automated_outreach_proto.Json.{Json, null, int, str, arr, nil, cons, truthy}
use automated_outreach_proto.Salesforce.Cloud.{Metric, micros}
use automated_outreach_proto.Cleansing.PipelineIo.{Files}
use automated_outreach_proto.Cleansing.Steps.Suppress.{as_of_time}
use automated_outreach_proto.Salesforce.Http.{
  HttpRequest, HttpResponse, Net, json_of, subscript, text_of,
}

abbrev pub day_micros : ℕ
day_micros = 86400000000

abbrev pub hour_micros : ℕ
hour_micros = 3600000000

-- date.weekday(), of the day with this ordinal: Monday is 0
abbrev pub weekday : ℕ → ℕ
weekday day = (day + 6) % 7

abbrev pub max_wall : ℕ → ℕ → ℕ
max_wall a b = if ltb a b then b else a

abbrev pub min_wall : ℕ → ℕ → ℕ
min_wall a b = if ltb b a then b else a

-- time(hour), in microseconds of the day
unfoldable pub time_of : ℤ → Result ℕ
time_of (pos h) = if ltb h 24 then ok (h * hour_micros) else err value_error
time_of (negsuc h) = err value_error

unfoldable pub hours_of : ℤ → ℤ → Result (ℕ × ℕ)
hours_of start_hour end_hour = do
  opens ← time_of start_hour
  closes ← time_of end_hour
  ok (opens, closes)

-- What a working day adds: the part of its hours between the two times.
unfoldable pub working_part : ℕ → ℕ → ℕ → ℕ → ℕ → ℕ
working_part opens closes start end' day =
    let low = max_wall start (day * day_micros + opens) in
    let high = min_wall end' (day * day_micros + closes) in if ltb low high then high - low else 0

-- One round of the loop; the hours are looked at on working days only.
unfoldable pub day_part : Result (ℕ × ℕ) → ℕ → ℕ → ℕ → Result ℕ
day_part hours start end' day =
    if ltb (weekday day) 5
    then (do (opens, closes) ← hours; ok (working_part opens closes start end' day))
    else ok 0

-- The `while` loop, by the days that are left.
unfoldable pub days_from : Result (ℕ × ℕ) → ℕ → ℕ → ℕ → ℕ → Result ℕ
days_from hours start end' zero day = ok 0
days_from hours start end' (suc left) day = do
  part ← day_part hours start end' day
  rest ← days_from hours start end' left (suc day)
  ok (part + rest)

-- Between two local times.
unfoldable pub wall_micros : Result (ℕ × ℕ) → ℕ → ℕ → Result ℕ
wall_micros hours start end' =
    days_from hours start end' (suc (end' / day_micros) - start / day_micros) (start / day_micros)

-- `zone` is astimezone(tz).
unfoldable pub business_micros : Datetime → Datetime → (Datetime → ℕ) → ℤ → ℤ → Result ℕ
business_micros start end' zone start_hour end_hour = do
  later ← before_datetime start end'
  if later then wall_micros (hours_of start_hour end_hour) (zone start) (zone end') else ok 0

abbrev pub latest_inbound_query : Text
latest_inbound_query =
    codes "SELECT CreatedDate FROM Outreach_Message__c "
    ++ codes "WHERE Direction__c = 'Inbound' ORDER BY CreatedDate DESC LIMIT 1"

abbrev inbound_request : Net → Text → Text → HttpRequest
inbound_request n access_token instance_url = record {
  method = codes "GET";
  url = instance_url ++ (codes "/services/data/v63.0/query?q=" ++ n.quote latest_inbound_query);
  headers = (codes "Authorization", codes "Bearer " ++ access_token) ∷ [];
  body = none;
}

abbrev query_failed : Net → HttpResponse → Exn
query_failed n r =
    gap_error
      (codes "inbound query failed: " ++ (text_of n (int r.status) ++ (b' ' ∷ n.repr_bytes r.body)))

-- records[0], where there are records
abbrev first_record : Json → Result Json
first_record (arr (cons x xs)) = ok x
first_record (str (c ∷ s)) = ok (str (c ∷ []))
first_record _ = err type_error

abbrev date_of : IsoFormat → Json → Result Datetime
date_of iso (str s) = iso.parse s
date_of iso _ = err type_error

abbrev latest_record : IsoFormat → Json → Result (Option Datetime)
latest_record iso records = do
  first ← first_record records
  created ← subscript (codes "CreatedDate") first
  at ← date_of iso created
  ok (some at)

abbrev latest_in : IsoFormat → Json → Result (Option Datetime)
latest_in iso records = if not (truthy records) then ok none else latest_record iso records

unfoldable pub latest_of : Net → IsoFormat → HttpResponse → Result (Option Datetime)
latest_of n iso r =
    if not (r.status == 200)
    then err (query_failed n r)
    else (json_of n r >>= subscript (codes "records") >>= latest_in iso)

abbrev answered :
    (n : Net) → IsoFormat → Result HttpResponse × n.World → Result (Option Datetime) × n.World
answered n iso (ok r, w) = (latest_of n iso r, w)
answered n iso (err e, w) = (err e, w)

unfoldable pub latest_inbound_at :
    (n : Net) → IsoFormat → Text → Text → n.World → Result (Option Datetime) × n.World
latest_inbound_at n iso access_token instance_url w =
    answered n iso (n.transport (inbound_request n access_token instance_url) w)

-- What the handler returns: the gap, in microseconds, where there ever was a message.
pub data GapReport : Type 0 where
  never_inbound : GapReport
  gap_of : ℕ → GapReport

abbrev or_text : Text → Option Text → Text
or_text default none = default
or_text default (some s) = s

-- `zone_info` is ZoneInfo(name), with its astimezone.
unfoldable pub gap_since :
    Net → (Text → Option Text) → (Text → Result (Datetime → ℕ)) → Datetime → Datetime → Result ℕ
gap_since n getenv zone_info last_inbound as_of = do
  zone ← zone_info (or_text (codes "America/New_York") (getenv (codes "BUSINESS_TIMEZONE")))
  start_hour ← n.int_text (or_text (codes "8") (getenv (codes "BUSINESS_START_HOUR")))
  end_hour ← n.int_text (or_text (codes "21") (getenv (codes "BUSINESS_END_HOUR")))
  business_micros last_inbound as_of zone start_hour end_hour

abbrev pub gap_metric : ℕ → Metric
gap_metric gap = record { name = codes "InboundGapBusinessSeconds"; value = micros gap }
